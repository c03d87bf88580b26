-- ===== src/Server/Concurrent/Invariant.antt =====
-- What holds of a session and of all connections that are attached to it, at every moment.
use mathlib.Core.List.Sublist
use tty_gateway.Base.{
  ℕ, suc, zero, ◌^◌, ◌<◌, ◌≡◌, ◌∙◌, refl, sym, ap, subst, Option, none, some, List, [], ◌∷◌, ◌++◌,
  Bytes, All, All-map, length, length-append, append_assoc, arith, get_elem?, set,
}
use tty_gateway.Core.Scrollback.{SessionInner, Holds}
use tty_gateway.Core.Registry.{SessionManager, Session}
use tty_gateway.Core.Registry.Reach.{ingests, ends}
use tty_gateway.Core.Registry.Evolves.{
  Grew, output_of, output_of_trans, Grew-trans, Grew-Holds, max_bytes-Grew, Evolves, create-Evolves,
  remove-Evolves, Step-Evolves,
}
use tty_gateway.Quota.Float.{Float}
use tty_gateway.Server.Conn.{Env}
use tty_gateway.Server.Rely.{IsFair, Evolves-IsPreorder}
use tty_gateway.Server.Serve.{Serving, Turn, take_turn}
use tty_gateway.Server.Serve.Oob.{Pongs, take_turn-Pongs}
use tty_gateway.Server.Serve.Evolving.{take_turn-Across}
use tty_gateway.Server.Serve.Output.Turns.{take_turn-Reads, session-take_turn}
use tty_gateway.Server.Serve.Output.{Reads, grown-Reads}
use tty_gateway.Server.Concurrent.{
  Connections, Act, takes, attaches, puts_out, ends as ends_at, creates, removes, seeing, attached,
  turned, step, run,
}

module _ {A : Type 0} (P : A → Type 0) where
  pub All-get : (xs : List A) (i : ℕ) (x : A) → get_elem? xs i ≡ some x → All P xs → P x
  All-get [] i x e h = absurd (ground arith)
  All-get (y ∷ ys) zero x e (h, _) = subst P (ground (arith, e)) h
  All-get (y ∷ ys) (suc i) x e (_, hs) = All-get ys i x e hs

  pub All-set : (xs : List A) (i : ℕ) (x : A) → All P xs → P x → All P (set xs i x)
  All-set [] i x h p = tt
  All-set (y ∷ ys) zero x (_, hs) p = (p, hs)
  All-set (y ∷ ys) (suc i) x (h, hs) p = (h, All-set ys i x hs p)

  pub All-snoc : (xs : List A) (x : A) → All P xs → P x → All P (xs ++ (x ∷ []))
  All-snoc [] x h p = (p, tt)
  All-snoc (y ∷ ys) x (h, hs) p = (h, All-snoc ys x hs p)

module _ {W Tx H C K P : Type 0} (f : Float) (now : W → ℕ) (env : Env W Tx H C K P)
    (fair : IsFair env) (h : Bytes) (address : ℕ) (session : Session Tx)
    (holds : Holds h session.inner) where
  abbrev pub Served : Type 0
  Served = Serving f now env

  -- As far as the output so far fits.
  pub record Reading (out : Bytes) (s : Served) : Type 0 where
    pub pongs : Pongs s.oob
    pub reads : length (h ++ out) < 2 ^ 64 → Reads f now env session.inner.max_bytes (h ++ out) s

  -- A connection to the session at `address`.
  abbrev pub Attached : Bytes → Served → Type 0
  Attached out s = s.session ≡ address → Reading out s

  pub record Invariant (g : Connections f now env) : Type 0 where
    pub later : Session Tx
    pub found : get_elem? g.manager.heap address ≡ some later
    pub grew : Grew session.inner later.inner
    pub clients : All (Attached (output_of grew)) g.served

  pub more-Reading :
      (out new all : Bytes) (s : Served) → all ≡ out ++ new → Reading out s → Reading all s
  more-Reading out new all s e r = record {
    pongs = r.pongs;
    reads = λ fits.
        let size = length-append (h ++ out) new in
        let whole : (h ++ out) ++ new ≡ h ++ all =
          append_assoc h out new ∙ ap (λ l. h ++ l) (sym e) in
        subst (λ l. Reads f now env session.inner.max_bytes l s) whole
          (grown-Reads f now env session.inner.max_bytes (h ++ out) new s
            (r.reads (omega (arith, fits, size, ap length whole))));
  }

  grown-Reading :
      (t u : SessionInner) (g : Grew session.inner t) (k : Grew t u) (s : Served)
      → Reading (output_of g) s
      → Reading (output_of (Grew-trans g k)) s
  grown-Reading t u g k s r = more-Reading (output_of g) (output_of k) _ s (output_of_trans g k) r

  grown-clients :
      (t u : SessionInner) (g : Grew session.inner t) (k : Grew t u) (ss : List Served)
      → All (Attached (output_of g)) ss
      → All (Attached (output_of (Grew-trans g k))) ss
  grown-clients t u g k ss all =
      All-map (Attached (output_of g)) (Attached (output_of (Grew-trans g k)))
        (λ s a e. grown-Reading t u g k s (a e)) ss all

  moved-Invariant :
      (m : SessionManager Tx) (g : Connections f now env)
      → Evolves g.manager m
      → Invariant g
      → Invariant (record g { manager = m })
  moved-Invariant m g ev v =
      let (next, at, l) = ev.at address v.later v.found in
      record {
        later = next;
        found = at;
        grew = Grew-trans v.grew l.grew;
        clients = grown-clients _ _ v.grew l.grew g.served v.clients;
      }

  turned-Reading :
      (g : Connections f now env) (v : Invariant g) (t : Turn f now env) (s : Served)
      → s.session ≡ address
      → Reading (output_of v.grew) s
      → Reading (output_of v.grew) (take_turn f now env t (seeing f now env g.manager s))
  turned-Reading g v t s e r =
      let max = max_bytes-Grew v.grew in
      let out = output_of v.grew in
      let s' = seeing f now env g.manager s in
      record {
        pongs = take_turn-Pongs f now env t s' r.pongs;
        reads = λ fits.
            let before = r.reads fits in
            subst (λ m. Reads f now env m (h ++ out) (take_turn f now env t s')) max
              (take_turn-Reads f now env (h ++ out) v.later (Grew-Holds v.grew holds fits) t s'
                (ap (get_elem? g.manager.heap) e ∙ v.found) r.pongs
                (subst (λ m. Reads f now env m (h ++ out) s') (sym max)
                  (record { part = before.part; behind = before.behind; exact = before.exact })));
      }

  turned-Invariant :
      (g : Connections f now env) (i : ℕ) (t : Turn f now env) (o : Option Served)
      → get_elem? g.served i ≡ o
      → Invariant g
      → Invariant (turned f now env g i t o)
  unfolding turned
  turned-Invariant g i t none e v = v
  turned-Invariant g i t (some s) e v =
      let s1 = seeing f now env g.manager s in
      let s' = take_turn f now env t s1 in
      let ev = take_turn-Across f now env Evolves Evolves-IsPreorder fair.others t s1 in
      let (next, at, l) = ev.at address v.later v.found in
      let grew = Grew-trans v.grew l.grew in
      record {
        later = next;
        found = at;
        grew = grew;
        clients =
            All-set (Attached (output_of grew)) g.served i s'
              (grown-clients _ _ v.grew l.grew g.served v.clients)
              (λ same_session.
                let there = sym (session-take_turn f now env t s1) ∙ same_session in
                grown-Reading _ _ v.grew l.grew s' (
                  turned-Reading g v t s there
                    (All-get (Attached (output_of v.grew)) g.served i s e v.clients there)));
      }

  step-Invariant :
      (g : Connections f now env) (a : Act f now env) → Invariant g → Invariant (step f now env g a)
  unfolding step
  step-Invariant g (takes i t) v = turned-Invariant g i t (get_elem? g.served i) refl v
  step-Invariant g (attaches n w frames) v = record {
    later = v.later;
    found = v.found;
    grew = v.grew;
    clients =
        All-snoc (Attached (output_of v.grew)) g.served (attached f now env n w frames g.manager)
          v.clients
          (λ e. record {
            pongs = tt;
            reads = λ fits. record {
              part = Sublist.refl [];
              behind = omega arith;
              exact = λ small. refl;
            };
          });
  }
  step-Invariant g (puts_out i bytes) v = moved-Invariant _ g (Step-Evolves (ingests i bytes)) v
  step-Invariant g (ends_at i) v = moved-Invariant _ g (Step-Evolves (ends i)) v
  step-Invariant g (creates id token ssh) v =
      moved-Invariant _ g (create-Evolves g.manager id token ssh) v
  step-Invariant g (removes id) v = moved-Invariant _ g (remove-Evolves g.manager id) v

  pub run-Invariant :
      (acts : List (Act f now env)) (g : Connections f now env)
      → Invariant g
      → Invariant (run f now env acts g)
  unfolding run
  run-Invariant [] g v = v
  run-Invariant (a ∷ acts) g v = run-Invariant acts (step f now env g a) (step-Invariant g a v)
