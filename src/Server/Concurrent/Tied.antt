-- ===== src/Server/Concurrent/Tied.antt =====
-- What is done to one session while connections are served, act by act.
use mathlib.Core.List.Sublist
use native.Mathlib.Decide.{ℕ_discrete}
use tty_gateway.Base.{
  ℕ, ◌^◌, ◌<◌, ◌≡◌, ◌≢◌, true, false, Bool, ◌∙◌, refl, sym, ap, subst, Option, none, some, List, [],
  ◌∷◌, ◌++◌, Bytes, All, All-map, length, length-append, append_assoc, append-nil, arith, get_elem?,
  set, if◌then◌else◌, ◌==◌, ==_iff, Bool-cases, Option-cases, inl, inr, get_elem?-set_self,
  get_elem?-set_ne, get_elem?-lt, get_elem?-append_left,
}
use tty_gateway.Core.Scrollback.{Holds, append, close, append-Holds, max_bytes-append}
use tty_gateway.Core.Registry.{SessionManager, Session, create, remove, update, ingest, ingest_end}
use tty_gateway.Core.Registry.Evolves.{Evolves, Evolves-refl, close-Holds}
use tty_gateway.Quota.Float.{Float}
use tty_gateway.Server.Conn.{Env}
use tty_gateway.Server.Rely.{IsFair}
use tty_gateway.Server.Serve.{Serving, Turn, take_turn}
use tty_gateway.Server.Serve.Oob.{take_turn-Pongs}
use tty_gateway.Server.Serve.Evolving.{take_turn-Across}
use tty_gateway.Server.Serve.Output.Turns.{take_turn-Reads, session-take_turn}
use tty_gateway.Server.Serve.Output.{Reads}
use tty_gateway.Server.Concurrent.{
  Connections, Act, takes, attaches, puts_out, ends as ends_at, creates, removes, seeing, attached,
  turned, step, run,
}
use tty_gateway.Server.Concurrent.Invariant.{Attached, more-Reading, All-get, All-set, All-snoc}

elsewhere : (i address : ℕ) → i ≢ address → (i == address) ≡ false
elsewhere i address ne = elim (Bool-cases (i == address)) [
  | inl same ↦ absurd (ne ((==_iff i address).0 same))
  | inr other ↦ other
]

module _ {Tx : Type 0} where
  -- The session at an address after a change of the session at another, or of itself.
  update-get :
      (m : SessionManager Tx) (i address : ℕ) (g : Session Tx → Session Tx) (s : Session Tx)
      → get_elem? m.heap address ≡ some s
      → get_elem? (update m i g).heap address ≡ some (if i == address then g s else s)
  unfolding update
  update-get m i address g s e = elim (ℕ_discrete i address) [
    | yes p ↦
        (let here : get_elem? m.heap i ≡ some s = ap (get_elem? m.heap) p ∙ e in
          let same : (i == address) ≡ true = (==_iff i address).1 p in
          rw (here, same, update)
            (ap (get_elem? (set m.heap i (g s))) (sym p)
              ∙ get_elem?-set_self m.heap i (g s) (get_elem?-lt m.heap i s here)))
    | no p ↦ elim (Option-cases (get_elem? m.heap i)) [
      | inl gone ↦ rw (gone, elsewhere i address p, update) e
      | inr (other, there) ↦
          rw (there, elsewhere i address p, update) (get_elem?-set_ne m.heap (g other) p ∙ e)
    ]
  ]

module _ {W Tx H C K P : Type 0} (f : Float) (now : W → ℕ) (env : Env W Tx H C K P) where
  -- The output that the acts put out for the session at an address.
  abbrev pub put_out : ℕ → List (Act f now env) → Bytes
  put_out address [] = []
  put_out address (puts_out i bytes ∷ acts) =
      (if i == address then bytes else []) ++ put_out address acts
  put_out address (_ ∷ acts) = put_out address acts

-- What is done to the manager is an act of its own, so that a wait by itself leaves it alone.
pub record IsQuiet {W Tx H C K P : Type 0} (env : Env W Tx H C K P) : Type 0 where
  pub others : (w : W) (m : SessionManager Tx) → env.others w m ≡ m

module _ {W Tx H C K P : Type 0} (f : Float) (now : W → ℕ) (env : Env W Tx H C K P)
    (calm : IsQuiet env) where
  Unmoved : SessionManager Tx → SessionManager Tx → Type 0
  Unmoved m k = k ≡ m

  take_turn-manager :
      (t : Turn f now env) (s : Serving f now env)
      → (take_turn f now env t s).conn.manager ≡ s.conn.manager
  unfolding Unmoved
  take_turn-manager t s =
      take_turn-Across f now env Unmoved (record { same = λ m. refl; trans = λ m k l p q. q ∙ p })
        calm.others t s

  pub quiet-IsFair : IsFair env
  quiet-IsFair = record {
    others = λ w m. subst (Evolves m) (sym (calm.others w m)) (Evolves-refl m);
  }

  module _ (h : Bytes) (address : ℕ) (session : Session Tx) (start : Holds h session.inner) where
    abbrev pub At : Bytes → Serving f now env → Type 0
    At = Attached f now env quiet-IsFair h address session start

    -- The session and its clients after the output `out` of the acts so far.
    pub record Tied (out : Bytes) (g : Connections f now env) : Type 0 where
      pub later : Session Tx
      pub found : get_elem? g.manager.heap address ≡ some later
      pub same_max : later.inner.max_bytes ≡ session.inner.max_bytes
      pub holds : length (h ++ out) < 2 ^ 64 → Holds (h ++ out) later.inner
      pub clients : All (At out) g.served

    -- The session has not changed, or has only been closed.
    kept-Tied :
        (out : Bytes) (g : Connections f now env) (m : SessionManager Tx) (next : Session Tx)
        (v : Tied out g)
        → get_elem? m.heap address ≡ some next
        → next.inner.max_bytes ≡ v.later.inner.max_bytes
        → (Holds (h ++ out) v.later.inner → Holds (h ++ out) next.inner)
        → Tied out (record g { manager = m })
    kept-Tied out g m next v e same k = record {
      later = next;
      found = e;
      same_max = same ∙ v.same_max;
      holds = λ fits. k (v.holds fits);
      clients = v.clients;
    }

    put-Tied :
        (out : Bytes) (g : Connections f now env) (i : ℕ) (bytes : Bytes) (here : Bool)
        (v : Tied out g)
        → get_elem? (ingest g.manager i bytes).heap address
          ≡ some (if here then record v.later { inner = append v.later.inner bytes } else v.later)
        → Tied
            (out ++ (if here then bytes else []))
            (record g { manager = ingest g.manager i bytes })
    put-Tied out g i bytes false v e =
        subst (λ o. Tied o (record g { manager = ingest g.manager i bytes })) (sym (append-nil out))
          (kept-Tied out g _ v.later v e refl (λ x. x))
    put-Tied out g i bytes true v e = record {
      later = record v.later { inner = append v.later.inner bytes };
      found = e;
      same_max = max_bytes-append v.later.inner bytes ∙ v.same_max;
      holds = λ fits.
          let whole = append_assoc h out bytes in
          subst (λ x. Holds x (append v.later.inner bytes)) whole
            (append-Holds bytes
              (v.holds (omega (arith, fits, ap length whole, length-append (h ++ out) bytes)))
              (omega (arith, fits, ap length whole)));
      clients =
          All-map (At out) (At (out ++ bytes))
            (λ s a there.
              more-Reading f now env quiet-IsFair h address session start out bytes (out ++ bytes) s
                refl (a there))
            g.served v.clients;
    }

    turned-At :
        (out : Bytes) (g : Connections f now env) (v : Tied out g) (t : Turn f now env)
        (s : Serving f now env)
        → At out s
        → At out (take_turn f now env t (seeing f now env g.manager s))
    turned-At out g v t s a there =
        let s' = seeing f now env g.manager s in
        let at_address = sym (session-take_turn f now env t s') ∙ there in
        let r = a at_address in
        record {
          pongs = take_turn-Pongs f now env t s' r.pongs;
          reads = λ fits.
              let before = r.reads fits in
              subst (λ m. Reads f now env m (h ++ out) (take_turn f now env t s')) v.same_max
                (take_turn-Reads f now env (h ++ out) v.later (v.holds fits) t s'
                  (ap (get_elem? g.manager.heap) at_address ∙ v.found) r.pongs
                  (subst (λ m. Reads f now env m (h ++ out) s') (sym v.same_max)
                    (record { part = before.part; behind = before.behind; exact = before.exact })));
        }

    turned-Tied :
        (out : Bytes) (g : Connections f now env) (i : ℕ) (t : Turn f now env)
        (o : Option (Serving f now env))
        → get_elem? g.served i ≡ o
        → Tied out g
        → Tied out (turned f now env g i t o)
    unfolding turned
    turned-Tied out g i t none e v = v
    turned-Tied out g i t (some s) e v =
        let s1 = seeing f now env g.manager s in
        record {
          later = v.later;
          found = rw (take_turn-manager t s1) v.found;
          same_max = v.same_max;
          holds = v.holds;
          clients =
              All-set (At out) g.served i (take_turn f now env t s1) v.clients
                (turned-At out g v t s (All-get (At out) g.served i s e v.clients));
        }

    ended-Tied :
        (out : Bytes) (g : Connections f now env) (i : ℕ) (here : Bool) (v : Tied out g)
        → get_elem? (ingest_end g.manager i).heap address
          ≡ some (if here then record v.later { inner = close v.later.inner } else v.later)
        → Tied out (record g { manager = ingest_end g.manager i })
    ended-Tied out g i false v e = kept-Tied out g _ v.later v e refl (λ x. x)
    ended-Tied out g i true v e = kept-Tied out g _ _ v e refl close-Holds

    -- What an act puts out.
    abbrev more : Act f now env → Bytes
    more a = put_out f now env address (a ∷ [])

    same-Tied : (out : Bytes) (g : Connections f now env) → Tied out g → Tied (out ++ []) g
    same-Tied out g v = subst (λ o. Tied o g) (sym (append-nil out)) v

    step-Tied :
        (out : Bytes) (g : Connections f now env) (a : Act f now env)
        → Tied out g
        → Tied (out ++ more a) (step f now env g a)
    unfolding step create remove
    step-Tied out g (takes i t) v =
        same-Tied out _ (turned-Tied out g i t (get_elem? g.served i) refl v)
    step-Tied out g (attaches n w frames) v = same-Tied out _ (record {
      later = v.later;
      found = v.found;
      same_max = v.same_max;
      holds = v.holds;
      clients = All-snoc (At out) g.served (attached f now env n w frames g.manager) v.clients (λ e.
          record {
            pongs = tt;
            reads = λ fits. record {
              part = Sublist.refl [];
              behind = omega arith;
              exact = λ small. refl;
            };
          });
    })
    step-Tied out g (puts_out i bytes) v =
        subst (λ o. Tied o (record g { manager = ingest g.manager i bytes }))
          (ap (λ x. out ++ x) (sym (append-nil (if i == address then bytes else []))))
          (put-Tied out g i bytes (i == address) v
            (unfold ingest in update-get g.manager i address _ v.later v.found))
    step-Tied out g (ends_at i) v = same-Tied out _ (
        ended-Tied out g i (i == address) v
          (unfold ingest_end in update-get g.manager i address _ v.later v.found))
    step-Tied out g (creates id token ssh) v = same-Tied out _ (
        kept-Tied out g _ v.later v
          (get_elem?-append_left g.manager.heap _ address
              (get_elem?-lt g.manager.heap address v.later v.found)
            ∙ v.found)
          refl (λ x. x))
    step-Tied out g (removes id) v =
        same-Tied out _ (kept-Tied out g _ v.later v v.found refl (λ x. x))

    put_out-cons :
        (a : Act f now env) (acts : List (Act f now env))
        → more a ++ put_out f now env address acts ≡ put_out f now env address (a ∷ acts)
    put_out-cons (takes _ _) acts = refl
    put_out-cons (attaches _ _ _) acts = refl
    put_out-cons (puts_out i bytes) acts =
        ap (λ x. x ++ put_out f now env address acts)
          (append-nil (if i == address then bytes else []))
    put_out-cons (ends_at _) acts = refl
    put_out-cons (creates _ _ _) acts = refl
    put_out-cons (removes _) acts = refl

    pub run-Tied :
        (out : Bytes) (acts : List (Act f now env)) (g : Connections f now env)
        → Tied out g
        → Tied (out ++ put_out f now env address acts) (run f now env acts g)
    unfolding run
    run-Tied out [] g v = same-Tied out g v
    run-Tied out (a ∷ acts) g v =
        subst (λ o. Tied o (run f now env acts (step f now env g a)))
          (append_assoc out (more a) (put_out f now env address acts)
            ∙ ap (λ x. out ++ x) (put_out-cons a acts))
          (run-Tied (out ++ more a) acts (step f now env g a) (step-Tied out g a v))
