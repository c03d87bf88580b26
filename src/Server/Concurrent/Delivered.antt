-- ===== src/Server/Concurrent/Delivered.antt =====
-- The output of a session at every client that is attached to it.
use mathlib.Core.List.{Sublist}
use tty_gateway.Base.{
  ℕ, ◌^◌, ◌≤◌, ◌<◌, ◌≡◌, ◌∙◌, refl, subst, append-nil, sym, ap, ◌⊎◌, inl, inr, some, List, [], ◌++◌,
  Bytes, length, arith, get_elem?, take, leb, Bool-cases, ltb, length-take, take-take,
}
use tty_gateway.Core.Scrollback.{Holds}
use tty_gateway.Core.Registry.{SessionManager, Session}
use tty_gateway.Core.Registry.Evolves.{Grew, same, output_of}
use tty_gateway.Quota.Float.{Float}
use tty_gateway.Server.Conn.{Env}
use tty_gateway.Server.Rely.{IsFair}
use tty_gateway.Server.Serve.{Serving}
use tty_gateway.Server.Serve.Output.{outputs, held, Reads}
use tty_gateway.Server.Concurrent.{Connections, Act, run}
use tty_gateway.Server.Concurrent.Tied.{put_out, IsQuiet, quiet-IsFair, run-Tied}
use tty_gateway.Server.Concurrent.Invariant.{Attached, Invariant, run-Invariant, All-get}

-- One of the two is a beginning of the other.
abbrev pub Beginnings : Bytes → Bytes → Type 0
Beginnings x y = (x ≡ take (length x) y) ⊎ (y ≡ take (length y) x)

take-Beginning :
    (m n : ℕ) (x : Bytes) → m ≤ n → n ≤ length x → take m x ≡ take (length (take m x)) (take n x)
take-Beginning m n x le short =
    sym (take-take m n x le) ∙ ap (λ k. take k (take n x)) (omega (arith, length-take m x))

taken-Beginnings :
    (m n : ℕ) (x : Bytes) → m ≤ length x → n ≤ length x → Beginnings (take m x) (take n x)
taken-Beginnings m n x p q = elim (Bool-cases (leb m n)) [
  | inl le ↦ inl (take-Beginning m n x (ground (arith, le)) q)
  | inr gt ↦ inr (take-Beginning n m x (ground (arith, gt)) p)
]

-- Where the bounds fail, or what holds within them.
fits-cases :
    (max : ℕ) (h : Bytes) (A : Type 0)
    → (length h ≤ max → length h < 2 ^ 64 → A)
    → (max < length h) ⊎ ((2 ^ 64 ≤ length h) ⊎ A)
fits-cases max h A k = elim (Bool-cases (leb (length h) max)) [
  | inl small ↦ elim (Bool-cases (ltb (length h) (2 ^ 64))) [
    | inl fits ↦ inr (inr (k (ground (arith, small)) (ground (arith, fits))))
    | inr wraps ↦ inr (inl (ground (arith, wraps)))
  ]
  | inr large ↦ inl (ground (arith, large))
]

module _ {W Tx H C K P : Type 0} (f : Float) (now : W → ℕ) (env : Env W Tx H C K P)
    (fair : IsFair env) where
  abbrev Served : Type 0
  Served = Serving f now env

  -- The session in `g`, and what is known of its output while that fits.
  pub record Output (h : Bytes) (address : ℕ) (session : Session Tx) (g : Connections f now env)
      (Known : Bytes → Type 0) : Type 0 where
    pub later : Session Tx
    pub found : get_elem? g.manager.heap address ≡ some later
    pub grew : Grew session.inner later.inner
    pub known :
        (session.inner.max_bytes < length (h ++ output_of grew))
        ⊎ ((2 ^ 64 ≤ length (h ++ output_of grew)) ⊎ Known (h ++ output_of grew))

  module _ (h : Bytes) (address : ℕ) (session : Session Tx) (holds : Holds h session.inner)
      (acts : List (Act f now env)) (m : SessionManager Tx)
      (found : get_elem? m.heap address ≡ some session) where
    abbrev end : Connections f now env
    end = run f now env acts (record { manager = m; served = [] })

    at_end : Invariant f now env fair h address session holds end
    at_end =
        run-Invariant f now env fair h address session holds acts
          (record { manager = m; served = [] })
          (record { later = session; found = found; grew = same; clients = tt })

    at_end-Reads :
        (i : ℕ) (s : Served)
        → get_elem? end.served i ≡ some s
        → s.session ≡ address
        → length (h ++ output_of at_end.grew) < 2 ^ 64
        → Reads f now env session.inner.max_bytes (h ++ output_of at_end.grew) s
    at_end-Reads i s e at fits =
        (All-get (Attached f now env fair h address session holds (output_of at_end.grew))
            end.served i s e at_end.clients at).reads
          fits

  -- Clients that are served at the same time. Whatever order the tasks of all connections, the ingest
  -- tasks and the beginning and removal of sessions come in: what a client that is attached to a session
  -- was sent of it, with the chunk that its sender holds back, is exactly the output of the session up
  -- to that client's cursor, as long as the session's whole output fits the scrollback (and a u64), and
  -- what is done to the manager during a wait leaves the sessions as they are but for more output.
  pub run-Output :
      (h : Bytes) (address : ℕ) (session : Session Tx)
      → Holds h session.inner
      → (acts : List (Act f now env)) (m : SessionManager Tx)
      → get_elem? m.heap address ≡ some session
      → (i : ℕ) (s : Served)
      → get_elem? (run f now env acts (record { manager = m; served = [] })).served i ≡ some s
      → s.session ≡ address
      → Output h address session
          (run f now env acts (record { manager = m; served = [] }))
          (λ all. outputs s.conn.log ++ held s.sending ≡ take s.reader.cursor all)
  run-Output h address session holds acts m found i s e at =
      let v = at_end h address session holds acts m found in
      record {
        later = v.later;
        found = v.found;
        grew = v.grew;
        known = fits-cases session.inner.max_bytes (h ++ output_of v.grew) _ (λ small fits.
            (at_end-Reads h address session holds acts m found i s e at fits).exact small);
      }

  -- Two clients of one session, at whatever moment each has attached, have been sent the same: of what
  -- they were sent, with the chunks that are held back, the one is a beginning of the other, as long as
  -- the session's whole output fits the scrollback (and a u64), and what is done to the manager during
  -- a wait leaves the sessions as they are but for more output.
  pub clients_agree :
      (h : Bytes) (address : ℕ) (session : Session Tx)
      → Holds h session.inner
      → (acts : List (Act f now env)) (m : SessionManager Tx)
      → get_elem? m.heap address ≡ some session
      → (i : ℕ) (s : Served)
      → get_elem? (run f now env acts (record { manager = m; served = [] })).served i ≡ some s
      → s.session ≡ address
      → (j : ℕ) (t : Served)
      → get_elem? (run f now env acts (record { manager = m; served = [] })).served j ≡ some t
      → t.session ≡ address
      → Output h address session (run f now env acts (record { manager = m; served = [] })) (λ all.
        Beginnings (outputs s.conn.log ++ held s.sending) (outputs t.conn.log ++ held t.sending))
  clients_agree h address session holds acts m found i s e at j t g there =
      let v = at_end h address session holds acts m found in
      record {
        later = v.later;
        found = v.found;
        grew = v.grew;
        known = fits-cases session.inner.max_bytes (h ++ output_of v.grew) _ (λ small fits.
            let a = at_end-Reads h address session holds acts m found i s e at fits in
            let b = at_end-Reads h address session holds acts m found j t g there fits in
            rw (a.exact small, b.exact small)
              (taken-Beginnings s.reader.cursor t.reader.cursor (h ++ output_of v.grew) a.behind
                b.behind));
      }

module _ {W Tx H C K P : Type 0} (f : Float) (now : W → ℕ) (env : Env W Tx H C K P)
    (calm : IsQuiet env) where
  -- Also when the scrollback is exceeded: what a client that is attached to a session was sent of it, with
  -- the chunk that its sender holds back, is a subsequence of the output up to that client's cursor, in
  -- whatever order all of them act: bytes may be missing, but none is repeated, made up or out of order.
  -- The output is what the session had put out before and what the acts put out, in order, fewer than
  -- 2 ^ 64 bytes. What is done to the manager is an act of its own, and a wait by itself leaves it alone.
  pub run-InOrder :
      (h : Bytes) (address : ℕ) (session : Session Tx)
      → Holds h session.inner
      → (acts : List (Act f now env)) (m : SessionManager Tx)
      → get_elem? m.heap address ≡ some session
      → (i : ℕ) (s : Serving f now env)
      → get_elem? (run f now env acts (record { manager = m; served = [] })).served i ≡ some s
      → s.session ≡ address
      → length (h ++ put_out f now env address acts) < 2 ^ 64
      → Sublist
          (outputs s.conn.log ++ held s.sending)
          (take s.reader.cursor (h ++ put_out f now env address acts))
  run-InOrder h address session holds acts m found i s e at fits =
      let start : Connections f now env = record { manager = m; served = [] } in
      let v = run-Tied f now env calm h address session holds [] acts start (record {
        later = session;
        found = found;
        same_max = refl;
        holds = λ _. subst (λ x. Holds x session.inner) (sym (append-nil h)) holds;
        clients = tt;
      }) in
      ((All-get
          (Attached f now env (quiet-IsFair f now env calm) h address session holds
            (put_out f now env address acts))
          (run f now env acts start).served i s e v.clients at).reads
        fits).part
