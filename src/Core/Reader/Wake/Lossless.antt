-- ===== src/Core/Reader/Wake/Lossless.antt =====
-- No notification is lost between the check of a reader and its wait.
use tty_gateway.Base.{
  ℕ, ◌≡◌, ◌≢◌, refl, sym, ap, ap₂, subst, ◌∙◌, ◌⊎◌, inl, inr, Bool, true, false, List, [], ◌∷◌,
  arith, Bool-cases,
}
use tty_gateway.Core.Scrollback.{SessionInner, append, close}
use tty_gateway.Core.Reader.{
  Polled, chunk, finished, waiting, panicked, poll, poll_from, slice_from,
}
use tty_gateway.Core.Reader.Wake.{
  Notify, IsReliable, Place, resting, looping, checking, awaiting, returned, System, Turn, reader,
  output, ended, notifies, other_notified, other_enables, checked, renewed, reader_turn,
  ingest_turn, take_turn, run, start,
}

-- A check that comes to waiting moves the cursor to where another check comes to waiting too.
poll_again :
    (cursor : ℕ) (s : SessionInner)
    → (poll cursor s).0 ≡ waiting
    → (poll (poll cursor s).1 s).0 ≡ waiting
unfolding poll poll_from slice_from
poll_again cursor s e = ground arith

module _ {N F : Type 0} (q : Notify N F) (reliable : IsReliable q) where
  -- What holds at each place of the reader: a future past `enable` is armed, and one that is awaited
  -- is woken, or will be by the ingest task, if a check would now come to something.
  abbrev At : SessionInner → ℕ → N → Bool → Place q → Type 0
  At inner cursor n owes (checking f) = q.armed f n ≡ true
  At inner cursor n owes (awaiting f) =
      (q.armed f n ≡ true)
      × ((q.woken f n ≡ true) ⊎ ((owes ≡ true) ⊎ ((poll cursor inner).0 ≡ waiting)))
  At inner cursor n owes _ = Unit {0}

  pub record IsAlert (s : System q) : Type 0 where
    pub at : At s.inner s.cursor s.notify s.owes s.place

  -- Changes that keep what holds at a place.
  kept :
      (inner : SessionInner) (cursor : ℕ) (n n' : N) (owes : Bool) (place : Place q)
      → ((f : F) → q.armed f n ≡ true → q.armed f n' ≡ true)
      → ((f : F) → q.woken f n ≡ true → q.woken f n' ≡ true)
      → At inner cursor n owes place
      → At inner cursor n' owes place
  kept inner cursor n n' owes resting a w h = tt
  kept inner cursor n n' owes (looping f) a w h = tt
  kept inner cursor n n' owes (checking f) a w h = a f h
  kept inner cursor n n' owes (awaiting f) a w (armed, inl woken) = (a f armed, inl (w f woken))
  kept inner cursor n n' owes (awaiting f) a w (armed, inr rest) = (a f armed, inr rest)
  kept inner cursor n n' owes (returned p) a w h = tt

  owed :
      (inner inner' : SessionInner) (cursor : ℕ) (n : N) (owes : Bool) (place : Place q)
      → At inner cursor n owes place
      → At inner' cursor n true place
  owed inner inner' cursor n owes resting h = tt
  owed inner inner' cursor n owes (looping f) h = tt
  owed inner inner' cursor n owes (checking f) h = h
  owed inner inner' cursor n owes (awaiting f) (armed, _) = (armed, inr (inl refl))
  owed inner inner' cursor n owes (returned p) h = tt

  notified_all :
      (inner : SessionInner) (cursor : ℕ) (n : N) (owes : Bool) (place : Place q)
      → At inner cursor n owes place
      → At inner cursor (q.notify_waiters n) false place
  notified_all inner cursor n owes resting h = tt
  notified_all inner cursor n owes (looping f) h = tt
  notified_all inner cursor n owes (checking f) h = reliable.armed-notify f n h
  notified_all inner cursor n owes (awaiting f) (armed, _) =
      (reliable.armed-notify f n armed, inl (reliable.wakes f n armed))
  notified_all inner cursor n owes (returned p) h = tt

  checked-IsAlert :
      (s : System q) (f : F) (p : Polled) (cursor : ℕ)
      → q.armed f s.notify ≡ true
      → (p ≡ waiting → (poll cursor s.inner).0 ≡ waiting)
      → IsAlert (checked q s f (p, cursor))
  unfolding checked
  checked-IsAlert s f waiting cursor armed again = record { at = (armed, inr (inr (again refl))) }
  checked-IsAlert s f (chunk _) cursor armed again = record { at = tt }
  checked-IsAlert s f finished cursor armed again = record { at = tt }
  checked-IsAlert s f panicked cursor armed again = record { at = tt }

  renewed-IsAlert : (s : System q) → IsAlert (renewed q s)
  unfolding renewed
  renewed-IsAlert s = record { at = tt }

  reader_turn-IsAlert :
      (s : System q) (place : Place q)
      → s.place ≡ place
      → At s.inner s.cursor s.notify s.owes place
      → IsAlert (reader_turn q s place)
  unfolding reader_turn
  reader_turn-IsAlert s resting e h = renewed-IsAlert s
  reader_turn-IsAlert s (looping f) e h = record { at = reliable.enabled f s.notify }
  reader_turn-IsAlert s (checking f) e h =
      checked-IsAlert s f (poll s.cursor s.inner).0 (poll s.cursor s.inner).1 h
        (poll_again s.cursor s.inner)
  reader_turn-IsAlert s (awaiting f) e h = elim (Bool-cases (q.woken f s.notify)) [
    | inl woken ↦ rw woken (renewed-IsAlert s)
    | inr asleep ↦ rw asleep (record { at = rw e h })
  ]
  reader_turn-IsAlert s (returned p) e h = record { at = tt }

  ingest_turn-IsAlert :
      (s : System q) (owes closed : Bool) (inner : SessionInner)
      → IsAlert s
      → IsAlert (ingest_turn q s owes closed inner)
  unfolding ingest_turn
  ingest_turn-IsAlert s false false inner h = record {
    at = owed s.inner inner s.cursor s.notify s.owes s.place h.at;
  }
  ingest_turn-IsAlert s false true inner h = h
  ingest_turn-IsAlert s true closed inner h = h

  take_turn-IsAlert : (t : Turn q) (s : System q) → IsAlert s → IsAlert (take_turn q t s)
  unfolding take_turn
  take_turn-IsAlert reader s h = reader_turn-IsAlert s s.place refl h.at
  take_turn-IsAlert (output bytes) s h =
      ingest_turn-IsAlert s s.owes s.inner.closed (append s.inner bytes) h
  take_turn-IsAlert ended s h = ingest_turn-IsAlert s s.owes s.inner.closed (close s.inner) h
  take_turn-IsAlert notifies s h = elim (Bool-cases s.owes) [
    | inl owes ↦
        rw owes (record { at = notified_all s.inner s.cursor s.notify s.owes s.place h.at })
    | inr not_owed ↦ simp not_owed h
  ]
  take_turn-IsAlert other_notified s h = record {
    at =
        kept s.inner s.cursor s.notify (q.notified s.notify).1 s.owes s.place
          (λ f. reliable.armed-notified f s.notify) (λ f. reliable.woken-notified f s.notify) h.at;
  }
  take_turn-IsAlert (other_enables g) s h = record {
    at =
        kept s.inner s.cursor s.notify (q.enable g s.notify) s.owes s.place
          (λ f. reliable.armed-enable f g s.notify) (λ f. reliable.woken-enable f g s.notify) h.at;
  }

  run-IsAlert : (ts : List (Turn q)) (s : System q) → IsAlert s → IsAlert (run q ts s)
  unfolding run
  run-IsAlert [] s h = h
  run-IsAlert (t ∷ ts) s h = run-IsAlert ts (take_turn q t s) (take_turn-IsAlert t s h)

  start-IsAlert : (max_bytes : ℕ) (n : N) → IsAlert (start q max_bytes n)
  start-IsAlert max_bytes n = record { at = tt }

  -- What a reader that was woken does in its next three turns.
  checked-returned :
      (s : System q) (f : F) (p : Polled) (cursor : ℕ)
      → p ≢ waiting
      → (checked q s f (p, cursor)).place ≡ returned p
  unfolding checked
  checked-returned s f waiting cursor h = absurd (h refl)
  checked-returned s f (chunk _) cursor h = refl
  checked-returned s f finished cursor h = refl
  checked-returned s f panicked cursor h = refl

  woken_returns :
      (s : System q) (f : F)
      → s.place ≡ awaiting f
      → q.woken f s.notify ≡ true
      → (poll s.cursor s.inner).0 ≢ waiting
      → (run q (reader ∷ reader ∷ reader ∷ []) s).place ≡ returned (poll s.cursor s.inner).0
  unfolding run take_turn reader_turn renewed
  woken_returns s f e woken more =
      let (g, n) = q.notified s.notify in
      simp (e, woken)
        (checked-returned (record s { place = checking g; notify = q.enable g n }) g
          (poll s.cursor s.inner).0 (poll s.cursor s.inner).1 more)

  awaited :
      (s : System q) (f : F) (place : Place q)
      → place ≡ awaiting f
      → At s.inner s.cursor s.notify s.owes place
      → (q.armed f s.notify ≡ true)
        × ((q.woken f s.notify ≡ true) ⊎ ((s.owes ≡ true) ⊎ ((poll s.cursor s.inner).0 ≡ waiting)))
  awaited s f place e h = subst (At s.inner s.cursor s.notify s.owes) e h

  woken_by :
      (s : System q) (f : F)
      → (q.armed f s.notify ≡ true)
        × ((q.woken f s.notify ≡ true) ⊎ ((s.owes ≡ true) ⊎ ((poll s.cursor s.inner).0 ≡ waiting)))
      → (poll s.cursor s.inner).0 ≢ waiting
      → q.woken f (take_turn q notifies s).notify ≡ true
  unfolding take_turn
  woken_by s f (armed, why) more = elim (Bool-cases s.owes) [
    | inl owes ↦ simp owes (reliable.wakes f s.notify armed)
    | inr paid ↦
        simp paid
          (elim why [ inl woken ↦ woken | inr (inl owes) ↦ cc | inr (inr w) ↦ absurd (more w) ])
  ]

  notifies_only :
      (s : System q)
      → let t = take_turn q notifies s in
        (t.place ≡ s.place) × (t.cursor ≡ s.cursor) × (t.inner ≡ s.inner)
  unfolding take_turn
  notifies_only s = ground arith

  -- A reader never sleeps through output. Whatever the turns so far, if a reader waits in `next` though
  -- there is output for it, or the session has ended, then once the ingest task has made the
  -- notification that it may still owe, the next three turns of the reader make `next` return what the
  -- lock shows.
  pub next_wakes :
      (max_bytes : ℕ) (n : N) (ts : List (Turn q)) (f : F)
      → (run q ts (start q max_bytes n)).place ≡ awaiting f
      → (let s = run q ts (start q max_bytes n) in (poll s.cursor s.inner).0 ≢ waiting)
      → (let s = run q ts (start q max_bytes n) in
          (run q (notifies ∷ reader ∷ reader ∷ reader ∷ []) s).place
          ≡ returned (poll s.cursor s.inner).0)
  next_wakes max_bytes n ts f e more =
      let s = run q ts (start q max_bytes n) in
      let alert = run-IsAlert ts (start q max_bytes n) (start-IsAlert max_bytes n) in
      let t = take_turn q notifies s in
      let (place, cursor, inner) = notifies_only s in
      let woken = woken_by s f (awaited s f s.place e alert.at) more in
      let same : poll t.cursor t.inner ≡ poll s.cursor s.inner = ap₂ poll cursor inner in
      unfold run in
      woken_returns t f (place ∙ e) woken (λ w. more (sym (ap (λ x. x.0) same) ∙ w))
      ∙ ap (λ x. returned x.0) same
