-- ===== src/Core/Reader/Delivery/Exact.antt =====
-- While the output fits the scrollback a reader misses nothing and repeats nothing.
use tty_gateway.Base.{
  ℕ, suc, min, ◌+◌, ◌-◌, ◌^◌, ◌≤◌, ◌<◌, ◌≡◌, ◌∙◌, refl, sym, ap, List, [], ◌∷◌, append-nil, arith,
  length, take, take-append-drop, take-append_le, take-length,
}
use tty_gateway.Core.Reader.{poll-answer}
use tty_gateway.Core.Reader.Delivery.{
  Life, Event, output, ended, attach, next, step, run, start, total, Follows, start-Follows,
  step-Follows, max_bytes-step, length-history_step, run_induction, total-cons,
}

-- The client has exactly the output up to its cursor.
pub record IsExact (max_bytes : ℕ) (l : Life) : Type 0 where
  pub follows : Follows l
  pub bound : l.inner.max_bytes ≡ max_bytes
  pub same : l.received ≡ take l.cursor l.history

next_same :
    {m : ℕ} (l : Life) → IsExact m l → length l.history ≤ m → (step l next).received ≡ l.history
unfolding step
next_same l v fits = ground (
  arith,
  v.same,
  v.bound,
  v.follows.behind,
  poll-answer l.cursor v.follows.holds v.follows.behind,
  take-append-drop l.cursor l.history,
  append-nil l.received,
  take-length l.history,
)

step-same :
    {m : ℕ} (l : Life) (e : Event)
    → IsExact m l
    → length l.history ≤ m
    → (step l e).received ≡ take (step l e).cursor (step l e).history
unfolding step
step-same l (output bytes) v fits =
    v.same ∙ sym (take-append_le l.cursor l.history bytes v.follows.behind)
step-same l ended v fits = v.same
step-same l attach v fits = refl
step-same l next v fits =
    next_same l v fits
    ∙ sym (take-length l.history)
    ∙ ap (λ k. take k l.history)
        (ground
          (arith, v.bound, v.follows.behind, poll-answer l.cursor v.follows.holds v.follows.behind))

step-IsExact :
    {m : ℕ} (l : Life) (e : Event)
    → length l.history + total (e ∷ []) < suc m
    → length l.history + total (e ∷ []) < 2 ^ 64
    → IsExact m l
    → IsExact m (step l e)
step-IsExact l e room small v = record {
  follows = step-Follows e v.follows small;
  bound = max_bytes-step l e ∙ v.bound;
  same = step-same l e v (omega arith);
}

run-IsExact :
    (max_bytes : ℕ) (es : List Event)
    → total es ≤ max_bytes
    → total es < 2 ^ 64
    → IsExact max_bytes (run (start max_bytes) es)
run-IsExact m es fits small =
    run_induction (suc (min m (2 ^ 64 - 1)))
      (λ l e room v. step-IsExact {m = m} l e (omega arith) (omega arith) v) (start m) es
      (omega arith) (record { follows = start-Follows m; bound = refl; same = refl })

length-history_run :
    (l : Life) (es : List Event) → length (run l es).history ≡ length l.history + total es
unfolding run
length-history_run l [] = omega arith
length-history_run l (e ∷ es) =
    omega (arith, length-history_run (step l e) es, length-history_step l e, total-cons e es)

-- As long as the session's whole output is at most `max_bytes` (and fewer than 2 ^ 64) bytes, then
-- whenever `next` returns, whatever came before in whatever order, the client has received exactly
-- the session's whole output: no byte lost, repeated or out of order.
pub next_delivers_all :
    (max_bytes : ℕ) (es : List Event)
    → total es ≤ max_bytes
    → total es < 2 ^ 64
    → (step (run (start max_bytes) es) next).received ≡ (run (start max_bytes) es).history
next_delivers_all m es fits small =
    next_same (run (start m) es) (run-IsExact m es fits small)
      (omega (arith, length-history_run (start m) es))
