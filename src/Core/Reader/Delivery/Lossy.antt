-- ===== src/Core/Reader/Delivery/Lossy.antt =====
-- Whatever the output's length: what a reader receives, and how it learns of the end.
use mathlib.Core.List.{Sublist, sublist-append_right, sublist-append_left}
use mathlib.Core.List.Sublist
use tty_gateway.Base.{
  ℕ, ◌+◌, ◌-◌, ◌^◌, ◌<◌, ◌≡◌, ◌∙◌, refl, sym, ap, subst, true, List, [], ◌∷◌, ◌++◌, arith, length,
  take, drop, take-append-drop, take-append_le, take-length, drop-drop, drop_all, Bytes, max,
}
use tty_gateway.Core.Reader.{poll, poll-answer, answer, finished}
use tty_gateway.Core.Reader.Delivery.{
  Life, Event, output, ended, attach, next, step, run, start, total, Follows, start-Follows,
  step-Follows, run_induction, run-Follows, max_bytes-run,
}

-- Every pass through `next` leaves the cursor at the end of the output.
cursor-next : (l : Life) → Follows l → (step l next).cursor ≡ length l.history
unfolding step
cursor-next l v = ground (arith, poll-answer l.cursor v.holds v.behind, v.behind)

received-next :
    (l : Life)
    → Follows l
    → (step l next).received
      ≡ l.received ++ drop (max l.cursor (length l.history - l.inner.max_bytes)) l.history
unfolding step
received-next l v = ground (
  arith,
  poll-answer l.cursor v.holds v.behind,
  drop_all (max l.cursor (length l.history - l.inner.max_bytes)) l.history,
)

-- After any schedule of fewer than 2 ^ 64 bytes, a pass through `next` answers as the lifetime
-- output says: with all output after the cursor that the scrollback still holds, if there is any;
-- else with `None` if the session is closed; else it waits. It never slices out of range.
pub next-answer :
    (max_bytes : ℕ) (es : List Event)
    → total es < 2 ^ 64
    → let l = run (start max_bytes) es in poll l.cursor l.inner ≡ answer l.history l.inner l.cursor
next-answer m es fits =
    let v = run-Follows m es fits in poll-answer (run (start m) es).cursor v.holds v.behind

attach-Follows : (l : Life) → Follows l → Follows (step l attach)
unfolding step
attach-Follows l v = record { holds = v.holds; behind = omega arith }

replay_lem :
    (l : Life)
    → Follows l
    → (step (step l attach) next).received ≡ drop (length l.history - l.inner.max_bytes) l.history
replay_lem l v =
    received-next (step l attach) (attach-Follows l v)
    ∙ unfold step in
      ap (λ k. drop k l.history) {x = max 0 (length l.history - l.inner.max_bytes)} (omega arith)

-- After any schedule of fewer than 2 ^ 64 bytes, a client that attaches and calls `next` receives
-- the last `max_bytes` bytes of the session's output, or all of it if it is shorter.
pub replay_after_attach :
    (max_bytes : ℕ) (es : List Event)
    → total es < 2 ^ 64
    → let l = run (start max_bytes) es in
      (step (step l attach) next).received ≡ drop (length l.history - max_bytes) l.history
replay_after_attach m es fits =
    replay_lem (run (start m) es) (run-Follows m es fits)
    ∙ ap (λ k. drop (length (run (start m) es).history - k) (run (start m) es).history)
        (max_bytes-run (start m) es)

drop-sublist : (n : ℕ) (h : Bytes) → Sublist (drop n h) h
drop-sublist n h =
    subst (Sublist (drop n h)) (take-append-drop n h) (sublist-append_right (take n h) (drop n h))

record IsInOrder (l : Life) : Type 0 where
  follows : Follows l
  part : Sublist l.received (take l.cursor l.history)

next-part : (l : Life) → IsInOrder l → Sublist (step l next).received l.history
next-part l v =
    let c : ℕ = l.cursor in
    let from : ℕ = max c (length l.history - l.inner.max_bytes) in
    rw (received-next l v.follows) (
      subst (Sublist (l.received ++ drop from l.history)) (take-append-drop c l.history) (
        Sublist.append v.part (
          subst (λ d. Sublist d (drop c l.history))
            (drop-drop (from - c) c l.history ∙ ap (λ k. drop k l.history) (omega arith))
            (drop-sublist (from - c) (drop c l.history)))))

history-next : (l : Life) → (step l next).history ≡ l.history
unfolding step
history-next l = refl

step-part :
    (l : Life) (e : Event)
    → IsInOrder l
    → Sublist (step l e).received (take (step l e).cursor (step l e).history)
step-part l (output bytes) v =
    unfold step in rw (take-append_le l.cursor l.history bytes v.follows.behind) v.part
step-part l ended v = unfold step in v.part
step-part l attach v = unfold step in Sublist.refl []
step-part l next v =
    rw (cursor-next l v.follows, history-next l, take-length l.history) (next-part l v)

step-IsInOrder :
    (l : Life) (e : Event)
    → length l.history + total (e ∷ []) < 2 ^ 64
    → IsInOrder l
    → IsInOrder (step l e)
step-IsInOrder l e fits v = record {
  follows = step-Follows e v.follows fits;
  part = step-part l e v;
}

take-sublist : (n : ℕ) (h : Bytes) → Sublist (take n h) h
take-sublist n h =
    subst (Sublist (take n h)) (take-append-drop n h) (sublist-append_left (take n h) (drop n h))

-- After any schedule of fewer than 2 ^ 64 bytes, what a client has received since it attached is a
-- subsequence of the session's output: bytes may be missing, but none is repeated, made up or out of
-- order.
pub received_in_order :
    (max_bytes : ℕ) (es : List Event)
    → total es < 2 ^ 64
    → Sublist (run (start max_bytes) es).received (run (start max_bytes) es).history
received_in_order m es fits =
    let l = run (start m) es in
    let v =
      run_induction (2 ^ 64) step-IsInOrder (start m) es (omega arith)
        (record { follows = start-Follows m; part = Sublist.refl [] }) in
    Sublist.trans v.part (take-sublist l.cursor l.history)

closed_at_end :
    (l : Life)
    → Follows l
    → l.inner.closed ≡ true
    → l.cursor ≡ length l.history
    → poll l.cursor l.inner ≡ (finished, l.cursor)
closed_at_end l v closed e = ground (arith, poll-answer l.cursor v.holds v.behind)

-- Once the session has ended, after any schedule of fewer than 2 ^ 64 bytes, one call of `next` is
-- enough to take what is left: the call after it returns `None`, and leaves the reader as it is.
pub next_then_none :
    (max_bytes : ℕ) (es : List Event)
    → total es < 2 ^ 64
    → (run (start max_bytes) es).inner.closed ≡ true
    → let l = step (run (start max_bytes) es) next in poll l.cursor l.inner ≡ (finished, l.cursor)
next_then_none m es fits closed =
    let l = run (start m) es in
    let v = run-Follows m es fits in
    closed_at_end (step l next) (step-Follows next v (omega (arith, v.holds.small)))
      (unfold step in closed) (cursor-next l v ∙ ap length (sym (history-next l)))
