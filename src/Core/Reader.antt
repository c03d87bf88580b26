-- ===== src/Core/Reader.antt =====
-- `SessionReader` of crates/gw-core/src/lib.rs: one client's cursor into a session's output.
pub mod Delivery
pub mod Wake
use tty_gateway.Base.{
  ℕ, ◌+◌, ◌-◌, ◌^◌, ◌≤◌, ◌<◌, ◌≡◌, ap, Bool, true, false, Option, none, some, Bytes, arith, ltb,
  if◌then◌else◌, length, drop, drop-drop, length-drop, max,
}
use tty_gateway.Core.Scrollback.{SessionInner, Holds, length-buf}

pub record SessionReader : Type 0 where
  pub session : ℕ
  pub cursor : ℕ

-- What one pass through the loop of `next` comes to: `Some(chunk)`, `None`, or going on to wait for
-- a notification. `panicked` is the slice `buf[lo..]` out of range.
pub data Polled : Type 0 where
  chunk : Bytes → Polled
  finished waiting panicked : Polled

-- `inner.buf[lo..].to_vec()`
slice_from : ℕ → Bytes → Polled
slice_from lo buf = if ltb (length buf) lo then panicked else chunk (drop lo buf)

-- The block under the lock, with the cursor that it leaves.
unfoldable pub poll_from : ℕ → SessionInner → Polled × ℕ
unfolding slice_from
poll_from cursor s =
    if ltb cursor s.end_offset
    then (slice_from (cursor - s.start_offset) s.buf, s.end_offset)
    else (if s.closed then finished else waiting, cursor)

-- A cursor that points at trimmed bytes first moves up to the oldest byte that is left.
unfoldable pub poll : ℕ → SessionInner → Polled × ℕ
unfolding poll_from
poll cursor s = poll_from (if ltb cursor s.start_offset then s.start_offset else cursor) s

-- The answer to a client that has read up to `cursor`, by the lifetime output alone.
abbrev pub answer : Bytes → SessionInner → ℕ → Polled × ℕ
answer h s cursor =
    let from = max cursor (length h - s.max_bytes) in
    if ltb from (length h)
    then (chunk (drop from h), length h)
    else (if s.closed then finished else waiting, from)

pub poll-answer :
    {h : Bytes} {s : SessionInner} (cursor : ℕ)
    → Holds h s
    → cursor ≤ length h
    → poll cursor s ≡ answer h s cursor
unfolding poll
poll-answer {h} {s} cursor v behind = ground (
  arith,
  v.window,
  length-buf v,
  drop-drop (cursor - s.start_offset) (length h - s.max_bytes) h,
  drop-drop (s.start_offset - s.start_offset) (length h - s.max_bytes) h,
)
