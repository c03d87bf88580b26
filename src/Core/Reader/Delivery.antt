-- ===== src/Core/Reader/Delivery.antt =====
-- What a reader hands to its client over the life of a session: a schedule of output, of the end of
-- the session, of fresh readers and of calls of `next`, in any order.
pub mod Exact
pub mod Lossy
pub mod Chunk
use mathlib.Core.List.{Sublist, sublist-append_right}
use mathlib.Core.List.Sublist
use tty_gateway.Base.{
  ℕ, ◌+◌, ◌-◌, ◌^◌, ◌≤◌, ◌<◌, ◌≡◌, ◌∙◌, refl, sym, ap, inl, inr, Bool, true, false, List, [], ◌∷◌,
  ◌++◌, append-nil, append_assoc, Bytes, arith, ltb, if◌then◌else◌, length, take, drop,
  take-append-drop, length-append, max, Bool-cases, drop-nil,
}
use tty_gateway.Core.Scrollback.{
  SessionInner, Holds, fresh, append, close, fresh-Holds, append-Holds, max_bytes-append,
}
use tty_gateway.Core.Reader.{Polled, chunk, finished, waiting, panicked, poll, answer, poll-answer}

-- One reader of one session. `history` is the whole output so far, and `received` is what `next`
-- returned to this client.
pub record Life : Type 0 where
  pub history : Bytes
  pub inner : SessionInner
  pub cursor : ℕ
  pub received : Bytes

pub data Event : Type 0 where
  -- A message of the SSH actor, taken in by `spawn_ingest`.
  output : Bytes → Event
  -- The actor is gone.
  ended : Event
  -- A client that attaches gets `session.reader()`.
  attach : Event
  -- One pass through the loop of `next`.
  next : Event

abbrev pub payload : Polled → Bytes
payload (chunk bytes) = bytes
payload _ = []

abbrev pub read : Life → Polled × ℕ → Life
read l (p, cursor) = record l { cursor = cursor; received = l.received ++ payload p }

unfoldable pub step : Life → Event → Life
step l (output bytes) = record l { history = l.history ++ bytes; inner = append l.inner bytes }
step l ended = record l { inner = close l.inner }
step l attach = record l { cursor = 0; received = [] }
step l next = read l (poll l.cursor l.inner)

unfoldable pub run : Life → List Event → Life
run l [] = l
run l (e ∷ es) = run (step l e) es

abbrev pub start : ℕ → Life
start max_bytes = record { history = []; inner = fresh max_bytes; cursor = 0; received = [] }

-- The bytes that a schedule feeds into the session.
abbrev pub total : List Event → ℕ
total [] = 0
total (output bytes ∷ es) = length bytes + total es
total (_ ∷ es) = total es

-- The state of the session and of the reader belong together.
pub record Follows (l : Life) : Type 0 where
  pub holds : Holds l.history l.inner
  pub behind : l.cursor ≤ length l.history

start-Follows : (max_bytes : ℕ) → Follows (start max_bytes)
start-Follows m = record { holds = fresh-Holds m; behind = omega arith }

step-Follows :
    {l : Life} (e : Event)
    → Follows l
    → length l.history + total (e ∷ []) < 2 ^ 64
    → Follows (step l e)
unfolding step
step-Follows {l} (output bytes) v fits = record {
  holds = append-Holds bytes v.holds (omega (arith, length-append l.history bytes));
  behind = omega (arith, length-append l.history bytes, v.behind);
}
step-Follows ended v fits = record {
  holds = record {
    window = v.holds.window;
    start = v.holds.start;
    stop = v.holds.stop;
    small = v.holds.small;
  };
  behind = v.behind;
}
step-Follows attach v fits = record { holds = v.holds; behind = omega arith }
step-Follows {l} next v fits = record {
  holds = v.holds;
  behind = ground (arith, poll-answer l.cursor v.holds v.behind, v.behind);
}

pub total-cons : (e : Event) (es : List Event) → total (e ∷ es) ≡ total (e ∷ []) + total es
total-cons (output bytes) es = omega arith
total-cons ended es = omega arith
total-cons attach es = omega arith
total-cons next es = omega arith

pub length-history_step :
    (l : Life) (e : Event) → length (step l e).history ≡ length l.history + total (e ∷ [])
unfolding step
length-history_step l (output bytes) = omega (arith, length-append l.history bytes)
length-history_step l ended = omega arith
length-history_step l attach = omega arith
length-history_step l next = omega arith

pub max_bytes-step : (l : Life) (e : Event) → (step l e).inner.max_bytes ≡ l.inner.max_bytes
unfolding step
max_bytes-step l (output bytes) = max_bytes-append l.inner bytes
max_bytes-step l ended = refl
max_bytes-step l attach = refl
max_bytes-step l next = refl

-- An invariant that every step keeps while fewer than `limit` bytes have come holds after a run.
module _ {P : Life → Type 0} (limit : ℕ)
    (keep : (l : Life) (e : Event)
      → length l.history + total (e ∷ []) < limit
      → P l
      → P (step l e)) where
  pub run_induction :
      (l : Life) (es : List Event) → length l.history + total es < limit → P l → P (run l es)
  unfolding run
  run_induction l [] fits p = p
  run_induction l (e ∷ es) fits p =
      run_induction (step l e) es (omega (arith, length-history_step l e, total-cons e es))
        (keep l e (omega (arith, total-cons e es)) p)

-- After any schedule of fewer than 2 ^ 64 bytes the scrollback is the last `max_bytes` bytes of the
-- session's output, its offsets are exact, and the reader is not ahead of the output.
pub run-Follows :
    (max_bytes : ℕ) (es : List Event) → total es < 2 ^ 64 → Follows (run (start max_bytes) es)
run-Follows m es fits =
    run_induction (2 ^ 64) (λ l e room v. step-Follows e v room) (start m) es (omega arith)
      (start-Follows m)

pub max_bytes-run : (l : Life) (es : List Event) → (run l es).inner.max_bytes ≡ l.inner.max_bytes
unfolding run
max_bytes-run l [] = refl
max_bytes-run l (e ∷ es) = max_bytes-run (step l e) es ∙ max_bytes-step l e
