-- ===== src/Core/Reader/Wake.antt =====
-- How a `SessionReader` of crates/gw-core/src/lib.rs that waits in `next` is woken by `spawn_ingest`.
-- `Notify` is tokio's: its calls and what their documentation promises are a parameter. The reader, the
-- ingest task and the other readers of the session take turns; a turn ends before the next access to
-- what they share, so that the check under the lock and the wait are two turns of the reader, and the
-- append and the notification are two turns of the ingest task.
pub mod Lossless
pub mod Flags
use tty_gateway.Base.{
  ℕ, ◌≡◌, Bool, true, false, Option, none, some, List, [], ◌∷◌, Bytes, if◌then◌else◌,
}
use tty_gateway.Core.Scrollback.{SessionInner, fresh, append, close}
use tty_gateway.Core.Reader.{Polled, chunk, finished, waiting, panicked, poll}

-- `N` is a `Notify` with all its `Notified` futures, which `F` names.
pub record Notify (N F : Type 0) : Type 0 where
  pub notified : N → F × N
  pub enable : F → N → N
  pub notify_waiters : N → N
  -- the future is registered to be woken, or has been woken
  pub armed : F → N → Bool
  -- awaiting the future returns
  pub woken : F → N → Bool

-- What is documented of them: an enabled future receives the next `notify_waiters`, and what is done
-- to other futures takes nothing away.
pub record IsReliable {N F : Type 0} (q : Notify N F) : Type 0 where
  pub enabled : (f : F) (n : N) → q.armed f (q.enable f n) ≡ true
  pub wakes : (f : F) (n : N) → q.armed f n ≡ true → q.woken f (q.notify_waiters n) ≡ true
  pub armed-notified : (f : F) (n : N) → q.armed f n ≡ true → q.armed f (q.notified n).1 ≡ true
  pub armed-enable : (f g : F) (n : N) → q.armed f n ≡ true → q.armed f (q.enable g n) ≡ true
  pub armed-notify : (f : F) (n : N) → q.armed f n ≡ true → q.armed f (q.notify_waiters n) ≡ true
  pub woken-notified : (f : F) (n : N) → q.woken f n ≡ true → q.woken f (q.notified n).1 ≡ true
  pub woken-enable : (f g : F) (n : N) → q.woken f n ≡ true → q.woken f (q.enable g n) ≡ true

module _ {N F : Type 0} (q : Notify N F) where
  -- Where the reader is in `next`.
  pub data Place : Type 0 where
    -- before a call
    resting : Place
    -- at the top of the loop, with the future
    looping : F → Place
    -- before the lock
    checking : F → Place
    -- at `notified.as_mut().await`
    awaiting : F → Place
    -- after a call, with its result
    returned : Polled → Place

  pub record System : Type 0 where
    pub inner : SessionInner
    pub cursor : ℕ
    pub place : Place
    pub notify : N
    -- the ingest task has changed `inner`, and is about to call `notify_waiters`
    pub owes : Bool

  pub data Turn : Type 0 where
    reader : Turn
    -- a message of the output channel, and its end
    output : Bytes → Turn
    ended : Turn
    -- the ingest task's `notify_waiters`
    notifies : Turn
    -- another reader of the session in its call of `next`
    other_notified : Turn
    other_enables : F → Turn

  -- What the block under the lock comes to.
  checked : System → F → Polled × ℕ → System
  checked s f (waiting, cursor) = record s { place = awaiting f; cursor = cursor }
  checked s f (chunk bytes, cursor) = record s { place = returned (chunk bytes); cursor = cursor }
  checked s f (finished, cursor) = record s { place = returned finished; cursor = cursor }
  checked s f (panicked, cursor) = record s { place = returned panicked; cursor = cursor }

  -- `self.session.notify.notified()`, before the loop and at its end.
  renewed : System → System
  renewed s = let (f, n) = q.notified s.notify in record s { place = looping f; notify = n }

  reader_turn : System → Place → System
  unfolding checked renewed
  reader_turn s resting = renewed s
  reader_turn s (looping f) = record s { place = checking f; notify = q.enable f s.notify }
  reader_turn s (checking f) = checked s f (poll s.cursor s.inner)
  reader_turn s (awaiting f) = if q.woken f s.notify then renewed s else s
  reader_turn s (returned _) = record s { place = resting }

  -- The ingest task takes no message while it owes a notification, nor after the end.
  ingest_turn : System → Bool → Bool → SessionInner → System
  ingest_turn s false false inner = record s { inner = inner; owes = true }
  ingest_turn s _ _ inner = s

  unfoldable pub take_turn : Turn → System → System
  unfolding reader_turn ingest_turn
  take_turn reader s = reader_turn s s.place
  take_turn (output bytes) s = ingest_turn s s.owes s.inner.closed (append s.inner bytes)
  take_turn ended s = ingest_turn s s.owes s.inner.closed (close s.inner)
  take_turn notifies s =
      if s.owes then record s { notify = q.notify_waiters s.notify; owes = false } else s
  take_turn other_notified s = record s { notify = (q.notified s.notify).1 }
  take_turn (other_enables f) s = record s { notify = q.enable f s.notify }

  unfoldable pub run : List Turn → System → System
  unfolding take_turn
  run [] s = s
  run (t ∷ ts) s = run ts (take_turn t s)

  -- A reader of a session that was just spawned.
  abbrev pub start : ℕ → N → System
  start max_bytes n = record {
    inner = fresh max_bytes;
    cursor = 0;
    place = resting;
    notify = n;
    owes = false;
  }
