-- ===== src/Server/Serve.antt =====
-- `sender_task`, `throttle`, `receiver_loop` and the end of `handle_connection` of
-- crates/gw-server/src/handler.rs. The two tasks and whoever else runs take turns in any order: a
-- turn is what one of them does up to its next wait.
pub mod Oob
pub mod Usage
pub mod Evolving
pub mod Output
pub mod Input
pub mod Teardown
pub mod Report
pub mod Account
pub mod Throttle
pub mod Tests
use tty_gateway.Base.{
  ℕ, ◌+◌, ◌-◌, ◌*◌, ◌%◌, ◌^◌, ◌≡◌, Bool, true, false, Option, none, some, List, [], ◌∷◌, ◌++◌,
  Bytes, Text, length, get_elem?, decimal, if◌then◌else◌, ltb,
}
use tty_gateway.Base.Results.{Result, ok, err}
use tty_gateway.Proto.Frame.{
  ClientFrame, hello, open_shell, input, resize, sign_response, ping, close, ServerFrame, output,
  pong, ended,
}
use tty_gateway.Core.Registry.{Session, SessionManager, id_of, is_closed, remove, reader}
use tty_gateway.Core.Reader.{SessionReader, Polled, chunk, finished, waiting, panicked, poll}
use tty_gateway.Quota.Float.{Float}
use tty_gateway.Quota.Bucket.{TokenBucket, new, refill, try_consume}
use tty_gateway.Quota.Meter.{UsageMeter, zero_meter, add_in, add_out, totals}
use tty_gateway.Quota.Hook.{Entitlement}
use tty_gateway.Ssh.Client.{SshInput, bytes}
use tty_gateway.Server.Conn.{
  forwarded, closed, reported, Conn, Env, await, call, note, recv, send, tell_session_close,
  tell_usage,
}
use tty_gateway.Server.Negotiate.{Negotiated, negotiate}

abbrev pub bandwidth_burst : ℕ
bandwidth_burst = 2 ^ 20

-- The capacity of the channel of out-of-band frames.
abbrev pub oob_capacity : ℕ
oob_capacity = 16

-- `Outcome`
pub data Outcome : Type 0 where
  client_detached client_closed : Outcome

-- Where the sender task is: in `select!`, in `throttle` with a chunk, or at its end.
pub data Sending : Type 0 where
  selecting : Sending
  throttled : Bytes → Sending
  stopped : Sending

module _ (f : Float) where
  -- A bucket and the time of its last refill, in nanoseconds.
  abbrev pub Limiter : Type 0
  Limiter = Option (TokenBucket f.Num × ℕ)

  unfoldable pub limiter : Entitlement → ℕ → Limiter
  unfolding new
  limiter entitlement now = elim entitlement.max_bytes_per_sec [
    | none ↦ none
    | some rate ↦ some (new f rate bandwidth_burst, now)
  ]

  -- One round of the loop of `throttle` at the time `now`: whether it returns.
  unfoldable pub throttle : Limiter → ℕ → ℕ → Bool × Limiter
  throttle none now amount = (true, none)
  throttle (some (bucket, last)) now amount =
      let (granted, bucket') = try_consume f (refill f bucket (now - last)) amount in
      (granted, some (bucket', now))

module _ {W Tx H C K P : Type 0} (f : Float) (now : W → ℕ) (env : Env W Tx H C K P) where
  -- A connection while it is served.
  pub record Serving : Type 0 where
    pub conn : Conn W Tx
    -- the session's address
    pub session : ℕ
    pub meter : UsageMeter
    -- the frames that the receiver has put into the channel `oob`
    pub oob : List ServerFrame
    pub sending : Sending
    pub reader : SessionReader
    pub limiter : Limiter f
    -- the receiver loop waits for room in `oob` for a `Pong`
    pub owes_pong : Bool
    -- that of the receiver loop, once it has returned
    pub outcome : Option Outcome

  -- `session.send_input`, whose answer the loop drops.
  unfoldable pub send_input : ℕ → SshInput → Conn W Tx → Conn W Tx
  send_input session given c =
      let c' = note (forwarded given) c in
      elim (get_elem? c.manager.heap session) [
        | none ↦ c'
        | some s ↦ (await env Bool (env.send_input s.input given) c').1
      ]

  -- `oob.send(Pong)`: it waits while the channel is full, and fails once the sender task is gone.
  offer_pong : Serving → Sending → Serving
  offer_pong s stopped = record s { owes_pong = false }
  offer_pong s _ =
      if ltb (length s.oob) oob_capacity
      then record s { oob = s.oob ++ (pong ∷ []); owes_pong = false }
      else record s { owes_pong = true }

  -- A frame in the receiver loop.
  unfoldable pub received : Serving → ClientFrame → Serving
  unfolding send_input offer_pong
  received s (input b) = record s {
    meter = add_in s.meter (length b);
    conn = send_input s.session (bytes b) s.conn;
  }
  received s (resize cols rows) = record s {
    conn = send_input s.session (SshInput.resize cols rows) s.conn;
  }
  received s ping = offer_pong s s.sending
  received s close = record s { outcome = some client_closed }
  received s other = s

  receiver_round : Serving → Result Text ClientFrame × Conn W Tx → Serving
  unfolding received
  receiver_round s (ok frame, c) = received (record s { conn = c }) frame
  receiver_round s (err _, c) = record s { conn = c; outcome = some client_detached }

  receiver_turn : Serving → Bool → Option Outcome → Serving
  unfolding receiver_round offer_pong
  receiver_turn s _ (some _) = s
  receiver_turn s true none = offer_pong s s.sending
  receiver_turn s false none = receiver_round s (recv env s.conn)

  after_send : Serving → Result Text (Unit {0}) × Conn W Tx → Serving
  after_send s (ok _, c) = record s { conn = c; sending = selecting }
  after_send s (err _, c) = record s { conn = c; sending = stopped }

  -- `reader.next()` in `select!`: a chunk goes on to `throttle`.
  polled : Serving → Polled × ℕ → Serving
  polled s (chunk b, cursor) = record s {
    sending = throttled b;
    reader = record s.reader { cursor = cursor };
  }
  polled s (finished, cursor) = record s { conn = (send env ended s.conn).1; sending = stopped }
  polled s (waiting, cursor) = record s { reader = record s.reader { cursor = cursor } }
  polled s (panicked, cursor) = record s { sending = stopped }

  -- A round of `throttle`, and what follows it.
  throttle_turn : Serving → Bytes → Serving
  unfolding throttle after_send
  throttle_turn s b =
      let (granted, limiter) = throttle f s.limiter (now s.conn.world) (length b) in
      let s' : Serving = record s { limiter = limiter } in
      if granted
      then after_send (record s' { meter = add_out s.meter (length b) })
          (send env (output b) s.conn)
      else s'

  next_chunk : Serving → Option (Session Tx) → Serving
  unfolding polled
  next_chunk s none = s
  next_chunk s (some session) = polled s (poll s.reader.cursor session.inner)

  chunk_turn : Serving → Sending → Serving
  unfolding next_chunk throttle_turn
  chunk_turn s selecting = next_chunk s (get_elem? s.conn.manager.heap s.session)
  chunk_turn s (throttled b) = throttle_turn s b
  chunk_turn s stopped = s

  -- `oob.recv()` in `select!`.
  oob_turn : Serving → Sending → List ServerFrame → Serving
  unfolding after_send
  oob_turn s selecting (frame ∷ frames) =
      after_send (record s { oob = frames }) (send env frame s.conn)
  oob_turn s _ _ = s

  -- Which task takes a turn; for the sender task, also which branch of `select!`.
  pub data Turn : Type 0 where
    receiver chunks oobs : Turn

  unfoldable pub take_turn : Turn → Serving → Serving
  unfolding receiver_turn chunk_turn oob_turn
  take_turn receiver s = receiver_turn s s.owes_pong s.outcome
  take_turn chunks s = chunk_turn s s.sending
  take_turn oobs s = oob_turn s s.sending s.oob

  unfoldable pub serve : List Turn → Serving → Serving
  unfolding take_turn
  serve [] s = s
  serve (t ∷ ts) s = serve ts (take_turn t s)

  abbrev pub begin : Negotiated → Conn W Tx → Serving
  begin n c = record {
    conn = c;
    session = n.session;
    meter = zero_meter;
    oob = [];
    sending = selecting;
    reader = reader n.session;
    limiter = limiter f n.entitlement (now c.world);
    owes_pong = false;
    outcome = none;
  }

  abbrev pub is_close : Outcome → Bool
  is_close client_closed = true
  is_close client_detached = false

  -- Whether the session is torn down.
  unfoldable pub tear_down : Negotiated → ℕ → Bool → Conn W Tx → Conn W Tx
  tear_down n id false c = c
  tear_down n id true c =
      let c' = tell_session_close env n.account_token (decimal id) c in
      record c' { manager = remove c'.manager id }

  unfoldable pub report : Negotiated → ℕ → UsageMeter → Conn W Tx → Conn W Tx
  report n id meter c =
      let (bytes_in, bytes_out) = totals meter in
      tell_usage env n.account_token (decimal id) bytes_in bytes_out c

  -- What follows the receiver loop.
  unfoldable pub finish : Negotiated → UsageMeter → Outcome → Conn W Tx → Conn W Tx
  unfolding tear_down report
  finish n meter outcome c =
      let id = id_of c.manager.heap n.session in
      let c' = report n id meter c in
      tear_down n id (if is_close outcome then true else is_closed c'.manager n.session) c'

  -- Of a connection when the receiver loop has returned, and when its sender task is gone. `abort` only
  -- asks for that, so the sender may still go on after the totals were read.
  served : Negotiated → Serving → Serving → Option Outcome → Conn W Tx
  unfolding finish
  served n s gone none = s.conn
  served n s gone (some outcome) = finish n s.meter outcome gone.conn

  handled : List Turn → List Turn → Result Text (Option Negotiated) × Conn W Tx → Conn W Tx
  unfolding served serve
  handled ts late (err _, c) = c
  handled ts late (ok none, c) = c
  handled ts late (ok (some n), c) =
      let s = serve ts (begin n c) in served n s (serve late s) s.outcome

  -- `handle_connection`, with the turns of its tasks up to the moment that is looked at, and those of the
  -- sender between that and its cancellation, all of which are taken to come before `report_usage`.
  unfoldable pub handle_connection : List Turn → List Turn → Conn W Tx → Conn W Tx
  unfolding handled negotiate
  handle_connection ts late c = handled ts late (negotiate env c)
