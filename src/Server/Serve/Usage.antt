-- ===== src/Server/Serve/Usage.antt =====
-- What a connection meters, against what it does.
use tty_gateway.Base.{
  ℕ, ◌+◌, ◌%◌, ◌^◌, ◌<◌, ◌≡◌, ◌∙◌, refl, sym, ap, Bool, true, false, Option, none, some, List, [],
  ◌∷◌, ◌++◌, Bytes, Text, append-nil, append_assoc, length, arith, inl, inr, Bool-cases, get_elem?,
  All, All-append,
}
use tty_gateway.Base.Results.{Result, ok, err}
use tty_gateway.Proto.Frame.{
  ClientFrame, hello, open_shell, input, resize, sign_response, ping, close, ServerFrame, output,
  ended,
}
use tty_gateway.Core.Registry.{Session}
use tty_gateway.Core.Reader.{Polled, chunk, finished, waiting, panicked, poll}
use tty_gateway.Quota.Float.{Float}
use tty_gateway.Quota.Meter.{add_in, add_out}
use tty_gateway.Server.Negotiate.{Negotiated}
use tty_gateway.Ssh.Client.{SshInput, bytes}
use tty_gateway.Server.Conn.{Event, sent, forwarded, Conn, Env, recv, send}
use tty_gateway.Server.Conn.Says.{recv-log, send-log}
use tty_gateway.Server.Serve.Oob.{Pongs, take_turn-Pongs}
use tty_gateway.Server.Serve.{
  Outcome, Sending, selecting, throttled, stopped, throttle, Serving, send_input, offer_pong,
  received, receiver_round, receiver_turn, after_send, polled, throttle_turn, next_chunk,
  chunk_turn, oob_turn, Turn, receiver, chunks, oobs, take_turn, serve, begin,
}

-- The bytes of an event that were handed on for the shell, and for the client.
pub to_shell : Event → ℕ
to_shell (forwarded (bytes b)) = length b
to_shell _ = 0

pub to_client : Event → ℕ
to_client (sent (output b)) = length b
to_client _ = 0

abbrev pub sum : (Event → ℕ) → List Event → ℕ
sum f [] = 0
sum f (e ∷ es) = f e + sum f es

pub sum-append : (f : Event → ℕ) (xs ys : List Event) → sum f (xs ++ ys) ≡ sum f xs + sum f ys
sum-append f [] ys = omega arith
sum-append f (x ∷ xs) ys = omega (arith, sum-append f xs ys)

-- What a connection does while it is served: input is handed on for the shell, frames for the client.
pub data IsTraffic : Event → Type 0 where
  passes : (given : SshInput) → IsTraffic (forwarded given)
  sends : (frame : ServerFrame) → IsTraffic (sent frame)

module _ {W Tx H C K P : Type 0} (f : Float) (now : W → ℕ) (env : Env W Tx H C K P) where
  abbrev Served : Type 0
  Served = Serving f now env

  -- The meter has grown by the bytes of what the connection has done.
  pub record Meters (s t : Served) : Type 0 where
    pub said : List Event
    pub logged : t.conn.log ≡ s.conn.log ++ said
    pub traffic : All IsTraffic said
    pub came :
        s.meter.bytes_in < 2 ^ 64
        → t.meter.bytes_in ≡ (s.meter.bytes_in + sum to_shell said) % 2 ^ 64
    pub went :
        s.meter.bytes_out < 2 ^ 64
        → t.meter.bytes_out ≡ (s.meter.bytes_out + sum to_client said) % 2 ^ 64

  quiet : (s t : Served) → t.conn.log ≡ s.conn.log → t.meter ≡ s.meter → Meters s t
  quiet s t e m = record {
    said = [];
    logged = e ∙ sym (append-nil s.conn.log);
    traffic = tt;
    came = λ h. ap (λ u. u.bytes_in) m ∙ omega arith;
    went = λ h. ap (λ u. u.bytes_out) m ∙ omega arith;
  }

  Meters-trans : (s t u : Served) → Meters s t → Meters t u → Meters s u
  Meters-trans s t u p q = record {
    said = p.said ++ q.said;
    logged = q.logged ∙ ap (λ l. l ++ q.said) p.logged ∙ append_assoc s.conn.log p.said q.said;
    traffic = All-append IsTraffic p.said q.said p.traffic q.traffic;
    came = λ h.
        omega
          (arith, p.came h, q.came (omega (arith, p.came h)), sum-append to_shell p.said q.said);
    went = λ h.
        omega
          (arith, p.went h, q.went (omega (arith, p.went h)), sum-append to_client p.said q.said);
  }

  -- One event that goes to neither side.
  aside :
      (s t : Served) (e : Event)
      → t.conn.log ≡ s.conn.log ++ (e ∷ [])
      → IsTraffic e
      → t.meter ≡ s.meter
      → to_shell e ≡ 0
      → to_client e ≡ 0
      → Meters s t
  aside s t e l k m x y = record {
    said = e ∷ [];
    logged = l;
    traffic = (k, tt);
    came = λ h. ap (λ u. u.bytes_in) m ∙ omega (arith, x);
    went = λ h. ap (λ u. u.bytes_out) m ∙ omega (arith, y);
  }

  offer_pong-Meters : (s : Served) (sending : Sending) → Meters s (offer_pong f now env s sending)
  unfolding offer_pong
  offer_pong-Meters s stopped = quiet s _ refl refl
  offer_pong-Meters s selecting = quiet s _ (ground arith) (ground arith)
  offer_pong-Meters s (throttled _) = quiet s _ (ground arith) (ground arith)

  -- Passing on input adds that to the log.
  pub send_input-log :
      (session : ℕ) (given : SshInput) (c : Conn W Tx)
      → (send_input f now env session given c).log ≡ c.log ++ (forwarded given ∷ [])
  unfolding send_input
  send_input-log session given c = ground arith

  received-Meters : (s : Served) (frame : ClientFrame) → Meters s (received f now env s frame)
  unfolding received to_shell to_client add_in
  received-Meters s (input b) = record {
    said = forwarded (bytes b) ∷ [];
    logged = send_input-log s.session (bytes b) s.conn;
    traffic = (passes _, tt);
    came = λ h. omega arith;
    went = λ h. omega arith;
  }
  received-Meters s (resize cols rows) =
      aside s _ (forwarded (SshInput.resize cols rows))
        (send_input-log s.session (SshInput.resize cols rows) s.conn) (passes _) refl refl refl
  received-Meters s ping = offer_pong-Meters s s.sending
  received-Meters s close = quiet s _ refl refl
  received-Meters s (hello _ _ _ _) = quiet s _ refl refl
  received-Meters s (open_shell _ _ _ _) = quiet s _ refl refl
  received-Meters s (sign_response _ _) = quiet s _ refl refl

  receiver_round-Meters :
      (s : Served) (r : Result Text ClientFrame) (c : Conn W Tx)
      → c.log ≡ s.conn.log
      → Meters s (receiver_round f now env s (r, c))
  unfolding receiver_round
  receiver_round-Meters s (ok frame) c e =
      let t : Served = record s { conn = c } in
      Meters-trans s t _ (quiet s t e refl) (received-Meters t frame)
  receiver_round-Meters s (err _) c e = quiet s _ e refl

  receiver_turn-Meters :
      (s : Served) (owes : Bool) (outcome : Option Outcome)
      → Meters s (receiver_turn f now env s owes outcome)
  unfolding receiver_turn
  receiver_turn-Meters s _ (some _) = quiet s s refl refl
  receiver_turn-Meters s true none = offer_pong-Meters s s.sending
  receiver_turn-Meters s false none =
      receiver_round-Meters s (recv env s.conn).0 (recv env s.conn).1 (recv-log env s.conn)

  after_send-Meters :
      (s t : Served) (e : Event) (r : Result Text (Unit {0})) (c : Conn W Tx)
      → c.log ≡ s.conn.log ++ (e ∷ [])
      → IsTraffic e
      → (s.meter.bytes_in < 2 ^ 64 → t.meter.bytes_in ≡ (s.meter.bytes_in + to_shell e) % 2 ^ 64)
      → (s.meter.bytes_out < 2 ^ 64
          → t.meter.bytes_out ≡ (s.meter.bytes_out + to_client e) % 2 ^ 64)
      → Meters s (after_send f now env t (r, c))
  unfolding after_send
  after_send-Meters s t e (ok _) c l k x y = record {
    said = e ∷ [];
    logged = l;
    traffic = (k, tt);
    came = λ h. omega (arith, x h);
    went = λ h. omega (arith, y h);
  }
  after_send-Meters s t e (err _) c l k x y = record {
    said = e ∷ [];
    logged = l;
    traffic = (k, tt);
    came = λ h. omega (arith, x h);
    went = λ h. omega (arith, y h);
  }

  polled-Meters : (s : Served) (p : Polled) (cursor : ℕ) → Meters s (polled f now env s (p, cursor))
  unfolding polled to_shell to_client
  polled-Meters s (chunk b) cursor = quiet s _ refl refl
  polled-Meters s finished cursor =
      aside s _ (sent ended) (send-log env ended s.conn) (sends _) refl refl refl
  polled-Meters s waiting cursor = quiet s _ refl refl
  polled-Meters s panicked cursor = quiet s _ refl refl

  throttle_turn-Meters : (s : Served) (b : Bytes) → Meters s (throttle_turn f now env s b)
  unfolding throttle_turn to_shell to_client add_out
  throttle_turn-Meters s b =
      let t : Served = record s {
        limiter = (throttle f s.limiter (now s.conn.world) (length b)).1;
        meter = add_out s.meter (length b);
      } in
      elim (Bool-cases (throttle f s.limiter (now s.conn.world) (length b)).0) [
        | inl granted ↦ rw granted (
            after_send-Meters s t (sent (output b)) (send env (output b) s.conn).0
              (send env (output b) s.conn).1 (send-log env (output b) s.conn) (sends _)
              (λ h. omega arith) (λ h. omega arith))
        | inr short ↦ rw short (quiet s _ refl refl)
      ]

  next_chunk-Meters :
      (s : Served) (found : Option (Session Tx)) → Meters s (next_chunk f now env s found)
  unfolding next_chunk
  next_chunk-Meters s none = quiet s s refl refl
  next_chunk-Meters s (some session) =
      polled-Meters s (poll s.reader.cursor session.inner).0 (poll s.reader.cursor session.inner).1

  chunk_turn-Meters : (s : Served) (sending : Sending) → Meters s (chunk_turn f now env s sending)
  unfolding chunk_turn
  chunk_turn-Meters s selecting = next_chunk-Meters s (get_elem? s.conn.manager.heap s.session)
  chunk_turn-Meters s (throttled b) = throttle_turn-Meters s b
  chunk_turn-Meters s stopped = quiet s s refl refl

  oob_turn-Meters :
      (s : Served) (sending : Sending) (oob : List ServerFrame)
      → Pongs oob
      → Meters s (oob_turn f now env s sending oob)
  unfolding oob_turn to_shell to_client
  oob_turn-Meters s selecting (frame ∷ frames) (h, hs) =
      after_send-Meters s (record s { oob = frames }) (sent frame) (send env frame s.conn).0
        (send env frame s.conn).1 (send-log env frame s.conn) (sends frame) (λ k. omega arith)
        (λ k. rw h (omega arith))
  oob_turn-Meters s selecting [] h = quiet s s refl refl
  oob_turn-Meters s (throttled _) oob h = quiet s s refl refl
  oob_turn-Meters s stopped oob h = quiet s s refl refl

  take_turn-Meters :
      (t : Turn f now env) (s : Served) → Pongs s.oob → Meters s (take_turn f now env t s)
  unfolding take_turn
  take_turn-Meters receiver s h = receiver_turn-Meters s s.owes_pong s.outcome
  take_turn-Meters chunks s h = chunk_turn-Meters s s.sending
  take_turn-Meters oobs s h = oob_turn-Meters s s.sending s.oob h

  serve-Meters :
      (ts : List (Turn f now env)) (s : Served) → Pongs s.oob → Meters s (serve f now env ts s)
  unfolding serve
  serve-Meters [] s h = quiet s s refl refl
  serve-Meters (t ∷ ts) s h =
      let s' = take_turn f now env t s in
      Meters-trans s s' _ (take_turn-Meters t s h)
        (serve-Meters ts s' (take_turn-Pongs f now env t s h))

  serve-Pongs :
      (ts : List (Turn f now env)) (s : Served) → Pongs s.oob → Pongs (serve f now env ts s).oob
  unfolding serve
  serve-Pongs [] s h = h
  serve-Pongs (t ∷ ts) s h =
      serve-Pongs ts (take_turn f now env t s) (take_turn-Pongs f now env t s h)

  -- Serving a connection adds such events alone to its log, and so does what its sender still does.
  pub serve-traffic :
      (ts : List (Turn f now env)) (n : Negotiated) (c : Conn W Tx)
      → (said : List Event) × ((serve f now env ts (begin f now env n c)).conn.log ≡ c.log ++ said)
        × All IsTraffic said
  serve-traffic ts n c =
      let m = serve-Meters ts (begin f now env n c) tt in (m.said, m.logged, m.traffic)

  pub late-traffic :
      (ts late : List (Turn f now env)) (n : Negotiated) (c : Conn W Tx)
      → let s = serve f now env ts (begin f now env n c) in
        (said : List Event) × ((serve f now env late s).conn.log ≡ s.conn.log ++ said)
        × All IsTraffic said
  late-traffic ts late n c =
      let s : Served = serve f now env ts (begin f now env n c) in
      let m = serve-Meters late s (serve-Pongs ts (begin f now env n c) tt) in
      (m.said, m.logged, m.traffic)

  -- Whatever the turns of the two tasks and of the others, the meter of a connection counts exactly the
  -- bytes of the input that the connection has handed to `send_input`, whether or not the session took
  -- it, and exactly the bytes of the output that it has handed to `FramedSend::send`, whether or not
  -- the sending succeeded, each up to the wrap-around of a u64.
  pub serve-usage :
      (ts : List (Turn f now env)) (n : Negotiated) (c : Conn W Tx)
      → let s = serve f now env ts (begin f now env n c) in
        (said : List Event) × (s.conn.log ≡ c.log ++ said)
        × (s.meter.bytes_in ≡ sum to_shell said % 2 ^ 64)
        × (s.meter.bytes_out ≡ sum to_client said % 2 ^ 64)
  serve-usage ts n c =
      let m = serve-Meters ts (begin f now env n c) tt in
      (m.said, m.logged, omega (arith, m.came (omega arith)), omega (arith, m.went (omega arith)))
