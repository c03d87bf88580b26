-- ===== src/Server/Serve/Evolving.antt =====
-- What a turn of a connection leaves true of the session manager, for a relation that what the others do
-- meanwhile keeps to.
use tty_gateway.Base.{
  ℕ, ◌≡◌, refl, sym, subst, Bool, true, false, Option, none, some, List, [], ◌∷◌, Bytes, Text,
  length, arith, inl, inr, Bool-cases, get_elem?,
}
use tty_gateway.Base.Results.{Result, ok, err}
use tty_gateway.Proto.Frame.{
  ClientFrame, hello, open_shell, input, resize, sign_response, ping, close, ServerFrame, output,
  ended,
}
use tty_gateway.Core.Registry.{Session, SessionManager}
use tty_gateway.Core.Reader.{Polled, chunk, finished, waiting, panicked, poll}
use tty_gateway.Quota.Float.{Float}
use tty_gateway.Quota.Meter.{add_out}
use tty_gateway.Ssh.Client.{SshInput, bytes}
use tty_gateway.Server.Conn.{forwarded, Conn, Env, await, note, recv, send}
use tty_gateway.Server.Wait.{Across, await-Across, send-Keeps, recv-Keeps}
use tty_gateway.Base.Action.Keeps.{IsPreorder}
use tty_gateway.Server.Serve.{
  Outcome, Sending, selecting, throttled, stopped, throttle, Serving, offer_pong, received,
  send_input, receiver_round, receiver_turn, after_send, polled, throttle_turn, next_chunk,
  chunk_turn, oob_turn, Turn, receiver, chunks, oobs, take_turn,
}

module _ {W Tx H C K P : Type 0} (f : Float) (now : W → ℕ) (env : Env W Tx H C K P)
    (R : SessionManager Tx → SessionManager Tx → Type 0) (pre : IsPreorder R)
    (others : (w : W) (m : SessionManager Tx) → R m (env.others w m)) where
  abbrev Served : Type 0
  Served = Serving f now env

  given_to :
      (c : Conn W Tx) (given : SshInput) (found : Option (Session Tx))
      → Across R c
          (elim found [ none ↦ c | some s ↦ (await env Bool (env.send_input s.input given) c).1 ])
  given_to c given none = pre.same c.manager
  given_to c given (some s) = await-Across env R pre others Bool (env.send_input s.input given) c

  send_input-Across :
      (session : ℕ) (given : SshInput) (c : Conn W Tx)
      → Across R c (send_input f now env session given c)
  unfolding send_input
  send_input-Across session given c =
      given_to (note (forwarded given) c) given (get_elem? c.manager.heap session)

  offer_pong-manager :
      (s : Served) (x : Sending) → (offer_pong f now env s x).conn.manager ≡ s.conn.manager
  unfolding offer_pong
  offer_pong-manager s stopped = refl
  offer_pong-manager s selecting = ground arith
  offer_pong-manager s (throttled _) = ground arith

  offer_pong-Across : (s : Served) (x : Sending) → Across R s.conn (offer_pong f now env s x).conn
  offer_pong-Across s x =
      subst (R s.conn.manager) (sym (offer_pong-manager s x)) (pre.same s.conn.manager)

  received-Across :
      (s : Served) (frame : ClientFrame) → Across R s.conn (received f now env s frame).conn
  unfolding received
  received-Across s (input b) = send_input-Across s.session (bytes b) s.conn
  received-Across s (resize cols rows) =
      send_input-Across s.session (SshInput.resize cols rows) s.conn
  received-Across s ping = offer_pong-Across s s.sending
  received-Across s close = pre.same s.conn.manager
  received-Across s (hello _ _ _ _) = pre.same s.conn.manager
  received-Across s (open_shell _ _ _ _) = pre.same s.conn.manager
  received-Across s (sign_response _ _) = pre.same s.conn.manager

  receiver_round-Across :
      (s : Served) (r : Result Text ClientFrame) (c : Conn W Tx)
      → Across R s.conn c
      → Across R s.conn (receiver_round f now env s (r, c)).conn
  unfolding receiver_round
  receiver_round-Across s (ok frame) c h =
      pre.trans _ _ _ h (received-Across (record s { conn = c }) frame)
  receiver_round-Across s (err _) c h = h

  receiver_turn-Across :
      (s : Served) (owes : Bool) (outcome : Option Outcome)
      → Across R s.conn (receiver_turn f now env s owes outcome).conn
  unfolding receiver_turn
  receiver_turn-Across s _ (some _) = pre.same s.conn.manager
  receiver_turn-Across s true none = offer_pong-Across s s.sending
  receiver_turn-Across s false none =
      receiver_round-Across s (recv env s.conn).0 (recv env s.conn).1
        ((recv-Keeps env R pre others).at s.conn)

  after_send-Across :
      (s : Served) (r : Result Text (Unit {0})) (c d : Conn W Tx)
      → Across R c d
      → Across R c (after_send f now env s (r, d)).conn
  unfolding after_send
  after_send-Across s (ok _) c d h = h
  after_send-Across s (err _) c d h = h

  sent-Across :
      (s : Served) (frame : ServerFrame) (c : Conn W Tx)
      → Across R c (after_send f now env s (send env frame c)).conn
  sent-Across s frame c =
      after_send-Across s (send env frame c).0 c (send env frame c).1
        ((send-Keeps env R pre others frame).at c)

  polled-Across :
      (s : Served) (p : Polled) (cursor : ℕ) → Across R s.conn (polled f now env s (p, cursor)).conn
  unfolding polled
  polled-Across s (chunk _) cursor = pre.same s.conn.manager
  polled-Across s finished cursor = (send-Keeps env R pre others ended).at s.conn
  polled-Across s waiting cursor = pre.same s.conn.manager
  polled-Across s panicked cursor = pre.same s.conn.manager

  throttle_turn-Across :
      (s : Served) (b : Bytes) → Across R s.conn (throttle_turn f now env s b).conn
  unfolding throttle_turn
  throttle_turn-Across s b =
      elim (Bool-cases (throttle f s.limiter (now s.conn.world) (length b)).0) [
        | inl granted ↦ rw granted (
            sent-Across
              (record s {
                limiter = (throttle f s.limiter (now s.conn.world) (length b)).1;
                meter = add_out s.meter (length b);
              })
              (output b) s.conn)
        | inr short ↦ rw short (pre.same s.conn.manager)
      ]

  next_chunk-Across :
      (s : Served) (found : Option (Session Tx))
      → Across R s.conn (next_chunk f now env s found).conn
  unfolding next_chunk
  next_chunk-Across s none = pre.same s.conn.manager
  next_chunk-Across s (some session) =
      polled-Across s (poll s.reader.cursor session.inner).0 (poll s.reader.cursor session.inner).1

  chunk_turn-Across : (s : Served) (x : Sending) → Across R s.conn (chunk_turn f now env s x).conn
  unfolding chunk_turn
  chunk_turn-Across s selecting = next_chunk-Across s (get_elem? s.conn.manager.heap s.session)
  chunk_turn-Across s (throttled b) = throttle_turn-Across s b
  chunk_turn-Across s stopped = pre.same s.conn.manager

  oob_turn-Across :
      (s : Served) (x : Sending) (oob : List ServerFrame)
      → Across R s.conn (oob_turn f now env s x oob).conn
  unfolding oob_turn
  oob_turn-Across s selecting (frame ∷ frames) =
      sent-Across (record s { oob = frames }) frame s.conn
  oob_turn-Across s selecting [] = pre.same s.conn.manager
  oob_turn-Across s (throttled _) oob = pre.same s.conn.manager
  oob_turn-Across s stopped oob = pre.same s.conn.manager

  pub take_turn-Across :
      (t : Turn f now env) (s : Served) → Across R s.conn (take_turn f now env t s).conn
  unfolding take_turn
  take_turn-Across receiver s = receiver_turn-Across s s.owes_pong s.outcome
  take_turn-Across chunks s = chunk_turn-Across s s.sending
  take_turn-Across oobs s = oob_turn-Across s s.sending s.oob
