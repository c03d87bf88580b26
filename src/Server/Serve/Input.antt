-- ===== src/Server/Serve/Input.antt =====
-- What a connection passes on to the shell, against what its client sent.
use tty_gateway.Base.{
  ℕ, ◌⊎◌, ◌≡◌, ◌∙◌, refl, sym, ap, ap₂, Bool, true, false, Option, none, some, List, [], ◌∷◌, ◌++◌,
  Bytes, Text, append-nil, append_assoc, length, arith, inl, inr, Bool-cases, get_elem?,
}
use tty_gateway.Base.Results.{Result, ok, err}
use tty_gateway.Proto.Frame.{
  ClientFrame, hello, open_shell, input, resize, sign_response, ping, close, ServerFrame, output,
  ended,
}
use tty_gateway.Core.Registry.{Session}
use tty_gateway.Core.Reader.{Polled, chunk, finished, waiting, panicked, poll}
use tty_gateway.Quota.Float.{Float}
use tty_gateway.Quota.Meter.{add_out}
use tty_gateway.Ssh.Client.{SshInput, bytes}
use tty_gateway.Server.Conn.{Event, sent, forwarded, Conn, Env, recv, send}
use tty_gateway.Server.Serve.Usage.{send_input-log}
use tty_gateway.Server.Serve.{
  Outcome, Sending, selecting, throttled, stopped, throttle, Serving, offer_pong, received,
  send_input, receiver_round, receiver_turn, after_send, polled, throttle_turn, next_chunk,
  chunk_turn, oob_turn, Turn, receiver, chunks, oobs, take_turn, serve,
}

-- The input that a frame asks for.
abbrev pub asks : ClientFrame → List SshInput
asks (input b) = bytes b ∷ []
asks (resize cols rows) = SshInput.resize cols rows ∷ []
asks _ = []

abbrev pub inputs : List ClientFrame → List SshInput
inputs [] = []
inputs (frame ∷ frames) = asks frame ++ inputs frames

abbrev pub given : Event → List SshInput
given (forwarded i) = i ∷ []
given _ = []

abbrev pub passed_on : List Event → List SshInput
passed_on [] = []
passed_on (e ∷ es) = given e ++ passed_on es

pub passed_on-append : (xs ys : List Event) → passed_on (xs ++ ys) ≡ passed_on xs ++ passed_on ys
passed_on-append [] ys = refl
passed_on-append (x ∷ xs) ys =
    ap (λ l. given x ++ l) (passed_on-append xs ys)
    ∙ sym (append_assoc (given x) (passed_on xs) (passed_on ys))

list-cases :
    (l : List ClientFrame)
    → (l ≡ []) ⊎ ((frame : ClientFrame) × (frames : List ClientFrame) × (l ≡ frame ∷ frames))
list-cases [] = inl refl
list-cases (frame ∷ frames) = inr (frame, frames, refl)

module _ {W Tx H C K P : Type 0} (f : Float) (now : W → ℕ) (env : Env W Tx H C K P) where
  abbrev Served : Type 0
  Served = Serving f now env

  -- What was passed on, and what the frames still ask for.
  abbrev pub all_input : Conn W Tx → List SshInput
  all_input c = passed_on c.log ++ inputs c.inbox

  send-input : (frame : ServerFrame) (c : Conn W Tx) → all_input (send env frame c).1 ≡ all_input c
  unfolding send
  send-input frame c =
      ap (λ l. l ++ inputs c.inbox)
        (passed_on-append c.log (sent frame ∷ []) ∙ append-nil (passed_on c.log))

  send_input-inbox :
      (session : ℕ) (i : SshInput) (c : Conn W Tx)
      → (send_input f now env session i c).inbox ≡ c.inbox
  unfolding send_input
  send_input-inbox session i c = ground arith

  -- A step that keeps the input that is passed on or still asked for.
  abbrev Kept : Served → Conn W Tx → Type 0
  Kept t c = all_input t.conn ≡ all_input c

  passed-input :
      (session : ℕ) (i : SshInput) (c : Conn W Tx)
      → all_input (send_input f now env session i c) ≡ passed_on c.log ++ (i ∷ inputs c.inbox)
  passed-input session i c =
      ap₂ (λ l (k : List ClientFrame). passed_on l ++ inputs k)
        (send_input-log f now env session i c) (send_input-inbox session i c)
      ∙ ap (λ l. l ++ inputs c.inbox) (passed_on-append c.log (forwarded i ∷ []))
      ∙ append_assoc (passed_on c.log) (i ∷ []) (inputs c.inbox)

  offer_pong-conn : (s : Served) (x : Sending) → (offer_pong f now env s x).conn ≡ s.conn
  unfolding offer_pong
  offer_pong-conn s stopped = refl
  offer_pong-conn s selecting = ground arith
  offer_pong-conn s (throttled _) = ground arith

  -- The frame that was taken is no longer in the inbox.
  received-input :
      (s : Served) (frame : ClientFrame)
      → all_input (received f now env s frame).conn
        ≡ passed_on s.conn.log ++ (asks frame ++ inputs s.conn.inbox)
  unfolding received
  received-input s (input b) = passed-input s.session (bytes b) s.conn
  received-input s (resize cols rows) = passed-input s.session (SshInput.resize cols rows) s.conn
  received-input s ping = ap all_input (offer_pong-conn s s.sending)
  received-input s close = refl
  received-input s (hello _ _ _ _) = refl
  received-input s (open_shell _ _ _ _) = refl
  received-input s (sign_response _ _) = refl

  receiver_round-input :
      (s : Served) (r : Result Text ClientFrame) (d : Conn W Tx) (asked : List SshInput)
      → passed_on d.log ++ (elim r [ ok frame ↦ asks frame | err _ ↦ [] ] ++ inputs d.inbox) ≡ asked
      → all_input (receiver_round f now env s (r, d)).conn ≡ asked
  unfolding receiver_round
  receiver_round-input s (ok frame) d asked e = received-input (record s { conn = d }) frame ∙ e
  receiver_round-input s (err _) d asked e = e

  recv-input :
      (c : Conn W Tx)
      → (let (r, d) = recv env c in
          passed_on d.log ++ (elim r [ ok frame ↦ asks frame | err _ ↦ [] ] ++ inputs d.inbox)
          ≡ all_input c)
  unfolding recv
  recv-input c = elim (list-cases c.inbox) [
    | inl e ↦ ground (arith, e)
    | inr (frame, frames, e) ↦ ground (arith, e)
  ]

  receiver_turn-Kept :
      (s : Served) (owes : Bool) (outcome : Option Outcome)
      → Kept (receiver_turn f now env s owes outcome) s.conn
  unfolding receiver_turn
  receiver_turn-Kept s _ (some _) = refl
  receiver_turn-Kept s true none = ap all_input (offer_pong-conn s s.sending)
  receiver_turn-Kept s false none =
      receiver_round-input s (recv env s.conn).0 (recv env s.conn).1 _ (recv-input s.conn)

  after_send-Kept :
      (s : Served) (r : Result Text (Unit {0})) (c d : Conn W Tx)
      → all_input d ≡ all_input c
      → Kept (after_send f now env s (r, d)) c
  unfolding after_send
  after_send-Kept s (ok _) c d e = e
  after_send-Kept s (err _) c d e = e

  sent-Kept :
      (s : Served) (frame : ServerFrame) (c : Conn W Tx)
      → Kept (after_send f now env s (send env frame c)) c
  sent-Kept s frame c =
      after_send-Kept s (send env frame c).0 c (send env frame c).1 (send-input frame c)

  polled-Kept :
      (s : Served) (p : Polled) (cursor : ℕ) → Kept (polled f now env s (p, cursor)) s.conn
  unfolding polled
  polled-Kept s (chunk _) cursor = refl
  polled-Kept s finished cursor = send-input ended s.conn
  polled-Kept s waiting cursor = refl
  polled-Kept s panicked cursor = refl

  throttle_turn-Kept : (s : Served) (b : Bytes) → Kept (throttle_turn f now env s b) s.conn
  unfolding throttle_turn
  throttle_turn-Kept s b =
      elim (Bool-cases (throttle f s.limiter (now s.conn.world) (length b)).0) [
        | inl granted ↦ rw granted (
            sent-Kept
              (record s {
                limiter = (throttle f s.limiter (now s.conn.world) (length b)).1;
                meter = add_out s.meter (length b);
              })
              (output b) s.conn)
        | inr short ↦ rw short refl
      ]

  next_chunk-Kept :
      (s : Served) (found : Option (Session Tx)) → Kept (next_chunk f now env s found) s.conn
  unfolding next_chunk
  next_chunk-Kept s none = refl
  next_chunk-Kept s (some session) =
      polled-Kept s (poll s.reader.cursor session.inner).0 (poll s.reader.cursor session.inner).1

  chunk_turn-Kept : (s : Served) (x : Sending) → Kept (chunk_turn f now env s x) s.conn
  unfolding chunk_turn
  chunk_turn-Kept s selecting = next_chunk-Kept s (get_elem? s.conn.manager.heap s.session)
  chunk_turn-Kept s (throttled b) = throttle_turn-Kept s b
  chunk_turn-Kept s stopped = refl

  oob_turn-Kept :
      (s : Served) (x : Sending) (oob : List ServerFrame) → Kept (oob_turn f now env s x oob) s.conn
  unfolding oob_turn
  oob_turn-Kept s selecting (frame ∷ frames) = sent-Kept (record s { oob = frames }) frame s.conn
  oob_turn-Kept s selecting [] = refl
  oob_turn-Kept s (throttled _) oob = refl
  oob_turn-Kept s stopped oob = refl

  take_turn-Kept : (t : Turn f now env) (s : Served) → Kept (take_turn f now env t s) s.conn
  unfolding take_turn
  take_turn-Kept receiver s = receiver_turn-Kept s s.owes_pong s.outcome
  take_turn-Kept chunks s = chunk_turn-Kept s s.sending
  take_turn-Kept oobs s = oob_turn-Kept s s.sending s.oob

  -- Whatever the turns of the two tasks and of the others, the input that has been handed to the
  -- session followed by what the frames still to come ask for is the same as before: keystrokes and
  -- resizes are handed over in the order in which the client sent them, none lost, repeated or made
  -- up.
  pub serve-input :
      (ts : List (Turn f now env)) (s : Served)
      → all_input (serve f now env ts s).conn ≡ all_input s.conn
  unfolding serve
  serve-input [] s = refl
  serve-input (t ∷ ts) s = serve-input ts (take_turn f now env t s) ∙ take_turn-Kept t s
