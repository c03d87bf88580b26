-- ===== src/Server/Serve/Output/Turns.antt =====
-- What each turn of a connection does to what it has read of its session.
use mathlib.Core.List.{Sublist}
use mathlib.Core.List.Sublist
use tty_gateway.Base.{
  ℕ, ◌≤◌, ◌≡◌, ◌∙◌, refl, sym, ap, subst, Bool, true, false, Option, none, some, List, [], ◌∷◌,
  ◌++◌, Bytes, Text, length, arith, inl, inr, Bool-cases, get_elem?, take, append-nil,
}
use tty_gateway.Base.Results.{Result, ok, err}
use tty_gateway.Proto.Frame.{
  ClientFrame, hello, open_shell, input, resize, sign_response, ping, close, ServerFrame, output,
  ended,
}
use tty_gateway.Core.Scrollback.{Holds}
use tty_gateway.Core.Registry.{Session}
use tty_gateway.Core.Reader.{Polled, chunk, finished, waiting, panicked, poll, poll-answer}
use tty_gateway.Quota.Float.{Float}
use tty_gateway.Quota.Meter.{add_out}
use tty_gateway.Ssh.Client.{SshInput, bytes}
use tty_gateway.Server.Conn.{Event, sent, forwarded, Conn, Env, recv, send}
use tty_gateway.Server.Conn.Says.{recv-log, send-log}
use tty_gateway.Server.Serve.Usage.{send_input-log}
use tty_gateway.Server.Serve.Oob.{Pongs}
use tty_gateway.Server.Serve.{
  Outcome, Sending, selecting, throttled, stopped, throttle, Serving, offer_pong, received,
  send_input, receiver_round, receiver_turn, after_send, polled, throttle_turn, next_chunk,
  chunk_turn, oob_turn, Turn, receiver, chunks, oobs, take_turn,
}
use tty_gateway.Server.Serve.Output.{
  outputs, outputs-append, held, shown, Answered, answer-Answered, all_output, Reads, Aside,
  Aside-Reads, unchanged,
}

module _ {W Tx H C K P : Type 0} (f : Float) (now : W → ℕ) (env : Env W Tx H C K P) where
  abbrev Served : Type 0
  Served = Serving f now env

  offer_pong-Aside : (s : Served) (x : Sending) → Aside f now env s (offer_pong f now env s x)
  unfolding offer_pong
  offer_pong-Aside s stopped = record { same_output = refl; same_reader = refl }
  offer_pong-Aside s selecting = record { same_output = ground arith; same_reader = ground arith }
  offer_pong-Aside s (throttled _) = record {
    same_output = ground arith;
    same_reader = ground arith;
  }

  silent :
      (c : Conn W Tx) (es : List Event) → outputs es ≡ [] → outputs (c.log ++ es) ≡ outputs c.log
  silent c es e = outputs-append c.log es ∙ rw e (append-nil (outputs c.log))

  given-output :
      (s : Served) (i : SshInput)
      → outputs (send_input f now env s.session i s.conn).log ++ held s.sending
        ≡ all_output f now env s
  given-output s i =
      ap (λ l. outputs l ++ held s.sending) (send_input-log f now env s.session i s.conn)
      ∙ ap (λ l. l ++ held s.sending) (silent s.conn (forwarded i ∷ []) refl)

  received-Aside :
      (s : Served) (frame : ClientFrame) → Aside f now env s (received f now env s frame)
  unfolding received
  received-Aside s (input b) = record { same_output = given-output s (bytes b); same_reader = refl }
  received-Aside s (resize cols rows) = record {
    same_output = given-output s (SshInput.resize cols rows);
    same_reader = refl;
  }
  received-Aside s ping = offer_pong-Aside s s.sending
  received-Aside s close = record { same_output = refl; same_reader = refl }
  received-Aside s (hello _ _ _ _) = unchanged f now env s
  received-Aside s (open_shell _ _ _ _) = unchanged f now env s
  received-Aside s (sign_response _ _) = unchanged f now env s

  receiver_round-Aside :
      (s : Served) (r : Result Text ClientFrame) (c : Conn W Tx)
      → c.log ≡ s.conn.log
      → Aside f now env s (receiver_round f now env s (r, c))
  unfolding receiver_round
  receiver_round-Aside s (ok frame) c e =
      let a = received-Aside (record s { conn = c }) frame in
      record {
        same_output = a.same_output ∙ ap (λ l. outputs l ++ held s.sending) e;
        same_reader = a.same_reader;
      }
  receiver_round-Aside s (err _) c e = record {
    same_output = ap (λ l. outputs l ++ held s.sending) e;
    same_reader = refl;
  }

  receiver_turn-Aside :
      (s : Served) (owes : Bool) (outcome : Option Outcome)
      → Aside f now env s (receiver_turn f now env s owes outcome)
  unfolding receiver_turn
  receiver_turn-Aside s _ (some _) = unchanged f now env s
  receiver_turn-Aside s true none = offer_pong-Aside s s.sending
  receiver_turn-Aside s false none =
      receiver_round-Aside s (recv env s.conn).0 (recv env s.conn).1 (recv-log env s.conn)

  -- A frame is sent, whatever came of it, and nothing is held back any more.
  after_send-output :
      (s : Served) (c : Conn W Tx) (r : Result Text (Unit {0})) (d : Conn W Tx) (b : Bytes)
      → outputs d.log ≡ outputs c.log ++ b
      → (all_output f now env (after_send f now env s (r, d)) ≡ outputs c.log ++ b)
        × ((after_send f now env s (r, d)).reader ≡ s.reader)
  unfolding after_send
  after_send-output s c (ok _) d b e = (append-nil (outputs d.log) ∙ e, refl)
  after_send-output s c (err _) d b e = (append-nil (outputs d.log) ∙ e, refl)

  sent-output :
      (s : Served) (frame : ServerFrame) (c : Conn W Tx)
      → (let t = after_send f now env s (send env frame c) in
          (all_output f now env t ≡ outputs c.log ++ shown (sent frame)) × (t.reader ≡ s.reader))
  sent-output s frame c =
      after_send-output s c (send env frame c).0 (send env frame c).1 (shown (sent frame)) (
        ap outputs (send-log env frame c)
        ∙ outputs-append c.log (sent frame ∷ [])
        ∙ ap (λ l. outputs c.log ++ l) (append-nil (shown (sent frame))))

  -- What was sent, while nothing is held back.
  sent_part :
      (m : ℕ) (h : Bytes) (s : Served)
      → s.sending ≡ selecting
      → Reads f now env m h s
      → Sublist (outputs s.conn.log) (take s.reader.cursor h)
        × (length h ≤ m → outputs s.conn.log ≡ take s.reader.cursor h)
  sent_part m h s at r =
      let same : all_output f now env s ≡ outputs s.conn.log =
        ap (λ x. outputs s.conn.log ++ held x) at ∙ append-nil (outputs s.conn.log) in
      (
        subst (λ l. Sublist l (take s.reader.cursor h)) same r.part,
        λ small. sym same ∙ r.exact small,
      )

  polled-Reads :
      (m : ℕ) (h : Bytes) (s : Served) (p : Polled) (cursor : ℕ)
      → s.sending ≡ selecting
      → Answered m h s.reader.cursor (p, cursor)
      → Reads f now env m h s
      → Reads f now env m h (polled f now env s (p, cursor))
  unfolding polled
  polled-Reads m h s (chunk b) cursor at e r =
      let (part, exact) = sent_part m h s at r in
      record {
        part = Sublist.trans (Sublist.append part (Sublist.refl b)) e.part;
        behind = e.behind;
        exact = λ small. ap (λ l. l ++ b) (exact small) ∙ sym (e.exact small);
      }
  polled-Reads m h s finished cursor at e r =
      let (part, exact) = sent_part m h s at r in
      let same : outputs s.conn.log ≡ outputs (send env ended s.conn).1.log ++ [] = sym (
        append-nil (outputs (send env ended s.conn).1.log)
        ∙ ap outputs (send-log env ended s.conn)
        ∙ silent s.conn (sent ended ∷ []) refl) in
      record {
        part = subst (λ l. Sublist l (take s.reader.cursor h)) same part;
        behind = r.behind;
        exact = λ small. sym same ∙ exact small;
      }
  polled-Reads m h s waiting cursor at e r =
      let same : take s.reader.cursor h ++ [] ≡ take s.reader.cursor h = append-nil _ in
      record {
        part = Sublist.trans r.part (subst (λ l. Sublist l (take cursor h)) same e.part);
        behind = e.behind;
        exact = λ small. r.exact small ∙ sym (e.exact small ∙ same);
      }
  polled-Reads m h s panicked cursor at e r =
      let (part, exact) = sent_part m h s at r in
      let same = sym (append-nil (outputs s.conn.log)) in
      record {
        part = subst (λ l. Sublist l (take s.reader.cursor h)) same part;
        behind = r.behind;
        exact = λ small. sym same ∙ exact small;
      }

  throttle_turn-Aside :
      (s : Served) (b : Bytes)
      → s.sending ≡ throttled b
      → Aside f now env s (throttle_turn f now env s b)
  unfolding throttle_turn
  throttle_turn-Aside s b at =
      elim (Bool-cases (throttle f s.limiter (now s.conn.world) (length b)).0) [
        | inl granted ↦ rw granted (
            let (out, same) =
              sent-output
                (record s {
                  limiter = (throttle f s.limiter (now s.conn.world) (length b)).1;
                  meter = add_out s.meter (length b);
                })
                (output b) s.conn in
            record {
              same_output = out ∙ ap (λ x. outputs s.conn.log ++ held x) (sym at);
              same_reader = same;
            })
        | inr short ↦ rw short (record { same_output = refl; same_reader = refl })
      ]

  oob_turn-Aside :
      (s : Served) (x : Sending) (oob : List ServerFrame)
      → s.sending ≡ x
      → Pongs oob
      → Aside f now env s (oob_turn f now env s x oob)
  unfolding oob_turn
  oob_turn-Aside s selecting (frame ∷ frames) at (is_pong, _) =
      let (out, same) = sent-output (record s { oob = frames }) frame s.conn in
      record {
        same_output =
            out
            ∙ ap (λ x. outputs s.conn.log ++ shown (sent x)) is_pong
            ∙ ap (λ x. outputs s.conn.log ++ held x) (sym at);
        same_reader = same;
      }
  oob_turn-Aside s selecting [] at h = unchanged f now env s
  oob_turn-Aside s (throttled _) oob at h = unchanged f now env s
  oob_turn-Aside s stopped oob at h = unchanged f now env s

  module _ (h : Bytes) (session : Session Tx) (v : Holds h session.inner) where
    abbrev pub IsReading : Served → Type 0
    IsReading = Reads f now env session.inner.max_bytes h

    next_chunk-Reads :
        (s : Served)
        → s.sending ≡ selecting
        → IsReading s
        → IsReading (next_chunk f now env s (some session))
    unfolding next_chunk
    next_chunk-Reads s at r =
        polled-Reads session.inner.max_bytes h s (poll s.reader.cursor session.inner).0
          (poll s.reader.cursor session.inner).1 at
          (subst (Answered session.inner.max_bytes h s.reader.cursor)
            (sym (poll-answer s.reader.cursor v r.behind))
            (answer-Answered h session.inner s.reader.cursor r.behind))
          r

    chunk_turn-Reads :
        (s : Served) (x : Sending)
        → s.sending ≡ x
        → get_elem? s.conn.manager.heap s.session ≡ some session
        → IsReading s
        → IsReading (chunk_turn f now env s x)
    unfolding chunk_turn
    chunk_turn-Reads s selecting at e r = rw e (next_chunk-Reads s at r)
    chunk_turn-Reads s (throttled b) at e r =
        Aside-Reads f now env session.inner.max_bytes h s _ (throttle_turn-Aside s b at) r
    chunk_turn-Reads s stopped at e r = r

    -- A turn at which the reader's session holds `h`, before the others have gone on.
    pub take_turn-Reads :
        (t : Turn f now env) (s : Served)
        → get_elem? s.conn.manager.heap s.session ≡ some session
        → Pongs s.oob
        → IsReading s
        → IsReading (take_turn f now env t s)
    unfolding take_turn
    take_turn-Reads receiver s e p r =
        Aside-Reads f now env session.inner.max_bytes h s _
          (receiver_turn-Aside s s.owes_pong s.outcome) r
    take_turn-Reads chunks s e p r = chunk_turn-Reads s s.sending refl e r
    take_turn-Reads oobs s e p r =
        Aside-Reads f now env session.inner.max_bytes h s _
          (oob_turn-Aside s s.sending s.oob refl p) r

  pub session-take_turn :
      (t : Turn f now env) (s : Served) → (take_turn f now env t s).session ≡ s.session
  unfolding take_turn receiver_turn receiver_round received offer_pong chunk_turn next_chunk polled
      throttle_turn after_send oob_turn
  session-take_turn receiver s = ground arith
  session-take_turn chunks s = ground arith
  session-take_turn oobs s = ground arith
