-- ===== src/Server/Serve/Output.antt =====
-- What a connection sends its client, against what the session's shell has put out.
pub mod Turns
use mathlib.Core.List.{Sublist, sublist-append_right, sublist-append_left}
use mathlib.Core.List.Sublist
use tty_gateway.Base.{
  drop, drop-drop, take-length, take-take, ◌+◌, ℕ, ◌-◌, ◌≤◌, ◌≡◌, ◌∙◌, refl, sym, ap, subst, Bool,
  true, false, Option, none, some, List, [], ◌∷◌, ◌++◌, Bytes, Text, length, arith, inl, inr,
  Bool-cases, get_elem?, if◌then◌else◌, take, append-nil, append_assoc, length-append,
  take-append-drop, take_all, take-append_le, ltb, max,
}
use tty_gateway.Base.Results.{Result, ok, err}
use tty_gateway.Proto.Frame.{
  ClientFrame, hello, open_shell, input, resize, sign_response, ping, close, ServerFrame, output,
  ended,
}
use tty_gateway.Core.Scrollback.{SessionInner, Holds}
use tty_gateway.Core.Registry.{Session}
use tty_gateway.Core.Reader.{Polled, chunk, finished, waiting, panicked, poll, answer, poll-answer}
use tty_gateway.Quota.Float.{Float}
use tty_gateway.Quota.Meter.{add_out}
use tty_gateway.Ssh.Client.{SshInput, bytes}
use tty_gateway.Server.Conn.{Event, sent, forwarded, Conn, Env, recv, send}
use tty_gateway.Server.Conn.Says.{recv-log, send-log}
use tty_gateway.Server.Serve.Usage.{send_input-log}
use tty_gateway.Server.Serve.Oob.{Pongs}
use tty_gateway.Server.Serve.{
  Outcome, Sending, selecting, throttled, stopped, throttle, Serving, offer_pong, received,
  send_input, receiver_round, receiver_turn, after_send, polled, throttle_turn, next_chunk,
  chunk_turn, oob_turn, Turn, receiver, chunks, oobs, take_turn,
}

abbrev pub shown : Event → Bytes
shown (sent (output b)) = b
shown _ = []

-- The output in the frames of a log.
abbrev pub outputs : List Event → Bytes
outputs [] = []
outputs (e ∷ es) = shown e ++ outputs es

-- The chunk that the sender task holds back.
abbrev pub held : Sending → Bytes
held (throttled b) = b
held _ = []

pub outputs-append : (xs ys : List Event) → outputs (xs ++ ys) ≡ outputs xs ++ outputs ys
outputs-append [] ys = refl
outputs-append (x ∷ xs) ys =
    ap (λ l. shown x ++ l) (outputs-append xs ys)
    ∙ sym (append_assoc (shown x) (outputs xs) (outputs ys))

abbrev pub payload : Polled → Bytes
payload (chunk b) = b
payload _ = []

-- What a check by the reader adds: a part of the output that it moves over, and all of it as long as
-- nothing was trimmed.
pub record Answered (max_bytes : ℕ) (h : Bytes) (cursor : ℕ) (r : Polled × ℕ) : Type 0 where
  pub part : Sublist (take cursor h ++ payload r.0) (take r.1 h)
  pub behind : r.1 ≤ length h
  pub exact : length h ≤ max_bytes → take r.1 h ≡ take cursor h ++ payload r.0

drop-sublist : (n : ℕ) (h : Bytes) → Sublist (drop n h) h
drop-sublist n h =
    subst (Sublist (drop n h)) (take-append-drop n h) (sublist-append_right (take n h) (drop n h))

-- What follows `from` is a part of what follows `cursor`.
later-part :
    (h : Bytes) (cursor from : ℕ) → cursor ≤ from → Sublist (take cursor h ++ drop from h) h
later-part h cursor from le =
    subst (Sublist (take cursor h ++ drop from h)) (take-append-drop cursor h) (
      Sublist.append (Sublist.refl (take cursor h)) (
        subst (λ d. Sublist d (drop cursor h))
          (drop-drop (from - cursor) cursor h ∙ ap (λ k. drop k h) (omega arith))
          (drop-sublist (from - cursor) (drop cursor h))))

-- A longer beginning.
take-part : (h : Bytes) (cursor from : ℕ) → cursor ≤ from → Sublist (take cursor h) (take from h)
take-part h cursor from le =
    subst (λ t. Sublist t (take from h)) (take-take cursor from h le)
      (take-sublist cursor (take from h))
  where
    take-sublist : (n : ℕ) (x : Bytes) → Sublist (take n x) x
    take-sublist n x =
        subst (Sublist (take n x)) (take-append-drop n x)
          (sublist-append_left (take n x) (drop n x))

pub answer-Answered :
    (h : Bytes) (s : SessionInner) (cursor : ℕ)
    → cursor ≤ length h
    → Answered s.max_bytes h cursor (answer h s cursor)
answer-Answered h s cursor behind =
    let from : ℕ = max cursor (length h - s.max_bytes) in
    elim (Bool-cases (ltb from (length h))) [
      | inl more ↦ rw more (record {
        part =
            subst (Sublist (take cursor h ++ drop from h)) (sym (take-length h))
              (later-part h cursor from (omega arith));
        behind = omega arith;
        exact = λ small.
            take-length h
            ∙ sym (take-append-drop cursor h)
            ∙ ap (λ k. take cursor h ++ drop k h) (omega (arith, small));
      })
      | inr up ↦ rw up (no_more s.closed)
    ]
  where
    from : ℕ
    from = max cursor (length h - s.max_bytes)

    part : Sublist (take cursor h ++ []) (take from h)
    part =
        subst (λ t. Sublist t (take from h)) (sym (append-nil (take cursor h)))
          (take-part h cursor from (omega arith))

    exact : length h ≤ s.max_bytes → take from h ≡ take cursor h ++ []
    exact small = ap (λ k. take k h) (omega (arith, small)) ∙ sym (append-nil (take cursor h))

    no_more :
        (closed : Bool)
        → Answered s.max_bytes h cursor
            (if closed then finished else waiting, max cursor (length h - s.max_bytes))
    no_more true = record { part = part; behind = omega (arith, behind); exact = exact }
    no_more false = record { part = part; behind = omega (arith, behind); exact = exact }

module _ {W Tx H C K P : Type 0} (f : Float) (now : W → ℕ) (env : Env W Tx H C K P) where
  abbrev Served : Type 0
  Served = Serving f now env

  abbrev pub all_output : Served → Bytes
  all_output s = outputs s.conn.log ++ held s.sending

  -- All that was sent or is held back is a part of the output up to the cursor, and all of it as long
  -- as the output fits the scrollback.
  pub record Reads (max_bytes : ℕ) (h : Bytes) (s : Served) : Type 0 where
    pub part : Sublist (all_output s) (take s.reader.cursor h)
    pub behind : s.reader.cursor ≤ length h
    pub exact : length h ≤ max_bytes → all_output s ≡ take s.reader.cursor h

  -- A step that leaves reading alone.
  pub record Aside (s t : Served) : Type 0 where
    pub same_output : all_output t ≡ all_output s
    pub same_reader : t.reader ≡ s.reader

  pub Aside-Reads : (m : ℕ) (h : Bytes) (s t : Served) → Aside s t → Reads m h s → Reads m h t
  Aside-Reads m h s t a r = record {
    part = rw (a.same_output, a.same_reader) r.part;
    behind = rw a.same_reader r.behind;
    exact = rw (a.same_output, a.same_reader) r.exact;
  }

  pub unchanged : (s : Served) → Aside s s
  unchanged s = record { same_output = refl; same_reader = refl }

  -- More output does not change what was read.
  pub grown-Reads : (m : ℕ) (h out : Bytes) (s : Served) → Reads m h s → Reads m (h ++ out) s
  grown-Reads m h out s r =
      let same = sym (take-append_le s.reader.cursor h out r.behind) in
      record {
        part = subst (Sublist (all_output s)) same r.part;
        behind = omega (arith, length-append h out, r.behind);
        exact = λ small. r.exact (omega (arith, length-append h out, small)) ∙ same;
      }
