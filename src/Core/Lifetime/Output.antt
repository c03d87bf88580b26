-- ===== src/Core/Lifetime/Output.antt =====
-- The output of a session from the SSH channel to the scrollback.
use tty_gateway.Base.{
  ℕ, ◌+◌, ◌-◌, ◌^◌, Bool-cases, inl, inr, ltb, ◌<◌, ◌≤◌, ◌⊎◌, ◌≡◌, ◌≢◌, ◌∙◌, refl, sym, ap, subst,
  Bool, true, false, none, List, [], ◌∷◌, ◌++◌, Bytes, length, length-append, append-nil,
  append_assoc, arith, ltb, if◌then◌else◌,
}
use tty_gateway.Core.Scrollback.{SessionInner, Holds, fresh-Holds, append, append-Holds}
use tty_gateway.Core.Scrollback.Cuts.{concat}
use tty_gateway.Ssh.Actor.{
  ChannelMsg, output, extended, eof, gone, other, close as channel_close, round,
}
use tty_gateway.Core.Lifetime.{
  Actor, selecting, sending, over, Lifetime, output_capacity, settle, message_turn, command_turn,
  deliver_turn, ingest_end, ingest_turn, Turn, message, command, delivers, gives, ingests, clones,
  drops, turn, run, spawned,
}
use tty_gateway.Core.Lifetime.Aside.{
  held, Aside, unmoved, settle-Aside, taken-Aside, if-Aside, give-Aside, held_by,
}

-- Before the ingest task has returned, and after.
pub data Phase (l : Lifetime) : Type 0 where
  living : l.ingesting ≡ true → l.inner.closed ≡ false → Phase l
  ended : l.ingesting ≡ false → l.ssh ≡ over → l.output ≡ [] → l.inner.closed ≡ true → Phase l

-- Nothing is lost on the way.
pub record Flows (l : Lifetime) : Type 0 where
  pub whole : l.printed ≡ l.kept ++ (concat l.output ++ held l.ssh)
  pub holds : length l.kept < 2 ^ 64 → Holds l.kept l.inner
  pub phase : Phase l

pub spawned-Flows : (m : ℕ) → Flows (spawned m)
spawned-Flows m = record { whole = refl; holds = λ _. fresh-Holds m; phase = living refl refl }

Aside-Flows : (l k : Lifetime) → Aside l k → Flows l → Flows k
Aside-Flows l k a v = record {
  whole = rw (a.same_printed, a.same_kept, a.same_output, a.same_held) v.whole;
  holds = rw (a.same_kept, a.same_inner) v.holds;
  phase = elim v.phase [
    | living on unclosed ↦
        living (a.same_ingesting ∙ on) (ap (λ (s : SessionInner). s.closed) a.same_inner ∙ unclosed)
    | ended off done empty shut ↦
        ended (a.same_ingesting ∙ off) (a.still_over done) (a.same_output ∙ empty)
          (ap (λ (s : SessionInner). s.closed) a.same_inner ∙ shut)
  ];
}

-- The task is not over where it does something.
at-Phase :
    (l k : Lifetime) (a : Actor)
    → l.ssh ≡ a
    → a ≢ over
    → Phase l
    → (l.ingesting ≡ true) × (l.inner.closed ≡ false)
at-Phase l k a e n (living on unclosed) = (on, unclosed)
at-Phase l k a e n (ended off done empty shut) = absurd (n (sym e ∙ done))

read-Flows :
    (l : Lifetime) (b : Bytes)
    → l.ssh ≡ selecting
    → Flows l
    → Flows (record l { ssh = sending b; printed = l.printed ++ b })
read-Flows l b e v =
    let (on, unclosed) = at-Phase l l selecting e (λ x. cc x) v.phase in
    record {
      whole =
          ap (λ p. p ++ b) (v.whole ∙ ap (λ a. l.kept ++ (concat l.output ++ held a)) e)
          ∙ append_assoc l.kept (concat l.output ++ []) b
          ∙ ap (λ x. l.kept ++ (x ++ b)) (append-nil (concat l.output));
      holds = v.holds;
      phase = living on unclosed;
    }

message-Flows :
    (l : Lifetime) (a : Actor) (msg : ChannelMsg)
    → l.ssh ≡ a
    → Flows l
    → Flows (message_turn l a msg)
unfolding message_turn round
message-Flows l selecting (output b) e v = read-Flows l b e v
message-Flows l selecting (extended b) e v = read-Flows l b e v
message-Flows l selecting eof e v = Aside-Flows l _ (settle-Aside l [] none false e) v
message-Flows l selecting channel_close e v = Aside-Flows l _ (settle-Aside l [] none false e) v
message-Flows l selecting gone e v = Aside-Flows l _ (settle-Aside l [] none false e) v
message-Flows l selecting other e v = Aside-Flows l _ (settle-Aside l [] none true e) v
message-Flows l (sending _) msg e v = v
message-Flows l over msg e v = v

command-Flows :
    (l : Lifetime) (a : Actor) (written : Bool)
    → l.ssh ≡ a
    → Flows l
    → Flows (command_turn l a written)
unfolding command_turn
command-Flows l selecting written e v = Aside-Flows l _ (taken-Aside l l.input written e) v
command-Flows l (sending _) written e v = v
command-Flows l over written e v = v

concat-snoc : (xs : List Bytes) (b : Bytes) → concat (xs ++ (b ∷ [])) ≡ concat xs ++ b
concat-snoc [] b = append-nil b
concat-snoc (x ∷ xs) b = ap (λ l. x ++ l) (concat-snoc xs b) ∙ sym (append_assoc x (concat xs) b)

if-Flows :
    (x y : Lifetime) (b : Bool)
    → (b ≡ true → Flows x)
    → (b ≡ false → Flows y)
    → Flows (if b then x else y)
if-Flows x y true p q = p refl
if-Flows x y false p q = q refl

deliver-Flows : (l : Lifetime) (a : Actor) → l.ssh ≡ a → Flows l → Flows (deliver_turn l a)
unfolding deliver_turn round settle
deliver-Flows l (sending b) e v =
    let (on, unclosed) = at-Phase l l (sending b) e (λ x. cc x) v.phase in
    if-Flows _ _ l.ingesting
      (λ _.
        if-Flows _ l (ltb (length l.output) output_capacity)
          (λ _. record {
            whole =
                v.whole
                ∙ ap (λ a. l.kept ++ (concat l.output ++ held a)) e
                ∙ ap (λ x. l.kept ++ x) (sym (concat-snoc l.output b) ∙ sym (append-nil _));
            holds = v.holds;
            phase = living on unclosed;
          })
          (λ _. v))
      (λ off. absurd (cc (on, off)))
deliver-Flows l selecting e v = v
deliver-Flows l over e v = v

pub closed-append : (s : SessionInner) (x : Bytes) → (append s x).closed ≡ s.closed
unfolding append
closed-append s x = ground arith

ended-Flows :
    (l : Lifetime) (a : Actor) → l.ssh ≡ a → l.output ≡ [] → Flows l → Flows (ingest_end l a)
unfolding ingest_end
ended-Flows l over e empty v = record {
  whole = v.whole;
  holds = λ fits.
      let h = v.holds fits in
      record { window = h.window; start = h.start; stop = h.stop; small = h.small };
  phase = ended refl e empty refl;
}
ended-Flows l selecting e empty v = v
ended-Flows l (sending _) e empty v = v

ingest-Flows :
    (l : Lifetime) (on : Bool) (queue : List Bytes)
    → l.ingesting ≡ on
    → l.output ≡ queue
    → Flows l
    → Flows (ingest_turn l on queue)
unfolding ingest_turn
ingest-Flows l false queue e q v = v
ingest-Flows l true [] e q v = ended-Flows l l.ssh refl q v
ingest-Flows l true (b ∷ rest) e q v = record {
  whole =
      v.whole
      ∙ ap (λ o. l.kept ++ (concat o ++ held l.ssh)) q
      ∙ ap (λ x. l.kept ++ x) (append_assoc b (concat rest) (held l.ssh))
      ∙ sym (append_assoc l.kept b (concat rest ++ held l.ssh));
  holds = λ fits. append-Holds b (v.holds (omega (arith, fits, length-append l.kept b))) fits;
  phase = elim v.phase [
    | living on unclosed ↦ living on (closed-append l.inner b ∙ unclosed)
    | ended off done empty shut ↦ absurd (cc (e, off))
  ];
}

turn-Flows : (t : Turn) (l : Lifetime) → Flows l → Flows (turn t l)
unfolding turn
turn-Flows (message msg) l v = message-Flows l l.ssh msg refl v
turn-Flows (command written) l v = command-Flows l l.ssh written refl v
turn-Flows delivers l v = deliver-Flows l l.ssh refl v
turn-Flows (gives i) l v = Aside-Flows l _ (give-Aside l l.ssh i) v
turn-Flows ingests l v = ingest-Flows l l.ingesting l.output refl refl v
turn-Flows clones l v =
    Aside-Flows l _ (if-Aside l _ l (ltb 0 l.holders) (held_by (l.holders + 1) l) (unmoved l)) v
turn-Flows drops l v = Aside-Flows l _ (held_by (l.holders - 1) l) v

pub run-Flows : (ts : List Turn) (l : Lifetime) → Flows l → Flows (run ts l)
unfolding run
run-Flows [] l v = v
run-Flows (t ∷ ts) l v = run-Flows ts (turn t l) (turn-Flows t l v)

-- The way of the output from the target to the scrollback, whatever the tasks and the holders of the
-- session do in whatever order: what the SSH task has read of its channel is a beginning that has come
-- to the scrollback, followed by what waits in the channel between them and by the chunk that the SSH
-- task waits to pass on. Of that beginning, if it is fewer than 2 ^ 64 bytes, the scrollback holds the
-- last `max_bytes` bytes, with exact offsets: nothing is lost, repeated or out of order on the way.
pub printed-run :
    (max_bytes : ℕ) (ts : List Turn)
    → let l = run ts (spawned max_bytes) in
      (come : Bytes) × (l.printed ≡ come ++ (concat l.output ++ held l.ssh))
      × ((2 ^ 64 ≤ length come) ⊎ Holds come l.inner)
printed-run m ts =
    let v = run-Flows ts (spawned m) (spawned-Flows m) in
    let come = (run ts (spawned m)).kept in
    (
      come,
      v.whole,
      elim (Bool-cases (ltb (length come) (2 ^ 64))) [
        | inl fits ↦ inr (v.holds (ground (arith, fits)))
        | inr wraps ↦ inl (ground (arith, wraps))
      ],
    )

-- A session is marked closed only when its scrollback is the end of all that the SSH task has read: if
-- that was fewer than 2 ^ 64 bytes, the buffer is its last `max_bytes` bytes with exact offsets.
pub closed-Holds :
    (max_bytes : ℕ) (ts : List Turn)
    → (run ts (spawned max_bytes)).inner.closed ≡ true
    → length (run ts (spawned max_bytes)).printed < 2 ^ 64
    → Holds (run ts (spawned max_bytes)).printed (run ts (spawned max_bytes)).inner
closed-Holds m ts closed fits =
    at_end (run ts (spawned m)) (run-Flows ts (spawned m) (spawned-Flows m)) closed fits
  where
    at_end :
        (l : Lifetime)
        → Flows l
        → l.inner.closed ≡ true
        → length l.printed < 2 ^ 64
        → Holds l.printed l.inner
    at_end l v closed fits = elim v.phase [
      | living on unclosed ↦ absurd (cc (closed, unclosed))
      | ended off done empty shut ↦
          (let all : l.printed ≡ l.kept = v.whole ∙ rw (done, empty) (append-nil l.kept) in
            subst (λ h. Holds h l.inner) (sym all) (v.holds (omega (arith, fits, ap length all))))
    ]
