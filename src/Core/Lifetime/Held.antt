-- ===== src/Core/Lifetime/Held.antt =====
-- Who keeps a session alive.
use tty_gateway.Base.{
  ℕ, ◌≡◌, ◌≢◌, ◌∙◌, refl, Bool, true, false, List, [], ◌∷◌, Bytes, All, length, ltb, if◌then◌else◌,
}
use tty_gateway.Core.Lifetime.Output.{closed-append}
use tty_gateway.Ssh.Client.{SshInput, bytes, resize}
use tty_gateway.Ssh.Actor.{
  ChannelMsg, output, extended, eof, gone, close as channel_close, other, round,
}
use tty_gateway.Core.Lifetime.{
  Actor, selecting, sending, over, Lifetime, input_capacity, output_capacity, is_held, settle,
  message_turn, taken, command_turn, deliver_turn, give_turn, ingest_end, ingest_turn, Turn,
  message, command, delivers, gives, ingests, clones, drops, turn, run, spawned,
}

-- Neither does the target end the channel, nor does a write to it fail.
pub data IsBenign : Turn → Type 0 where
  prints : (b : Bytes) → IsBenign (message (output b))
  prints_error : (b : Bytes) → IsBenign (message (extended b))
  says : IsBenign (message other)
  writes : IsBenign (command true)
  delivering : IsBenign delivers
  giving : (i : SshInput) → IsBenign (gives i)
  ingesting : IsBenign ingests
  cloning : IsBenign clones
  dropping : IsBenign drops

record IsAlive (l : Lifetime) : Type 0 where
  runs : l.ssh ≢ over
  ingesting : l.ingesting ≡ true
  unclosed : l.inner.closed ≡ false

if-IsAlive : (x y : Lifetime) (b : Bool) → IsAlive x → IsAlive y → IsAlive (if b then x else y)
if-IsAlive x y true p q = p
if-IsAlive x y false p q = q

-- A test that is known to hold.
on_only : (b : Bool) → b ≡ true → (x y : Lifetime) → IsAlive x → IsAlive (if b then x else y)
on_only true e x y p = p
on_only false e x y p = absurd (cc e)

goes_on :
    (l k : Lifetime)
    → k.ssh ≢ over
    → k.ingesting ≡ l.ingesting
    → k.inner.closed ≡ l.inner.closed
    → IsAlive l
    → IsAlive k
goes_on l k r i c v = record { runs = r; ingesting = i ∙ v.ingesting; unclosed = c ∙ v.unclosed }

message-IsAlive :
    (l : Lifetime) (a : Actor) (msg : ChannelMsg)
    → IsBenign (message msg)
    → IsAlive l
    → IsAlive (message_turn l a msg)
unfolding message_turn round settle
message-IsAlive l (sending _) msg b v = v
message-IsAlive l over msg b v = v
message-IsAlive l selecting (output b) _ v = goes_on l _ (λ x. cc x) refl refl v
message-IsAlive l selecting (extended b) _ v = goes_on l _ (λ x. cc x) refl refl v
message-IsAlive l selecting eof b v = elim b [ ]
message-IsAlive l selecting gone b v = elim b [ ]
message-IsAlive l selecting channel_close b v = elim b [ ]
message-IsAlive l selecting other _ v = goes_on l _ (λ x. cc x) refl refl v

-- The ingest task holds the session, and so the sender of the input: the channel does not end.
taken-IsAlive : (l : Lifetime) (queue : List SshInput) → IsAlive l → IsAlive (taken l queue true)
unfolding taken round settle
taken-IsAlive l [] v = on_only (is_held l) (rw v.ingesting refl) l _ v
taken-IsAlive l (bytes b ∷ rest) v = goes_on l _ (λ x. cc x) refl refl v
taken-IsAlive l (resize cols rows ∷ rest) v = goes_on l _ (λ x. cc x) refl refl v

command-IsAlive : (l : Lifetime) (a : Actor) → IsAlive l → IsAlive (command_turn l a true)
unfolding command_turn
command-IsAlive l selecting v = taken-IsAlive l l.input v
command-IsAlive l (sending _) v = v
command-IsAlive l over v = v

-- The ingest task has the receiver: the send does not fail.
deliver-IsAlive : (l : Lifetime) (a : Actor) → IsAlive l → IsAlive (deliver_turn l a)
unfolding deliver_turn round settle
deliver-IsAlive l (sending b) v =
    on_only l.ingesting v.ingesting _ _ (
      if-IsAlive _ l (ltb (length l.output) output_capacity) (goes_on l _ (λ x. cc x) refl refl v)
        v)
deliver-IsAlive l selecting v = v
deliver-IsAlive l over v = v

give-IsAlive :
    (l : Lifetime) (a : Actor) (i : SshInput) → l.ssh ≡ a → IsAlive l → IsAlive (give_turn l a i)
unfolding give_turn
give-IsAlive l over i e v = v
give-IsAlive l selecting i e v =
    if-IsAlive _ l (ltb 0 l.holders)
      (if-IsAlive _ l (ltb (length l.input) input_capacity) (goes_on l _ v.runs refl refl v) v) v
give-IsAlive l (sending _) i e v =
    if-IsAlive _ l (ltb 0 l.holders)
      (if-IsAlive _ l (ltb (length l.input) input_capacity) (goes_on l _ v.runs refl refl v) v) v

ingest-IsAlive :
    (l : Lifetime) (on : Bool) (queue : List Bytes) (a : Actor)
    → l.ssh ≡ a
    → IsAlive l
    → IsAlive (ingest_turn l on queue)
unfolding ingest_turn
ingest-IsAlive l false queue a e v = v
ingest-IsAlive l true [] a e v = not_ended l l.ssh refl v
  where
    not_ended : (l : Lifetime) (a : Actor) → l.ssh ≡ a → IsAlive l → IsAlive (ingest_end l a)
    not_ended l over e v = absurd (v.runs e)
    not_ended l selecting e v = v
    not_ended l (sending _) e v = v
ingest-IsAlive l true (b ∷ rest) a e v = goes_on l _ v.runs refl (closed-append l.inner b) v

turn-IsAlive : (t : Turn) (l : Lifetime) → IsBenign t → IsAlive l → IsAlive (turn t l)
unfolding turn ingest_end
turn-IsAlive (message msg) l b v = message-IsAlive l l.ssh msg b v
turn-IsAlive (command false) l b v = elim b [ ]
turn-IsAlive (command true) l b v = command-IsAlive l l.ssh v
turn-IsAlive delivers l b v = deliver-IsAlive l l.ssh v
turn-IsAlive (gives i) l b v = give-IsAlive l l.ssh i refl v
turn-IsAlive ingests l b v = ingest-IsAlive l l.ingesting l.output l.ssh refl v
turn-IsAlive clones l b v = if-IsAlive _ l (ltb 0 l.holders) (goes_on l _ v.runs refl refl v) v
turn-IsAlive drops l b v = goes_on l _ v.runs refl refl v

-- A session lives until the target ends it. Whatever the tasks and the holders of the session do, and
-- also when the registry and every connection have dropped it, the SSH task goes on and the session is
-- not marked closed, as long as the target does not end the channel and no write to it fails: the ingest
-- task holds the session, and with it the sender that the SSH task waits for.
pub run-runs :
    (max_bytes : ℕ) (ts : List Turn)
    → All IsBenign ts
    → ((run ts (spawned max_bytes)).ssh ≢ over)
      × ((run ts (spawned max_bytes)).inner.closed ≡ false)
unfolding run
run-runs m ts benign =
    let v =
      after ts (spawned m) benign
        (record { runs = λ x. cc x; ingesting = refl; unclosed = refl }) in
    (v.runs, v.unclosed)
  where
    after : (ts : List Turn) (l : Lifetime) → All IsBenign ts → IsAlive l → IsAlive (run ts l)
    after [] l b v = v
    after (t ∷ ts) l (b, bs) v = after ts (turn t l) bs (turn-IsAlive t l b v)
