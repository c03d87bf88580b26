-- ===== src/Core/Lifetime/Input.antt =====
-- The input of a session from `send_input` to the SSH channel.
use tty_gateway.Base.{
  ℕ, ◌≡◌, ◌≢◌, ◌∙◌, refl, sym, ap, ◌⊎◌, Bool, true, false, Option, none, some, List, [], ◌∷◌, ◌++◌,
  Bytes, length, append-nil, append_assoc, ltb, if◌then◌else◌, inl, inr,
}
use tty_gateway.Ssh.Client.{SshInput, bytes, resize}
use tty_gateway.Ssh.Actor.{
  ChannelMsg, output, extended, eof, gone, other, close as channel_close, Effect, window_change,
  sent_output, wrote, round, flush_resize,
}
use tty_gateway.Core.Lifetime.{
  Actor, selecting, sending, over, Lifetime, input_capacity, output_capacity, is_held, settle,
  message_turn, taken, command_turn, deliver_turn, give_turn, ingest_end, ingest_turn, Turn,
  message, command, delivers, gives, ingests, clones, drops, turn, run, spawned,
}

-- The inputs that effects on the SSH channel carry out.
abbrev pub requests : List Effect → List SshInput
requests [] = []
requests (window_change cols rows ∷ es) = resize cols rows ∷ requests es
requests (wrote b ∷ es) = bytes b ∷ requests es
requests (sent_output _ ∷ es) = requests es

requests-append : (xs ys : List Effect) → requests (xs ++ ys) ≡ requests xs ++ requests ys
requests-append [] ys = refl
requests-append (window_change cols rows ∷ xs) ys =
    ap (λ l. resize cols rows ∷ l) (requests-append xs ys)
requests-append (wrote b ∷ xs) ys = ap (λ l. bytes b ∷ l) (requests-append xs ys)
requests-append (sent_output _ ∷ xs) ys = requests-append xs ys

-- What was accepted was carried out in order, and the rest waits in the channel unless the SSH task is
-- over.
pub record Applied (l : Lifetime) : Type 0 where
  pub rest : List SshInput
  pub order : l.given ≡ requests l.effects ++ rest
  pub queued : (l.ssh ≡ over) ⊎ (rest ≡ l.input)

in_order : (l : Lifetime) → l.given ≡ requests l.effects ++ l.input → Applied l
in_order l e = record { rest = l.input; order = e; queued = inr refl }

running :
    (l : Lifetime) (a : Actor)
    → l.ssh ≡ a
    → a ≢ over
    → Applied l
    → l.given ≡ requests l.effects ++ l.input
running l a e n v = elim v.queued [
  | inl done ↦ absurd (n (sym e ∙ done))
  | inr same ↦ v.order ∙ ap (λ r. requests l.effects ++ r) same
]

-- A round that goes on, and one that ends the loop.
settle_on :
    (l : Lifetime) (effects : List Effect) (pending : Option (ℕ × ℕ))
    → l.given ≡ requests l.effects ++ (requests (effects ++ flush_resize pending) ++ l.input)
    → Applied (settle l (effects, pending, true))
unfolding settle
settle_on l effects pending e = in_order _ (
    e
    ∙ sym (append_assoc (requests l.effects) _ l.input)
    ∙ ap (λ r. r ++ l.input) (sym (requests-append l.effects (effects ++ flush_resize pending))))

settle_off :
    (l : Lifetime) (rest : List SshInput)
    → l.given ≡ requests l.effects ++ rest
    → Applied (settle l ([], none, false))
unfolding settle
settle_off l rest e = record {
  rest = rest;
  order = e ∙ ap (λ x. requests x ++ rest) (sym (append-nil l.effects));
  queued = inl refl;
}

message-Applied :
    (l : Lifetime) (a : Actor) (msg : ChannelMsg)
    → l.ssh ≡ a
    → Applied l
    → Applied (message_turn l a msg)
unfolding message_turn round flush_resize
message-Applied l selecting (output b) e v = in_order _ (running l selecting e (λ x. cc x) v)
message-Applied l selecting (extended b) e v = in_order _ (running l selecting e (λ x. cc x) v)
message-Applied l selecting eof e v = settle_off l v.rest v.order
message-Applied l selecting channel_close e v = settle_off l v.rest v.order
message-Applied l selecting gone e v = settle_off l v.rest v.order
message-Applied l selecting other e v = settle_on l [] none (running l selecting e (λ x. cc x) v)
message-Applied l (sending _) msg e v = v
message-Applied l over msg e v = v

if-Applied : (x y : Lifetime) (b : Bool) → Applied x → Applied y → Applied (if b then x else y)
if-Applied x y true p q = p
if-Applied x y false p q = q

taken-Applied :
    (l : Lifetime) (queue : List SshInput) (written : Bool)
    → l.given ≡ requests l.effects ++ queue
    → Applied l
    → Applied (taken l queue written)
unfolding taken round flush_resize
taken-Applied l [] written e v = if-Applied l _ (is_held l) v (settle_off l [] e)
taken-Applied l (bytes b ∷ rest) true e v =
    settle_on (record l { input = rest }) (wrote b ∷ []) none e
taken-Applied l (bytes b ∷ rest) false e v =
    settle_off (record l { input = rest }) (bytes b ∷ rest) e
taken-Applied l (resize cols rows ∷ rest) written e v =
    settle_on (record l { input = rest }) [] (some (cols, rows)) e

command-Applied :
    (l : Lifetime) (a : Actor) (written : Bool)
    → l.ssh ≡ a
    → Applied l
    → Applied (command_turn l a written)
unfolding command_turn
command-Applied l selecting written e v =
    taken-Applied l l.input written (running l selecting e (λ x. cc x) v) v
command-Applied l (sending _) written e v = v
command-Applied l over written e v = v

deliver-Applied : (l : Lifetime) (a : Actor) → l.ssh ≡ a → Applied l → Applied (deliver_turn l a)
unfolding deliver_turn round flush_resize
deliver-Applied l (sending b) e v =
    let now = running l (sending b) e (λ x. cc x) v in
    if-Applied _ _ l.ingesting
      (if-Applied _ l (ltb (length l.output) output_capacity)
        (settle_on (record l { output = l.output ++ (b ∷ []) }) (sent_output b ∷ []) none now) v)
      (settle_off l l.input now)
deliver-Applied l selecting e v = v
deliver-Applied l over e v = v

accepted :
    (l : Lifetime) (i : SshInput)
    → l.given ≡ requests l.effects ++ l.input
    → Applied (record l { input = l.input ++ (i ∷ []); given = l.given ++ (i ∷ []) })
accepted l i e =
    in_order _ (ap (λ g. g ++ (i ∷ [])) e ∙ append_assoc (requests l.effects) l.input (i ∷ []))

offered :
    (l : Lifetime) (i : SshInput) (a : Actor)
    → l.ssh ≡ a
    → a ≢ over
    → Applied l
    → Applied (give_turn l a i)
unfolding give_turn
offered l i over e n v = absurd (n refl)
offered l i selecting e n v =
    if-Applied _ l (ltb 0 l.holders)
      (if-Applied _ l (ltb (length l.input) input_capacity)
        (accepted l i (running l selecting e n v)) v)
      v
offered l i (sending b) e n v =
    if-Applied _ l (ltb 0 l.holders)
      (if-Applied _ l (ltb (length l.input) input_capacity)
        (accepted l i (running l (sending b) e n v)) v)
      v

give-Applied :
    (l : Lifetime) (a : Actor) (i : SshInput) → l.ssh ≡ a → Applied l → Applied (give_turn l a i)
unfolding give_turn
give-Applied l over i e v = v
give-Applied l selecting i e v = offered l i selecting e (λ x. cc x) v
give-Applied l (sending b) i e v = offered l i (sending b) e (λ x. cc x) v

ingest-Applied :
    (l : Lifetime) (on : Bool) (queue : List Bytes) → Applied l → Applied (ingest_turn l on queue)
unfolding ingest_turn ingest_end
ingest-Applied l false queue v = v
ingest-Applied l true [] v = at_end l l.ssh v
  where
    at_end : (l : Lifetime) (a : Actor) → Applied l → Applied (ingest_end l a)
    at_end l over v = record { rest = v.rest; order = v.order; queued = v.queued }
    at_end l selecting v = v
    at_end l (sending _) v = v
ingest-Applied l true (b ∷ rest) v = record { rest = v.rest; order = v.order; queued = v.queued }

turn-Applied : (t : Turn) (l : Lifetime) → Applied l → Applied (turn t l)
unfolding turn ingest_end
turn-Applied (message msg) l v = message-Applied l l.ssh msg refl v
turn-Applied (command written) l v = command-Applied l l.ssh written refl v
turn-Applied delivers l v = deliver-Applied l l.ssh refl v
turn-Applied (gives i) l v = give-Applied l l.ssh i refl v
turn-Applied ingests l v = ingest-Applied l l.ingesting l.output v
turn-Applied clones l v =
    if-Applied _ l (ltb 0 l.holders) (record { rest = v.rest; order = v.order; queued = v.queued })
      v
turn-Applied drops l v = record { rest = v.rest; order = v.order; queued = v.queued }

-- The way of the input from the clients to the target, whatever the tasks and the holders of the
-- session do in whatever order: what `send_input` has accepted, keystrokes and resizes alike, is what
-- the SSH task has written and resized, in the order in which it was given and each once, followed by a
-- rest; and as long as the SSH task is not over that rest is what still waits in the channel.
pub run-Applied : (max_bytes : ℕ) (ts : List Turn) → Applied (run ts (spawned max_bytes))
unfolding run
run-Applied m ts = after ts (spawned m) (in_order (spawned m) refl)
  where
    after : (ts : List Turn) (l : Lifetime) → Applied l → Applied (run ts l)
    after [] l v = v
    after (t ∷ ts) l v = after ts (turn t l) (turn-Applied t l v)
