-- ===== src/Ssh/Actor.antt =====
-- `SshSession::spawn` of crates/gw-ssh/src/lib.rs: the task that owns the SSH channel. What
-- `tokio::select!` takes in each round, and whether the writes and sends of the task succeed, is up to
-- the environment: it is the list of events that the task is run over.
use tty_gateway.Base.{
  ℕ, Bool, true, false, Option, none, some, List, [], ◌∷◌, ◌++◌, Bytes, if◌then◌else◌, ◌≡◌, refl,
  append-nil, ap, sym,
}
use tty_gateway.Ssh.Client.{SshInput, bytes, resize}

-- `ChannelMsg`, as `channel.wait()` returns it; `gone` is its `None`.
pub data ChannelMsg : Type 0 where
  output extended : Bytes → ChannelMsg
  eof close gone other : ChannelMsg

-- One round of `select!`. `from_target` has whether `output_tx.send` succeeds, `from_client` whether
-- `write_all` does; `hung_up` is that all senders of the input are gone.
pub data Round : Type 0 where
  from_target : ChannelMsg → Bool → Round
  from_client : SshInput → Bool → Round
  hung_up : Round

-- What the task does to the channel and the output, in order. The result of `window_change` and of
-- `flush` is ignored.
pub data Effect : Type 0 where
  window_change : ℕ → ℕ → Effect
  sent_output : Bytes → Effect
  wrote : Bytes → Effect

-- `pending_resize.take()` at the top of the loop.
unfoldable pub flush_resize : Option (ℕ × ℕ) → List Effect
flush_resize none = []
flush_resize (some (cols, rows)) = window_change cols rows ∷ []

-- A round's effect, the resize that it leaves pending, and whether the loop goes on.
message : ChannelMsg → Bool → List Effect × Option (ℕ × ℕ) × Bool
message (output b) taken = (if taken then sent_output b ∷ [] else [], none, taken)
message (extended b) taken = (if taken then sent_output b ∷ [] else [], none, taken)
message eof taken = ([], none, false)
message close taken = ([], none, false)
message gone taken = ([], none, false)
message other taken = ([], none, true)

command : SshInput → Bool → List Effect × Option (ℕ × ℕ) × Bool
command (bytes b) written = (if written then wrote b ∷ [] else [], none, written)
command (resize cols rows) written = ([], some (cols, rows), true)

unfoldable pub round : Round → List Effect × Option (ℕ × ℕ) × Bool
unfolding message command
round (from_target msg taken) = message msg taken
round (from_client input written) = command input written
round hung_up = ([], none, false)

-- The loop, with the pending resize: its effects in order.
unfoldable pub actor : Option (ℕ × ℕ) → List Round → List Effect
unfolding flush_resize round
actor pending [] = flush_resize pending
actor pending (r ∷ rs) =
    let (effects, pending', more) = round r in
    let rest = actor pending' rs in flush_resize pending ++ (effects ++ (if more then rest else []))

-- What each round asks for by itself, a resize at once.
abbrev pub asked : Round → List Effect
asked (from_target (output b) true) = sent_output b ∷ []
asked (from_target (extended b) true) = sent_output b ∷ []
asked (from_client (bytes b) true) = wrote b ∷ []
asked (from_client (resize cols rows) written) = window_change cols rows ∷ []
asked _ = []

abbrev pub ends : Round → Bool
ends (from_target (output b) taken) = if taken then false else true
ends (from_target (extended b) taken) = if taken then false else true
ends (from_target other taken) = false
ends (from_target _ taken) = true
ends (from_client (bytes b) written) = if written then false else true
ends (from_client (resize cols rows) written) = false
ends hung_up = true

-- The session as its client means it: round by round, until one ends it.
abbrev pub in_order : List Round → List Effect
in_order [] = []
in_order (r ∷ rs) = let rest = in_order rs in asked r ++ (if ends r then [] else rest)

round_meaning :
    (r : Round) (rest : List Effect)
    → let (effects, pending, more) = round r in
      effects ++ (if more then flush_resize pending ++ rest else [])
      ≡ asked r ++ (if ends r then [] else rest)
unfolding round flush_resize
round_meaning (from_target (output b) true) rest = refl
round_meaning (from_target (output b) false) rest = refl
round_meaning (from_target (extended b) true) rest = refl
round_meaning (from_target (extended b) false) rest = refl
round_meaning (from_target eof true) rest = refl
round_meaning (from_target eof false) rest = refl
round_meaning (from_target close true) rest = refl
round_meaning (from_target close false) rest = refl
round_meaning (from_target gone true) rest = refl
round_meaning (from_target gone false) rest = refl
round_meaning (from_target other true) rest = refl
round_meaning (from_target other false) rest = refl
round_meaning (from_client (bytes b) true) rest = refl
round_meaning (from_client (bytes b) false) rest = refl
round_meaning (from_client (resize cols rows) true) rest = refl
round_meaning (from_client (resize cols rows) false) rest = refl
round_meaning hung_up rest = refl

actor_from :
    (pending : Option (ℕ × ℕ)) (rs : List Round)
    → actor pending rs ≡ flush_resize pending ++ in_order rs
unfolding actor
actor_from pending [] = sym (append-nil _)
actor_from pending (r ∷ rs) =
    rw (actor_from (round r).1 rs)
      (ap (◌++◌ (flush_resize pending)) (round_meaning r (in_order rs)))

-- The task does what its rounds ask for, in their order, up to the round that ends it: a resize that
-- it puts off to the top of the loop still comes before anything that follows it, none is lost, and
-- nothing is done after the end.
pub actor_lem : (rs : List Round) → actor none rs ≡ in_order rs
unfolding flush_resize
actor_lem rs = actor_from none rs
