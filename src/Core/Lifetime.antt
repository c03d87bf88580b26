-- ===== src/Core/Lifetime.antt =====
-- A session and its SSH task, from `Session::spawn` of crates/gw-core/src/lib.rs and
-- `SshSession::spawn` of crates/gw-ssh/src/lib.rs to the end: the channels between them, and who holds
-- the session. A turn is what the SSH task, the ingest task or a holder does up to its next wait.
pub mod Aside
pub mod Output
pub mod Input
pub mod Held
pub mod Ends
mod Tests
use tty_gateway.Base.{
  ℕ, ◌+◌, ◌-◌, Bool, true, false, Option, none, some, List, [], ◌∷◌, ◌++◌, Bytes, length, ltb,
  if◌then◌else◌,
}
use tty_gateway.Core.Scrollback.{SessionInner, fresh, append, close}
use tty_gateway.Ssh.Client.{SshInput}
use tty_gateway.Ssh.Actor.{
  ChannelMsg, output, extended, eof, gone, other, close as channel_close, Round, from_target,
  from_client, hung_up, Effect, flush_resize, round,
}

-- The capacities of the two channels.
abbrev pub input_capacity : ℕ
input_capacity = 64

abbrev pub output_capacity : ℕ
output_capacity = 256

-- Where the SSH task is.
pub data Actor : Type 0 where
  selecting : Actor
  -- in `output_tx.send`
  sending : Bytes → Actor
  -- it has returned, so that its ends of the channels are gone
  over : Actor

pub record Lifetime : Type 0 where
  pub ssh : Actor
  -- what waits in the channels
  pub input : List SshInput
  pub output : List Bytes
  pub inner : SessionInner
  -- The ingest task runs. It holds the session.
  pub ingesting : Bool
  -- the other `Arc`s of the session: that of the registry, and those of connections
  pub holders : ℕ
  -- What the SSH task has done, what it has read from its channel, what the ingest task has taken in
  -- and what `send_input` has accepted; only the theorems read these.
  pub effects : List Effect
  pub printed : Bytes
  pub kept : Bytes
  pub given : List SshInput

pub data Turn : Type 0 where
  -- `channel.wait()` in `select!`
  message : ChannelMsg → Turn
  -- `input_rx.recv()` in `select!`, with whether `write_all` succeeds
  command : Bool → Turn
  -- `output_tx.send`
  delivers : Turn
  -- a holder calls `send_input`
  gives : SshInput → Turn
  -- `output.recv()` of the ingest task
  ingests : Turn
  -- a holder clones its `Arc`, or drops it
  clones drops : Turn

-- The session exists, and with it the sender of its input.
abbrev pub is_held : Lifetime → Bool
is_held l = if l.ingesting then true else ltb 0 l.holders

-- The end of a round: the loop ends, or goes on and sends a resize that is due.
pub settle : Lifetime → List Effect × Option (ℕ × ℕ) × Bool → Lifetime
unfolding flush_resize
settle l (effects, pending, true) = record l {
  ssh = selecting;
  effects = l.effects ++ (effects ++ flush_resize pending);
}
settle l (effects, pending, false) = record l { ssh = over; effects = l.effects ++ effects }

message_turn : Lifetime → Actor → ChannelMsg → Lifetime
unfolding settle round
message_turn l selecting (output b) = record l { ssh = sending b; printed = l.printed ++ b }
message_turn l selecting (extended b) = record l { ssh = sending b; printed = l.printed ++ b }
message_turn l selecting msg = settle l (round (from_target msg true))
message_turn l _ msg = l

-- The next input, or the end of the channel.
pub taken : Lifetime → List SshInput → Bool → Lifetime
unfolding settle round
taken l [] written = if is_held l then l else settle l (round hung_up)
taken l (i ∷ rest) written = settle (record l { input = rest }) (round (from_client i written))

command_turn : Lifetime → Actor → Bool → Lifetime
unfolding taken
command_turn l selecting written = taken l l.input written
command_turn l _ written = l

-- The send fails when the receiver, which the ingest task has, is gone.
deliver_turn : Lifetime → Actor → Lifetime
unfolding settle round
deliver_turn l (sending b) =
    if l.ingesting
    then (if ltb (length l.output) output_capacity
        then settle (record l { output = l.output ++ (b ∷ []) })
            (round (from_target (output b) true))
        else l)
    else settle l (round (from_target (output b) false))
deliver_turn l _ = l

-- `send_input` waits while the channel is full, and fails when the SSH task is gone.
pub give_turn : Lifetime → Actor → SshInput → Lifetime
give_turn l over i = l
give_turn l _ i =
    if ltb 0 l.holders
    then (if ltb (length l.input) input_capacity
        then record l { input = l.input ++ (i ∷ []); given = l.given ++ (i ∷ []) }
        else l)
    else l

ingest_end : Lifetime → Actor → Lifetime
ingest_end l over = record l { inner = close l.inner; ingesting = false }
ingest_end l _ = l

-- The next message, or the end of the channel.
ingest_turn : Lifetime → Bool → List Bytes → Lifetime
unfolding ingest_end
ingest_turn l false queue = l
ingest_turn l true [] = ingest_end l l.ssh
ingest_turn l true (b ∷ rest) = record l {
  output = rest;
  inner = append l.inner b;
  kept = l.kept ++ b;
}

unfoldable pub turn : Turn → Lifetime → Lifetime
unfolding message_turn command_turn deliver_turn give_turn ingest_turn
turn (message msg) l = message_turn l l.ssh msg
turn (command written) l = command_turn l l.ssh written
turn delivers l = deliver_turn l l.ssh
turn (gives i) l = give_turn l l.ssh i
turn ingests l = ingest_turn l l.ingesting l.output
turn clones l = if ltb 0 l.holders then record l { holders = l.holders + 1 } else l
turn drops l = record l { holders = l.holders - 1 }

unfoldable pub run : List Turn → Lifetime → Lifetime
unfolding turn
run [] l = l
run (t ∷ ts) l = run ts (turn t l)

-- After `Session::spawn`, with the `Arc` that it returns.
abbrev pub spawned : ℕ → Lifetime
spawned max_bytes = record {
  ssh = selecting;
  input = [];
  output = [];
  inner = fresh max_bytes;
  ingesting = true;
  holders = 1;
  effects = [];
  printed = [];
  kept = [];
  given = [];
}
