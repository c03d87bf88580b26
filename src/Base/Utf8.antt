-- ===== src/Base/Utf8.antt =====
-- `String::from_utf8` and `String::from_utf8_lossy`, as state machines over the bytes. A state has how
-- many continuation bytes are due, and the range of the next one.
use Prim.Native.Nat.{ℕ, zero, suc, ◌-◌}
use mathlib.Core.Bool.{Bool, true, false, ◌&&◌}
use mathlib.Core.List.{[], ◌∷◌, ◌++◌}
use tty_gateway.Base.Tests.{ltb, leb, if◌then◌else◌, ◌==◌}
use tty_gateway.Base.Texts.{Bytes, Text}
use tty_gateway.Base.Results.{Result, ok, err}

pub record State : Type 0 where
  pub due : ℕ
  pub low : ℕ
  pub high : ℕ

abbrev pub ready : State
ready = record { due = 0; low = 0; high = 0 }

-- `count` continuation bytes are due, the next one from `low` to `high`.
abbrev due_in : ℕ → ℕ → ℕ → Result (Unit {0}) State
due_in count low high = ok (record { due = count; low = low; high = high })

-- The state after a first byte, or an error if no character begins with it.
unfoldable pub lead : ℕ → Result (Unit {0}) State
lead b =
    if ltb b 0x80
    then ok ready
    else if ltb b 0xc2
    then err tt
    else if ltb b 0xe0
    then due_in 1 0x80 0xbf
    else if b == 0xe0
    then due_in 2 0xa0 0xbf
    else if b == 0xed
    then due_in 2 0x80 0x9f
    else if ltb b 0xf0
    then due_in 2 0x80 0xbf
    else if b == 0xf0
    then due_in 3 0x90 0xbf
    else if ltb b 0xf4
    then due_in 3 0x80 0xbf
    else if b == 0xf4
    then due_in 3 0x80 0x8f
    else err tt

abbrev pub in_range : State → ℕ → Bool
in_range s b = leb s.low b && leb b s.high

-- The state after a continuation byte.
abbrev pub shift : ℕ → State
shift left = record { due = left; low = 0x80; high = 0xbf }

-- Whether the bytes go on as UTF-8 from a state.
unfoldable pub valid_from : ℕ → ℕ → ℕ → Bytes → Bool
unfolding lead
valid_from zero low high [] = true
valid_from (suc n) low high [] = false
valid_from zero low high (b ∷ bs) = elim (lead b) [
  | ok s ↦ valid_from s.due s.low s.high bs
  | err _ ↦ false
]
valid_from (suc n) low high (b ∷ bs) =
    let rest = valid_from n 0x80 0xbf bs in if leb low b && leb b high then rest else false

unfoldable pub is_utf8 : Bytes → Bool
unfolding valid_from
is_utf8 = valid_from 0 0 0

-- `String::from_utf8`
unfoldable pub from_utf8 : Bytes → Result (Unit {0}) Text
unfolding is_utf8
from_utf8 bytes = if is_utf8 bytes then ok bytes else err tt

-- U+FFFD in UTF-8.
abbrev replacement : Text
replacement = 0xef ∷ 0xbf ∷ 0xbd ∷ []

-- The state, and the bytes of a character that is not complete.
record Decoder : Type 0 where
  state : State
  held : Bytes

abbrev idle : Decoder
idle = record { state = ready; held = [] }

-- A byte between characters: what it adds to the text.
begins : ℕ → Text × Decoder
unfolding lead
begins b = elim (lead b) [
  | ok s ↦ if s.due == 0 then (b ∷ [], idle) else ([], record { state = s; held = b ∷ [] })
  | err _ ↦ (replacement, idle)
]

feed : Decoder → ℕ → Text × Decoder
unfolding begins
feed d b =
    let (fresh, next) = begins b in
    if d.state.due == 0
    then (fresh, next)
    else if in_range d.state b
    then (if d.state.due == 1
        then (d.held ++ (b ∷ []), idle)
        else ([], record { state = shift (d.state.due - 1); held = d.held ++ (b ∷ []) }))
    else (replacement ++ fresh, next)

lossy_from : Decoder → Bytes → Text
unfolding feed
lossy_from d [] = if d.state.due == 0 then [] else replacement
lossy_from d (b ∷ bs) = let (out, next) = feed d b in out ++ lossy_from next bs

-- `String::from_utf8_lossy`: each longest part of a character that goes no further is replaced.
unfoldable pub from_utf8_lossy : Bytes → Text
unfolding lossy_from
from_utf8_lossy = lossy_from idle
