-- ===== src/Base/Texts.antt =====
-- Byte strings and texts. A Rust `String` is its UTF-8 bytes, so both are lists of numbers.
use Prim.Native.Nat.{ℕ, zero, suc, ◌+◌, ◌/◌, ◌%◌}
use Prim.Native.Char.{code}
use Prim.Native.String.{String}
use mathlib.Core.List.{List, [], ◌∷◌, ◌++◌}
use tty_gateway.Base.Tests.{ltb, if◌then◌else◌}

abbrev pub Bytes : Type 0
Bytes = List ℕ

abbrev pub Text : Type 0
Text = List ℕ

-- The bytes of an ASCII literal.
abbrev pub codes : String → Text
codes String.[] = []
codes (String.◌∷◌ c s) = code c ∷ codes s

-- `n` in decimal, for `n` below 10 ^ digits.
unfoldable pub decimal_digits : ℕ → ℕ → Text
decimal_digits zero n = []
decimal_digits (suc d) n =
    let front = decimal_digits d (n / 10) in
    if ltb n 10 then (48 + n) ∷ [] else front ++ (48 + n % 10) ∷ []

-- `to_string` of an unsigned integer; 39 digits hold a u128.
unfoldable pub decimal : ℕ → Text
unfolding decimal_digits
decimal n = decimal_digits 39 n
