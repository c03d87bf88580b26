-- ===== src/Quota/Float/Rounds.antt =====
-- Arithmetic that rounds, as that of `f64` does: how far its results are from the exact ones. Numbers
-- are read in billionths, and negative ones as 0.
use tty_gateway.Base.{
  Bool-cases, ℕ, ◌+◌, ◌-◌, ◌*◌, ◌≤◌, ◌≡◌, ◌⊎◌, refl, inl, inr, true, false, min, arith, leb, ◌/◌,
  ◌<◌,
}
use native.Mathlib.Nat.{lt-mul-div-succ}
use tty_gateway.Quota.Float.{Float}
use tty_gateway.Quota.Float.Fixed.{fixed, billion}

-- Up to `limit` integers are exact and other results differ from the exact ones by `slack` at most.
-- IEEE doubles have these laws for each limit up to 2^53 (times a billion): the slack is then the few
-- units in the last place, at that limit, by which two roundings differ, and a billionth or two.
pub record Rounds (f : Float) : Type 0 where
  pub value : f.Num → ℕ
  pub limit : ℕ
  pub slack : ℕ
  pub of_u64_value : (n : ℕ) → n * billion ≤ limit → value (f.of_u64 n) ≡ n * billion
  pub ge_value : (a b : f.Num) → f.ge a b ≡ true → value b ≤ value a
  pub lt_value : (a b : f.Num) → f.ge a b ≡ false → value a ≤ value b
  pub min_value : (a b : f.Num) → (f.min_of a b ≡ a) ⊎ ((f.min_of a b ≡ b) × (f.ge a b ≡ true))
  pub add_upper :
      (a b : f.Num) → value a + value b ≤ limit → value (f.add a b) ≤ value a + value b + slack
  pub add_lower :
      (a b : f.Num)
      → f.ge a (f.of_u64 0) ≡ true
      → f.ge b (f.of_u64 0) ≡ true
      → min (value a + value b) limit ≤ value (f.add a b) + slack
  -- What a rate of `r` is worth in `d` nanoseconds.
  pub earned_upper :
      (r d : ℕ) → r * d ≤ limit → value (f.mul (f.as_secs d) (f.of_u64 r)) ≤ r * d + slack
  pub earned_lower :
      (r d : ℕ) → min (r * d) limit ≤ value (f.mul (f.as_secs d) (f.of_u64 r)) + slack
  pub sub_upper :
      (a : f.Num) (n : ℕ)
      → f.ge a (f.of_u64 n) ≡ true
      → value a ≤ limit
      → value (f.sub a (f.of_u64 n)) + n * billion ≤ value a + slack
  pub sub_lower :
      (a b : f.Num)
      → f.ge b (f.of_u64 0) ≡ true
      → value a ≤ limit
      → value a ≤ value (f.sub a b) + value b + slack
  -- The nanoseconds that `x` takes at a rate of `r` are rounded to the nearest one or cut.
  pub time_lower :
      (r : ℕ) (x : f.Num)
      → 1 ≤ r
      → value x ≤ limit
      → value x ≤ r * (f.from_secs (f.div x (f.of_u64 r)) + 1) + slack

of_u64_fixed : (n : ℕ) → n * billion ≤ billion * billion → n * billion ≡ n * billion
of_u64_fixed n h = refl

ge_fixed : (a b : ℕ) → leb b a ≡ true → b ≤ a
ge_fixed a b h = ground arith

lt_fixed : (a b : ℕ) → leb b a ≡ false → a ≤ b
lt_fixed a b h = ground arith

min_fixed : (a b : ℕ) → (min a b ≡ a) ⊎ ((min a b ≡ b) × (leb b a ≡ true))
min_fixed a b = elim (Bool-cases (leb b a)) [
  | inl h ↦ inr (ground (arith, h), h)
  | inr h ↦ inl (ground (arith, h))
]

earned_fixed : (r d : ℕ) → d * (r * billion) / billion ≡ r * d
earned_fixed r d = omega arith

time_fixed : (r x : ℕ) → 1 ≤ r → x ≤ r * (x * billion / (r * billion) + 1)
time_fixed r x positive =
    let q = x * billion / (r * billion) in
    let less : x * billion < r * billion * (q + 1) =
      lt-mul-div-succ (x * billion) {b = r * billion} (omega (arith, positive)) in
    let scaled : r * billion * (q + 1) ≡ r * (q + 1) * billion = omega arith in
    omega (arith, less, scaled)

add_lower_fixed : (a b limit : ℕ) → min (a + b) limit ≤ a + b + 0
add_lower_fixed a b limit = ground arith

earned_lower_fixed : (r d limit : ℕ) → min (r * d) limit ≤ d * (r * billion) / billion + 0
earned_lower_fixed r d limit = ground (arith, earned_fixed r d)

sub_upper_fixed : (a n : ℕ) → leb (n * billion) a ≡ true → a - n * billion + n * billion ≤ a + 0
sub_upper_fixed a n enough = ground (arith, enough)

sub_lower_fixed : (a b : ℕ) → a ≤ a - b + b + 0
sub_lower_fixed a b = omega arith

-- The fixed-point arithmetic rounds none of these, and the limit could be any other.
unfoldable pub fixed_rounds : Rounds fixed
unfolding fixed of_u64_fixed ge_fixed lt_fixed min_fixed earned_fixed time_fixed add_lower_fixed
    earned_lower_fixed sub_upper_fixed sub_lower_fixed
fixed_rounds = record {
  value = λ n. n;
  limit = billion * billion;
  slack = 0;
  of_u64_value = of_u64_fixed;
  ge_value = ge_fixed;
  lt_value = lt_fixed;
  min_value = min_fixed;
  add_upper = λ a b h. omega arith;
  add_lower = λ a b h k. add_lower_fixed a b _;
  earned_upper = λ r d h. omega (arith, earned_fixed r d);
  earned_lower = λ r d. earned_lower_fixed r d _;
  sub_upper = λ a n enough h. sub_upper_fixed a n enough;
  sub_lower = λ a b h k. sub_lower_fixed a b;
  time_lower = λ r x positive h. omega (arith, time_fixed r x positive);
}
