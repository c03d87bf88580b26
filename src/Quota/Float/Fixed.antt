-- ===== src/Quota/Float/Fixed.antt =====
-- An arithmetic that meets the laws: fixed point with nine decimals, rounded down. It runs, and sums
-- are exact in it.
use tty_gateway.Base.{ℕ, ◌+◌, ◌-◌, ◌*◌, ◌/◌, ◌≤◌, ◌≡◌, true, min, arith, leb}
use tty_gateway.Quota.Float.{Float}

abbrev pub billion : ℕ
billion = 1000000000

ge_trans_fixed : (a b c : ℕ) → leb b a ≡ true → leb c b ≡ true → leb c a ≡ true
ge_trans_fixed a b c h k = ground arith

min-le_fixed : (a b : ℕ) → leb (min a b) b ≡ true
min-le_fixed a b = ground arith

le-min_fixed : (a b c : ℕ) → leb c a ≡ true → leb c b ≡ true → leb c (min a b) ≡ true
le-min_fixed a b c h k = ground arith

mono_fixed : (m n : ℕ) → m ≤ n → leb (m * billion) (n * billion) ≡ true
mono_fixed m n h = ground arith

zero_le_fixed : (d : ℕ) → leb (0 * billion) d ≡ true
zero_le_fixed d = ground arith

grows_fixed : (a b : ℕ) → leb (0 * billion) b ≡ true → leb a (a + b) ≡ true
grows_fixed a b h = ground arith

shrinks_fixed : (a b : ℕ) → leb (0 * billion) b ≡ true → leb (a - b) a ≡ true
shrinks_fixed a b h = ground arith

ge_refl_fixed : (a : ℕ) → leb a a ≡ true
ge_refl_fixed a = ground arith

unfoldable pub fixed : Float
unfolding ge_refl_fixed ge_trans_fixed min-le_fixed le-min_fixed mono_fixed zero_le_fixed
    grows_fixed shrinks_fixed
fixed = record {
  Num = ℕ;
  of_u64 = λ n. n * billion;
  add = λ a b. a + b;
  sub = λ a b. a - b;
  mul = λ a b. a * b / billion;
  div = λ a b. a * billion / b;
  min_of = min;
  ge = λ a b. leb b a;
  as_secs = λ d. d;
  from_secs = λ s. s;
  ge_refl = ge_refl_fixed;
  ge_trans = ge_trans_fixed;
  min-le = min-le_fixed;
  le-min = le-min_fixed;
  of_u64_mono = mono_fixed;
  as_secs_nonneg = zero_le_fixed;
  add_grows = grows_fixed;
  mul_nonneg = λ a b h k. zero_le_fixed (a * b / billion);
  sub_nonneg = λ a b h. zero_le_fixed (a - b);
  sub_shrinks = shrinks_fixed;
}
