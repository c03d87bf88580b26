-- ===== src/Quota/Float.antt =====
-- The part of `f64` and `Duration` that the token bucket uses. A duration is its nanoseconds.
-- The laws are those of rounded arithmetic that the bucket relies on: they hold of IEEE doubles that
-- are neither infinite nor NaN, and no more is asked (sums need not be exact).
pub mod Fixed
pub mod Rounds
use tty_gateway.Base.{ℕ, ◌≤◌, ◌≡◌, Bool, true}

pub record Float : Type 1 where
  pub Num : Type 0
  pub of_u64 : ℕ → Num
  pub add : Num → Num → Num
  pub sub : Num → Num → Num
  pub mul : Num → Num → Num
  pub div : Num → Num → Num
  pub min_of : Num → Num → Num
  -- a >= b
  pub ge : Num → Num → Bool
  pub as_secs : ℕ → Num
  pub from_secs : Num → ℕ
  pub ge_refl : (a : Num) → ge a a ≡ true
  pub ge_trans : (a b c : Num) → ge a b ≡ true → ge b c ≡ true → ge a c ≡ true
  pub min-le : (a b : Num) → ge b (min_of a b) ≡ true
  pub le-min : (a b c : Num) → ge a c ≡ true → ge b c ≡ true → ge (min_of a b) c ≡ true
  pub of_u64_mono : (m n : ℕ) → m ≤ n → ge (of_u64 n) (of_u64 m) ≡ true
  pub as_secs_nonneg : (d : ℕ) → ge (as_secs d) (of_u64 0) ≡ true
  pub add_grows : (a b : Num) → ge b (of_u64 0) ≡ true → ge (add a b) a ≡ true
  pub mul_nonneg :
      (a b : Num) → ge a (of_u64 0) ≡ true → ge b (of_u64 0) ≡ true → ge (mul a b) (of_u64 0) ≡ true
  pub sub_nonneg : (a b : Num) → ge a b ≡ true → ge (sub a b) (of_u64 0) ≡ true
  pub sub_shrinks : (a b : Num) → ge b (of_u64 0) ≡ true → ge a (sub a b) ≡ true
