-- ===== src/Quota/Bucket.antt =====
-- `TokenBucket` of crates/gw-core/src/quota.rs, over any arithmetic.
use tty_gateway.Base.{
  ℕ, ◌≡◌, refl, Bool, true, false, max, if◌then◌else◌, arith, inl, inr, Bool-cases,
}
use tty_gateway.Quota.Float.{Float}

pub record TokenBucket (N : Type 0) : Type 0 where
  pub capacity : N
  pub tokens : N
  pub rate : N

module _ (f : Float) where
  open f use {
    Num, of_u64, add, sub, mul, div, min_of, ge, as_secs, from_secs, ge_refl, ge_trans, min-le,
    le-min, of_u64_mono, as_secs_nonneg, add_grows, mul_nonneg, sub_nonneg, sub_shrinks,
  }

  unfoldable pub new : ℕ → ℕ → TokenBucket Num
  new rate_per_sec burst =
      let capacity = of_u64 (max burst 1) in
      record { capacity = capacity; tokens = capacity; rate = of_u64 (max rate_per_sec 1) }

  -- `elapsed` in nanoseconds.
  unfoldable pub refill : TokenBucket Num → ℕ → TokenBucket Num
  refill b elapsed = record b {
    tokens = min_of (add b.tokens (mul (as_secs elapsed) b.rate)) b.capacity;
  }

  unfoldable pub try_consume : TokenBucket Num → ℕ → Bool × TokenBucket Num
  try_consume b amount =
      if ge b.tokens (of_u64 amount)
      then (true, record b { tokens = sub b.tokens (of_u64 amount) })
      else (false, b)

  -- In nanoseconds.
  unfoldable pub time_until : TokenBucket Num → ℕ → ℕ
  time_until b amount =
      let wanted = min_of (of_u64 amount) b.capacity in
      if ge b.tokens wanted then 0 else from_secs (div (sub wanted b.tokens) b.rate)

  pub record IsValid (b : TokenBucket Num) : Type 0 where
    pub full : ge b.capacity b.tokens ≡ true
    pub nonneg : ge b.tokens (of_u64 0) ≡ true
    pub room : ge b.capacity (of_u64 1) ≡ true
    pub flows : ge b.rate (of_u64 1) ≡ true

  pub new-IsValid : (rate_per_sec burst : ℕ) → IsValid (new rate_per_sec burst)
  unfolding new
  new-IsValid rate burst = record {
    full = ge_refl _;
    nonneg = of_u64_mono 0 (max burst 1) (omega arith);
    room = of_u64_mono 1 (max burst 1) (omega arith);
    flows = of_u64_mono 1 (max rate 1) (omega arith);
  }

  rate_nonneg : {b : TokenBucket Num} → IsValid b → ge b.rate (of_u64 0) ≡ true
  rate_nonneg {b} v = ge_trans b.rate (of_u64 1) (of_u64 0) v.flows (of_u64_mono 0 1 (omega arith))

  capacity_nonneg : {b : TokenBucket Num} → IsValid b → ge b.capacity (of_u64 0) ≡ true
  capacity_nonneg {b} v = ge_trans b.capacity b.tokens (of_u64 0) v.full v.nonneg

  -- The tokens that the elapsed time is worth are not negative.
  refill_grows :
      (b : TokenBucket Num) (elapsed : ℕ)
      → IsValid b
      → ge (add b.tokens (mul (as_secs elapsed) b.rate)) b.tokens ≡ true
  refill_grows b elapsed v =
      add_grows b.tokens (mul (as_secs elapsed) b.rate)
        (mul_nonneg (as_secs elapsed) b.rate (as_secs_nonneg elapsed) (rate_nonneg v))

  -- `refill` keeps the tokens between 0 and the capacity, and never takes any away.
  pub refill_lem :
      {b : TokenBucket Num} (elapsed : ℕ)
      → IsValid b
      → IsValid (refill b elapsed) × (ge (refill b elapsed).tokens b.tokens ≡ true)
  unfolding refill
  refill_lem {b} elapsed v =
      let earned = add b.tokens (mul (as_secs elapsed) b.rate) in
      let more = le-min earned b.capacity b.tokens (refill_grows b elapsed v) v.full in
      (
        record {
          full = min-le earned b.capacity;
          nonneg = ge_trans _ b.tokens (of_u64 0) more v.nonneg;
          room = v.room;
          flows = v.flows;
        },
        more,
      )

  -- `try_consume` keeps the tokens between 0 and the capacity. It succeeds exactly if there are
  -- enough, and changes nothing if not.
  pub try_consume_lem :
      {b : TokenBucket Num} (amount : ℕ)
      → IsValid b
      → IsValid (try_consume b amount).1
        × ((try_consume b amount).0 ≡ ge b.tokens (of_u64 amount))
        × ((try_consume b amount).0 ≡ false → (try_consume b amount).1 ≡ b)
  unfolding try_consume
  try_consume_lem {b} amount v = elim (Bool-cases (ge b.tokens (of_u64 amount))) [
    | inl enough ↦ rw enough (
      record {
        full =
            ge_trans b.capacity b.tokens _ v.full
              (sub_shrinks b.tokens (of_u64 amount) (of_u64_mono 0 amount (omega arith)));
        nonneg = sub_nonneg b.tokens (of_u64 amount) enough;
        room = v.room;
        flows = v.flows;
      },
      refl,
      λ e. cc,
    )
    | inr short ↦ rw short (v, refl, λ _. refl)
  ]

  -- What is more than the capacity is never granted, however full the bucket is.
  pub try_consume_oversized :
      {b : TokenBucket Num} (amount : ℕ)
      → IsValid b
      → ge b.capacity (of_u64 amount) ≡ false
      → try_consume b amount ≡ (false, b)
  unfolding try_consume
  try_consume_oversized {b} amount v big = elim (Bool-cases (ge b.tokens (of_u64 amount))) [
    | inl enough ↦ cc (big, ge_trans b.capacity b.tokens (of_u64 amount) v.full enough)
    | inr short ↦ rw short
  ]
