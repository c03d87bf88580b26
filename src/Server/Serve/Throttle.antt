-- ===== src/Server/Serve/Throttle.antt =====
-- How long `throttle` of crates/gw-server/src/handler.rs waits, in arithmetic that rounds.
use tty_gateway.Base.{
  ℕ, ◌+◌, ◌*◌, ◌≤◌, ◌≡◌, refl, ◌⊎◌, ◌<◌, Bool, true, false, some, List, [], ◌∷◌, arith, inl, inr,
  Bool-cases, if◌then◌else◌, length, min, ap, ◌∙◌, ◌-◌,
}
use native.Mathlib.Nat.{mul-le-mul_left}
use tty_gateway.Quota.Float.{Float}
use tty_gateway.Quota.Float.Fixed.{billion}
use tty_gateway.Quota.Float.Rounds.{Rounds}
use tty_gateway.Quota.Bucket.{TokenBucket, refill, try_consume, time_until, IsValid, refill_lem}
use tty_gateway.Server.Serve.{Limiter, throttle}

abbrev pub total_gap : List ℕ → ℕ
total_gap [] = 0
total_gap (d ∷ ds) = d + total_gap ds

module _ (f : Float) where
  -- Whether the loop returns when its rounds come with these gaps, in nanoseconds, after the time `now`.
  unfoldable pub returns : Limiter f → ℕ → List ℕ → ℕ → Bool
  returns l now [] amount = false
  returns l now (d ∷ ds) amount =
      let (granted, l') = throttle f l (now + d) amount in
      let rest = returns l' (now + d) ds amount in if granted then true else rest

module _ (f : Float) (laws : Rounds f) where
  open laws use {
    value, limit, slack, of_u64_value, ge_value, lt_value, min_value, add_lower, earned_lower,
    sub_lower, time_lower,
  }

  -- A bucket of the rate `r` that can hold the amount, well within the limit of the rounding laws.
  pub record Holds (r amount : ℕ) (b : TokenBucket f.Num) : Type 0 where
    pub rate_is : b.rate ≡ f.of_u64 r
    pub valid : IsValid f b
    pub room : f.ge b.capacity (f.of_u64 amount) ≡ true
    pub small : amount * billion + 2 * slack < limit

  refill-Holds :
      {r amount : ℕ} {b : TokenBucket f.Num} (d : ℕ)
      → Holds r amount b
      → Holds r amount (refill f b d)
  refill-Holds d h = record {
    rate_is = unfold refill in h.rate_is;
    valid = (refill_lem f d h.valid).0;
    room = unfold refill in h.room;
    small = h.small;
  }

  -- What a sum comes to that is not the amount yet.
  sum_earns :
      (b : TokenBucket f.Num) (r d amount : ℕ)
      → Holds r amount b
      → value (f.add b.tokens (f.mul (f.as_secs d) (f.of_u64 r))) ≤ amount * billion
      → value b.tokens + r * d
        ≤ value (f.add b.tokens (f.mul (f.as_secs d) (f.of_u64 r))) + 2 * slack
  sum_earns b r d amount h short =
      let worth = f.mul (f.as_secs d) (f.of_u64 r) in
      let worth_nonneg =
        f.mul_nonneg (f.as_secs d) (f.of_u64 r) (f.as_secs_nonneg d)
          (f.of_u64_mono 0 r (omega arith)) in
      let small = h.small in
      let sum : min (value b.tokens + value worth) limit ≤ value (f.add b.tokens worth) + slack =
        add_lower b.tokens worth h.valid.nonneg worth_nonneg in
      let exact : value b.tokens + value worth ≤ value (f.add b.tokens worth) + slack =
        ground (arith, sum, small, short) in
      let earned : min (r * d) limit ≤ value worth + slack = earned_lower r d in
      let all : r * d ≤ value worth + slack = ground (arith, earned, exact, small, short) in
      omega (arith, all, exact)

  -- A refill that does not make the amount leaves all that the bucket has earned, but for rounding.
  refill_earns :
      (b : TokenBucket f.Num) (r d amount : ℕ)
      → Holds r amount b
      → f.ge (refill f b d).tokens (f.of_u64 amount) ≡ false
      → (value b.tokens + r * d ≤ value (refill f b d).tokens + 2 * slack)
        × (value (refill f b d).tokens ≤ amount * billion)
  unfolding refill
  refill_earns b r d amount h short =
      let small = h.small in
      let exact : value (f.of_u64 amount) ≡ amount * billion =
        of_u64_value amount (omega (arith, small)) in
      let sum = f.add b.tokens (f.mul (f.as_secs d) (f.of_u64 r)) in
      let filled = f.min_of (f.add b.tokens (f.mul (f.as_secs d) b.rate)) b.capacity in
      let under : value filled ≤ amount * billion =
        omega (arith, exact, lt_value filled (f.of_u64 amount) short) in
      let rated : filled ≡ f.min_of sum b.capacity = rw h.rate_is refl in
      elim (min_value sum b.capacity) [
        | inl left ↦
            (let same : value filled ≡ value sum = ap value (rated ∙ left) in
              let most = sum_earns b r d amount h (omega (arith, same, under)) in
              (omega (arith, same, most), under))
        | inr (right, more) ↦
            (let full : filled ≡ b.capacity = rated ∙ right in absurd (cc (short, h.room, full)))
      ]

  round_cases :
      (b : TokenBucket f.Num) (r last d amount : ℕ)
      → Holds r amount b
      → ((throttle f (some (b, last)) (last + d) amount).0 ≡ true)
        ⊎ ((throttle f (some (b, last)) (last + d) amount ≡ (false, some (refill f b d, last + d)))
            × (value b.tokens + r * d ≤ value (refill f b d).tokens + 2 * slack)
            × (value (refill f b d).tokens ≤ amount * billion))
  unfolding throttle try_consume
  round_cases b r last d amount h =
      let gap : last + d - last ≡ d = omega arith in
      elim (Bool-cases (f.ge (refill f b d).tokens (f.of_u64 amount))) [
        | inl enough ↦ inl (rw gap (rw enough refl))
        | inr short ↦
            (let (most, under) = refill_earns b r d amount h short in
              inr (rw gap (rw short refl), most, under))
      ]

  -- For an amount within the capacity `throttle` returns, at whatever moments its rounds come, as soon
  -- as the tokens of the bucket and what the time since then is worth exceed the amount by two
  -- roundings for each round.
  pub throttle-returns :
      (r : ℕ) (ds : List ℕ) (b : TokenBucket f.Num) (last d amount : ℕ)
      → Holds r amount b
      → amount * billion + 2 * slack * length (d ∷ ds) < value b.tokens + r * total_gap (d ∷ ds)
      → returns f (some (b, last)) last (d ∷ ds) amount ≡ true
  unfolding returns
  throttle-returns r [] b last d amount h worth = elim (round_cases b r last d amount h) [
    | inl granted ↦ rw granted refl
    | inr (short, most, under) ↦ absurd (omega (arith, worth, most, under))
  ]
  throttle-returns r (d' ∷ ds) b last d amount h worth = elim (round_cases b r last d amount h) [
    | inl granted ↦ rw granted refl
    | inr (short, most, under) ↦ rw short (
        throttle-returns r ds (refill f b d) (last + d) d' amount (refill-Holds d h)
          (omega (arith, worth, most)))
  ]

  -- A nanosecond more than `time_until` asks for is worth what is missing, but for rounding.
  wait_worth :
      (r : ℕ) (b : TokenBucket f.Num) (amount : ℕ)
      → 1 ≤ r
      → Holds r amount b
      → amount * billion ≤ value b.tokens + r * (time_until f b amount + 1) + 2 * slack
  unfolding time_until
  wait_worth r b amount positive h =
      let small = h.small in
      let exact : value (f.of_u64 amount) ≡ amount * billion =
        of_u64_value amount (omega (arith, small)) in
      let roomy = ge_value b.capacity (f.of_u64 amount) h.room in
      let wanted = f.min_of (f.of_u64 amount) b.capacity in
      let wants : value wanted ≡ amount * billion = elim (min_value (f.of_u64 amount) b.capacity) [
        | inl left ↦ ap value left ∙ exact
        | inr (right, more) ↦
            (let less = ge_value (f.of_u64 amount) b.capacity more in
              let same = ap value right in omega (arith, same, less, roomy, exact))
      ] in
      elim (Bool-cases (f.ge b.tokens wanted)) [
        | inl enough ↦
            (let there = ge_value b.tokens wanted enough in rw enough (omega (arith, there, wants)))
        | inr short ↦
            (let lacks = f.sub wanted b.tokens in
              let under : value lacks ≤ value wanted =
                ge_value wanted lacks (f.sub_shrinks wanted b.tokens h.valid.nonneg) in
              let parts = sub_lower wanted b.tokens h.valid.nonneg (omega (arith, wants, small)) in
              let time = time_lower r lacks positive (omega (arith, under, wants, small)) in
              rw (short, h.rate_is) (omega (arith, wants, parts, time)))
      ]

  -- For an amount that the bucket can hold, well within the limit of the rounding laws, `throttle`
  -- sleeps at most twice: if the first sleep is as long as `time_until` asks for and the second is
  -- worth more than a nanosecond and six roundings, the round after them returns.
  pub throttle_wakes :
      (r : ℕ) (b : TokenBucket f.Num) (last d d' amount : ℕ)
      → 1 ≤ r
      → Holds r amount b
      → time_until f b amount ≤ d
      → r + 6 * slack < r * d'
      → returns f (some (b, last)) last (d ∷ d' ∷ []) amount ≡ true
  throttle_wakes r b last d d' amount positive h long some_time =
      let more : r * (time_until f b amount + 1) ≤ r * (d + 1) =
        mul-le-mul_left r (omega (arith, long)) in
      throttle-returns r (d' ∷ []) b last d amount h
        (omega (arith, wait_worth r b amount positive h, more, some_time))
