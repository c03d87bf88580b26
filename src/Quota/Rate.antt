-- ===== src/Quota/Rate.antt =====
-- What the bucket lets through over time, in arithmetic that rounds.
use tty_gateway.Base.{
  ℕ, ◌+◌, ◌*◌, ◌≤◌, ◌<◌, ◌≡◌, refl, inl, inr, List, [], ◌∷◌, true, false, Bool-cases, max,
  if◌then◌else◌, arith, length, leb, subst,
}
use tty_gateway.Quota.Float.{Float}
use tty_gateway.Quota.Float.Fixed.{billion}
use tty_gateway.Quota.Float.Rounds.{Rounds}
use tty_gateway.Quota.Bucket.{
  TokenBucket, new, refill, try_consume, IsValid, new-IsValid, refill_lem, try_consume_lem,
}

-- What the bucket's owner does: let time pass, or ask for bytes.
pub data Use : Type 0 where
  pass : ℕ → Use
  ask : ℕ → Use

abbrev pub elapsed_of : List Use → ℕ
elapsed_of [] = 0
elapsed_of (pass elapsed ∷ us) = elapsed + elapsed_of us
elapsed_of (ask amount ∷ us) = elapsed_of us

module _ (f : Float) where
  -- The bytes that were granted.
  unfoldable pub granted : TokenBucket f.Num → List Use → ℕ
  granted b [] = 0
  granted b (pass elapsed ∷ us) = granted (refill f b elapsed) us
  granted b (ask amount ∷ us) =
      let (ok, b') = try_consume f b amount in (if ok then amount else 0) + granted b' us

module _ (f : Float) (laws : Rounds f) where
  open laws use {
    value, limit, slack, of_u64_value, ge_value, min_value, add_upper, earned_upper, sub_upper,
  }

  -- Whichever the minimum is, it is no more than what was there and what was earned.
  earns :
      (b : TokenBucket f.Num) (r d : ℕ)
      → b.rate ≡ f.of_u64 r
      → value b.capacity ≤ limit
      → value (refill f b d).tokens ≤ value b.tokens + r * d + 2 * slack
  unfolding refill
  earns b r d e room =
      let worth = f.mul (f.as_secs d) (f.of_u64 r) in
      let capped : value (f.min_of (f.add b.tokens worth) b.capacity) ≤ value b.capacity =
        ge_value _ _ (f.min-le (f.add b.tokens worth) b.capacity) in
      rw e (elim (Bool-cases (leb (value b.tokens + r * d + slack) limit)) [
        | inl fits ↦
            (let small : value b.tokens + r * d + slack ≤ limit = ground (arith, fits) in
              let one : value worth ≤ r * d + slack = earned_upper r d (omega (arith, small)) in
              let two : value (f.add b.tokens worth) ≤ value b.tokens + value worth + slack =
                add_upper b.tokens worth (omega (arith, small, one)) in
              elim (min_value (f.add b.tokens worth) b.capacity) [
                | inl left ↦ rw left (omega (arith, one, two))
                | inr (right, more) ↦
                    (let less : value b.capacity ≤ value (f.add b.tokens worth) =
                        ge_value (f.add b.tokens worth) b.capacity more in
                      rw right (omega (arith, one, two, less)))
              ])
        | inr big ↦
            (let large : limit < value b.tokens + r * d + slack = ground (arith, big) in
              omega (arith, large, capped, room))
      ])

  granted_from :
      (r : ℕ) (b : TokenBucket f.Num) (us : List Use)
      → b.rate ≡ f.of_u64 r
      → IsValid f b
      → value b.capacity ≤ limit
      → billion * granted f b us ≤ value b.tokens + r * elapsed_of us + 2 * slack * length us
  unfolding granted
  granted_from r b [] e valid room = omega arith
  granted_from r b (pass d ∷ us) e valid room =
      let rest =
        granted_from r (refill f b d) us (unfold refill in e) (refill_lem f d valid).0
          (unfold refill in room) in
      omega (arith, rest, earns b r d e room)
  granted_from r b (ask amount ∷ us) e valid room =
      let under : value b.tokens ≤ value b.capacity = ge_value b.capacity b.tokens valid.full in
      elim (Bool-cases (f.ge b.tokens (f.of_u64 amount))) [
        | inl enough ↦
            (let after : TokenBucket f.Num = record b {
              tokens = f.sub b.tokens (f.of_u64 amount);
            } in
              let same : try_consume f b amount ≡ (true, after) =
                (unfold try_consume in rw enough refl) in
              let valid' : IsValid f after =
                subst (λ p. IsValid f p.1) same (try_consume_lem f {b = b} amount valid).0 in
              let rest = granted_from r after us e valid' room in
              rw same (
                omega (arith, rest, sub_upper b.tokens amount enough (omega (arith, under, room)))))
        | inr short ↦
            (let same : try_consume f b amount ≡ (false, b) =
                (unfold try_consume in rw short refl) in
              let rest = granted_from r b us e valid room in rw same (omega (arith, rest)))
      ]

  -- However the bucket is used, the bytes that it grants are at most its burst and the rate times the
  -- time that has passed (in nanoseconds; a rate or a burst of 0 counts as 1), and what two roundings
  -- for each use come to. The condition is that the burst is within the limit of the rounding laws.
  pub granted_bound :
      (rate_per_sec burst : ℕ) (us : List Use)
      → max burst 1 * billion ≤ limit
      → billion * granted f (new f rate_per_sec burst) us
        ≤ billion * max burst 1 + max rate_per_sec 1 * elapsed_of us + 2 * slack * length us
  granted_bound rate burst us room =
      let full : value (new f rate burst).capacity ≡ max burst 1 * billion =
        (unfold new in of_u64_value (max burst 1) room) in
      let start : (new f rate burst).tokens ≡ (new f rate burst).capacity = (unfold new in refl) in
      let at : value (new f rate burst).tokens ≡ max burst 1 * billion = rw start full in
      omega (
        arith,
        at,
        granted_from (max rate 1) (new f rate burst) us (unfold new in refl)
            (new-IsValid f rate burst) (omega (arith, full, room)),
      )
