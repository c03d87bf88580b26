-- ===== src/Quota/Suite.antt =====
-- The unit tests of crates/gw-core/src/quota.rs, over exact arithmetic: on the numbers of these tests
-- that of `f64` is exact too.
use tty_gateway.Base.{
  ℕ, ◌*◌, ◌≡◌, refl, Bool, true, false, not, ◌&&◌, Option, none, some, ltb, ◌==◌, codes,
}
use tty_gateway.Quota.Hook.{allow_all, allowed, denied}
use tty_gateway.Quota.Float.Fixed.{fixed, billion}
use tty_gateway.Quota.Bucket.{new, refill, try_consume, time_until}
use tty_gateway.Quota.Meter.{zero_meter, add_in, add_out, totals}

abbrev is_none {ℓ} : {A : Type ℓ} → Option A → Bool
is_none none = true
is_none (some a) = false

-- `Duration::from_secs`
from_secs : ℕ → ℕ
from_secs n = n * billion

allow_all_is_unlimited : Bool
allow_all_is_unlimited = elim ((allow_all {S = Unit {0}}).authorize tt (codes "client") none).0 [
  | allowed ent ↦ is_none ent.max_bytes_per_sec && is_none ent.max_sessions
  | denied d ↦ false
]

bucket_consumes_then_refills : Bool
unfolding from_secs
bucket_consumes_then_refills =
    let (full, b) = try_consume fixed (new fixed 100 100) 100 in
    let (empty, b') = try_consume fixed b 1 in
    let (again, _) = try_consume fixed (refill fixed b' (from_secs 1)) 100 in
    full && (not empty && again)

bucket_refill_caps_at_capacity : Bool
unfolding from_secs
bucket_refill_caps_at_capacity =
    let b = refill fixed (new fixed 10 10) (from_secs 100) in
    let (all, b') = try_consume fixed b 10 in all && not (try_consume fixed b' 1).0

time_until_is_positive_when_empty : Bool
time_until_is_positive_when_empty =
    let (all, b) = try_consume fixed (new fixed 10 10) 10 in all && ltb 0 (time_until fixed b 10)

meter_accumulates : Bool
meter_accumulates =
    let (bytes_in, bytes_out) = totals (add_in (add_out (add_out zero_meter 120) 80) 5) in
    (bytes_in == 5) && (bytes_out == 200)

allow_all_is_unlimited_lem : allow_all_is_unlimited ≡ true
unfolding allow_all_is_unlimited
allow_all_is_unlimited_lem = refl

bucket_consumes_then_refills_lem : bucket_consumes_then_refills ≡ true
unfolding bucket_consumes_then_refills new try_consume refill fixed
bucket_consumes_then_refills_lem = refl

bucket_refill_caps_at_capacity_lem : bucket_refill_caps_at_capacity ≡ true
unfolding bucket_refill_caps_at_capacity new try_consume refill fixed
bucket_refill_caps_at_capacity_lem = refl

time_until_is_positive_when_empty_lem : time_until_is_positive_when_empty ≡ true
unfolding time_until_is_positive_when_empty new try_consume time_until fixed
time_until_is_positive_when_empty_lem = refl

meter_accumulates_lem : meter_accumulates ≡ true
unfolding meter_accumulates add_in add_out totals
meter_accumulates_lem = refl
