-- ===== src/Quota/Tests.antt =====
-- Runs at concrete inputs, and the theorems of this component at inputs that meet their hypotheses.
use tty_gateway.Base.{◌+◌, ◌*◌, ◌≤◌, ◌≡◌, refl, false, List, [], ◌∷◌, max, none, length, arith}
use tty_gateway.Quota.Hook.{unlimited, allow_all, allowed}
use tty_gateway.Quota.Float.Fixed.{fixed, billion}
use tty_gateway.Quota.Float.Rounds.{fixed_rounds}
use tty_gateway.Quota.Bucket.{
  new, refill, try_consume, time_until, new-IsValid, try_consume_oversized,
}
use tty_gateway.Quota.Meter.{came, went, Metered}
use tty_gateway.Quota.Rate.{Use, pass, ask, granted, granted_bound, elapsed_of}

-- 100 bytes per second, with a burst of 100; a second later there are 100 more.
abbrev uses : List Use
uses = ask 100 ∷ ask 1 ∷ pass billion ∷ ask 100 ∷ []

consumes_then_refills : granted fixed (new fixed 100 100) uses ≡ 200
unfolding granted new refill try_consume fixed
consumes_then_refills = refl

-- An empty bucket of 10 bytes per second needs a second for 10 bytes.
time_until_empty : time_until fixed (try_consume fixed (new fixed 10 10) 10).1 10 ≡ billion
unfolding time_until try_consume new fixed
time_until_empty = refl

allow_all_authorizes : ((allow_all {S = Unit {0}}).authorize tt [] none).0 ≡ allowed unlimited
allow_all_authorizes = refl

abbrev traffic : List Metered
traffic = went 120 ∷ came 5 ∷ went 80 ∷ []

granted_bound_example :
    billion * granted fixed (new fixed 100 100) uses
    ≤ billion * max 100 1 + max 100 1 * elapsed_of uses + 2 * fixed_rounds.slack * length uses
granted_bound_example =
    granted_bound fixed fixed_rounds 100 100 uses (unfold fixed_rounds in omega arith)

try_consume_oversized_example : try_consume fixed (new fixed 10 10) 11 ≡ (false, new fixed 10 10)
try_consume_oversized_example =
    try_consume_oversized fixed {b = new fixed 10 10} 11 (new-IsValid fixed 10 10)
      (unfold new fixed in refl)
