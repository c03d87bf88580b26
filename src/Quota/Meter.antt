-- ===== src/Quota/Meter.antt =====
-- `UsageMeter` of crates/gw-core/src/quota.rs. `fetch_add` on an `AtomicU64` wraps, and each is one
-- step, so adding from several tasks comes to a list of additions in some order.
use tty_gateway.Base.{ℕ, ◌+◌, ◌%◌, ◌^◌, ◌<◌, ◌≡◌, ◌∙◌, ap₂, List, [], ◌∷◌, arith}

pub record UsageMeter : Type 0 where
  pub bytes_in : ℕ
  pub bytes_out : ℕ

abbrev pub zero_meter : UsageMeter
zero_meter = record { bytes_in = 0; bytes_out = 0 }

unfoldable pub add_in : UsageMeter → ℕ → UsageMeter
add_in m n = record m { bytes_in = (m.bytes_in + n) % 2 ^ 64 }

unfoldable pub add_out : UsageMeter → ℕ → UsageMeter
add_out m n = record m { bytes_out = (m.bytes_out + n) % 2 ^ 64 }

unfoldable pub totals : UsageMeter → ℕ × ℕ
totals m = (m.bytes_in, m.bytes_out)

pub data Metered : Type 0 where
  came went : ℕ → Metered

unfoldable pub meter : UsageMeter → List Metered → UsageMeter
meter m [] = m
meter m (came n ∷ es) = meter (add_in m n) es
meter m (went n ∷ es) = meter (add_out m n) es

abbrev pub sum_in : List Metered → ℕ
sum_in [] = 0
sum_in (came n ∷ es) = n + sum_in es
sum_in (went n ∷ es) = sum_in es

abbrev pub sum_out : List Metered → ℕ
sum_out [] = 0
sum_out (came n ∷ es) = sum_out es
sum_out (went n ∷ es) = n + sum_out es

meter_from :
    (m : UsageMeter) (es : List Metered)
    → m.bytes_in + sum_in es < 2 ^ 64
    → m.bytes_out + sum_out es < 2 ^ 64
    → totals (meter m es) ≡ (m.bytes_in + sum_in es, m.bytes_out + sum_out es)
unfolding totals meter add_in add_out
meter_from m [] h k = ground arith
meter_from m (came n ∷ es) h k = ground (arith, meter_from (add_in m n) es)
meter_from m (went n ∷ es) h k = ground (arith, meter_from (add_out m n) es)

-- The totals are the sums of what was added each way, in whatever order the two tasks added it, as
-- long as both sums fit a u64.
pub totals-meter :
    (es : List Metered)
    → sum_in es < 2 ^ 64
    → sum_out es < 2 ^ 64
    → totals (meter zero_meter es) ≡ (sum_in es, sum_out es)
totals-meter es h k =
    meter_from zero_meter es (omega arith) (omega arith)
    ∙ ap₂ (λ (a b : ℕ). (a, b)) (omega arith) (omega arith)
