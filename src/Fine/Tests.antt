-- ===== src/Fine/Tests.antt =====
-- The pricing at concrete inputs.
use mathlib.Core.Path.{subst}
use mathlib.Core.Option.{some-injective}
use swiftmind_parking_portal.Common.{ℕ, ◌*◌, ◌/◌, ◌+◌, ◌≡◌, refl, ◌↔◌, none, some, [], ◌∷◌, arith}
use swiftmind_parking_portal.Common.Int.{pos, ◌≤ℤ◌}
use swiftmind_parking_portal.Fine.Sample.{
  quarters, in_quarters, in_quarters_laws, default_ruleset-valid,
}
use swiftmind_parking_portal.Domain.{valid_violation_type}
use swiftmind_parking_portal.Fine.{
  Ruleset, RepeatTier, TimeMultiplier, Input, Breakdown, time_for, repeat_for, calculate, validate,
  default_ruleset, bad_hour,
}
use swiftmind_parking_portal.Fine.Validation.{IsComplete, validate_iff}
use swiftmind_parking_portal.Fine.Tiers.{Chooses, repeat_for-Chooses}
use swiftmind_parking_portal.Fine.Pricing.{IsPositive, IsInRange, calculate_total, calculate_mono}

-- A third violation on a hydrant at 23:00 (README, flow 2): 250000 × 1.5 × 2.0.
abbrev hydrant : Input ℕ
hydrant = record {
  violation_type = "blocking_hydrant";
  occurred_at = 23;
  prior_unpaid_count = pos 2;
}

abbrev meter : Input ℕ
meter = record { violation_type = "expired_meter"; occurred_at = 9; prior_unpaid_count = pos 0 }

calculate-hydrant :
    calculate in_quarters (default_ruleset in_quarters) hydrant
    ≡ some (record {
      base_amount = pos 250000;
      time_multiplier = 6;
      repeat_multiplier = 8;
      prior_unpaid_count = pos 2;
      final_amount = pos 750000;
    })
unfolding calculate default_ruleset repeat_for time_for
calculate-hydrant = refl

abbrev late_day : Ruleset ℕ
late_day = record {
  base_amounts =
      ("expired_meter", pos 1)
      ∷ ("no_parking_zone", pos 1)
      ∷ ("blocking_hydrant", pos 1)
      ∷ ("disabled_spot", pos 1)
      ∷ [];
  time_multiplier = record {
    day_start_hour = pos 24;
    night_start_hour = pos 22;
    day_multiplier = 4;
    night_multiplier = 6;
  };
  tiers = record { min_prior_unpaid = pos 0; multiplier = 4 } ∷ [];
}

validate-late_day : validate in_quarters late_day ≡ some bad_hour
unfolding validate
validate-late_day = refl

validate_iff_example :
    (validate in_quarters (default_ruleset in_quarters) ≡ none)
    ↔ IsComplete in_quarters (default_ruleset in_quarters)
validate_iff_example = validate_iff in_quarters (default_ruleset in_quarters)

abbrev first_tier : RepeatTier ℕ
first_tier = record { min_prior_unpaid = pos 0; multiplier = 4 }

abbrev third_tier : RepeatTier ℕ
third_tier = record { min_prior_unpaid = pos 2; multiplier = 8 }

repeat_for-Chooses_example :
    Chooses
      (first_tier ∷ third_tier ∷ [])
      (pos 3)
      4
      (repeat_for in_quarters (first_tier ∷ third_tier ∷ []) (pos 3))
repeat_for-Chooses_example =
    repeat_for-Chooses in_quarters (first_tier ∷ third_tier ∷ []) (pos 3) (omega arith)

abbrev backwards : TimeMultiplier ℕ
backwards = record {
  day_start_hour = pos 22;
  night_start_hour = pos 6;
  day_multiplier = 4;
  night_multiplier = 6;
}

abbrev backwards_ruleset : Ruleset ℕ
backwards_ruleset = record (default_ruleset in_quarters) { time_multiplier = backwards }

validate-backwards_ruleset : validate in_quarters backwards_ruleset ≡ none
unfolding validate default_ruleset
validate-backwards_ruleset = refl

calculate_total_example :
    (b : Breakdown ℕ) × (calculate in_quarters (default_ruleset in_quarters) hydrant ≡ some b)
    × IsPositive in_quarters in_quarters_laws b
    × (b.final_amount
        ≡ pos ((quarters b.base_amount * b.time_multiplier / 4 * b.repeat_multiplier / 4 + 2) / 4))
    × (b.prior_unpaid_count ≡ pos 2)
unfolding valid_violation_type
calculate_total_example =
    calculate_total in_quarters in_quarters_laws (default_ruleset in_quarters) hydrant
      default_ruleset-valid refl

meter-IsInRange :
    (b : Breakdown ℕ)
    → calculate in_quarters
        (default_ruleset in_quarters)
        (record meter { prior_unpaid_count = pos 5 })
      ≡ some b
    → IsInRange in_quarters in_quarters_laws b
unfolding calculate default_ruleset time_for repeat_for
meter-IsInRange b h =
    subst (IsInRange in_quarters in_quarters_laws) (some-injective _ b h) (omega arith)

calculate_mono_example :
    (b b' : Breakdown ℕ) × (calculate in_quarters (default_ruleset in_quarters) meter ≡ some b)
    × (calculate in_quarters
          (default_ruleset in_quarters)
          (record meter { prior_unpaid_count = pos 5 })
        ≡ some b')
    × (b.final_amount ≤ℤ b'.final_amount)
unfolding default_ruleset valid_violation_type
calculate_mono_example =
    calculate_mono in_quarters in_quarters_laws (default_ruleset in_quarters) meter (pos 5)
      default_ruleset-valid refl (omega arith) (omega arith) meter-IsInRange
