-- ===== src/Fine.antt =====
-- pkg/fine/fine.go: pricing a violation against a ruleset, and the validation of a ruleset before
-- it is published. `float64`, `math.Round` and `time.Time` are Go's: they come as `Runtime`.
-- `int` and `int64` are unbounded here.
pub mod Platform
pub mod Validation
pub mod Tiers
pub mod Window
pub mod Pricing
pub mod Sample
mod Tests
use swiftmind_parking_portal.Common.{
  ℕ, String, Bool, true, false, ◌&&◌, ◌||◌, Option, none, some, List, [], ◌∷◌, lookup,
  if◌then◌else◌, not,
}
use swiftmind_parking_portal.Common.Int.{ℤ, pos, leb_ℤ, ltb_ℤ}
use swiftmind_parking_portal.Domain.{violation_types}
use Platform.{Runtime}

module _ (Float : Type 0) where
  pub record TimeMultiplier : Type 0 where
    pub day_start_hour : ℤ
    pub night_start_hour : ℤ
    pub day_multiplier : Float
    pub night_multiplier : Float

  pub record RepeatTier : Type 0 where
    pub min_prior_unpaid : ℤ
    pub multiplier : Float

  pub record Ruleset : Type 0 where
    pub base_amounts : List (String × ℤ)
    pub time_multiplier : TimeMultiplier
    -- the field `Tiers` of `RepeatMultiplier`
    pub tiers : List RepeatTier

  pub record Breakdown : Type 0 where
    pub base_amount : ℤ
    pub time_multiplier : Float
    pub repeat_multiplier : Float
    pub prior_unpaid_count : ℤ
    pub final_amount : ℤ

pub record Input (Time : Type 0) : Type 0 where
  pub violation_type : String
  pub occurred_at : Time
  pub prior_unpaid_count : ℤ

-- The errors of `Validate`, one for each message.
pub data InvalidRuleset : Type 0 where
  missing_base nonpositive_base : String → InvalidRuleset
  nonpositive_time_multiplier bad_hour no_tier nonpositive_repeat_multiplier : InvalidRuleset
  negative_threshold : InvalidRuleset

-- `validHour`.
unfoldable pub valid_hour : ℤ → Bool
valid_hour h = leb_ℤ (pos 0) h && leb_ℤ h (pos 23)

module _ (rt : Runtime) where
  open rt use {Float, Time, hour, of_int, times, round, at_most_zero, tenths}

  -- `TimeMultiplier.For`.
  unfoldable pub time_for : TimeMultiplier Float → Time → Float
  time_for t ts =
      let h = hour ts in
      if leb_ℤ t.day_start_hour h && ltb_ℤ h t.night_start_hour
      then t.day_multiplier
      else t.night_multiplier

  -- The loop of `RepeatMultiplier.For`.
  unfoldable pub repeat_from : Float → List (RepeatTier Float) → ℤ → Float
  repeat_from mult [] prior = mult
  repeat_from mult (tier ∷ tiers) prior =
      repeat_from (if leb_ℤ tier.min_prior_unpaid prior then tier.multiplier else mult) tiers prior

  -- `RepeatMultiplier.For`.
  unfoldable pub repeat_for : List (RepeatTier Float) → ℤ → Float
  unfolding repeat_from
  repeat_for tiers prior = repeat_from (tenths 10) tiers prior

  -- The result of `Calculate` once the base amount is known.
  unfoldable pub breakdown : Ruleset Float → Input Time → ℤ → Breakdown Float
  breakdown r i base =
      let time_mult = time_for r.time_multiplier i.occurred_at in
      let repeat_mult = repeat_for r.tiers i.prior_unpaid_count in
      record {
        base_amount = base;
        time_multiplier = time_mult;
        repeat_multiplier = repeat_mult;
        prior_unpaid_count = i.prior_unpaid_count;
        final_amount = round (times (times (of_int base) time_mult) repeat_mult);
      }

  -- `Calculate`; `none` is the error for an unknown violation type.
  unfoldable pub calculate : Ruleset Float → Input Time → Option (Breakdown Float)
  unfolding breakdown
  calculate r i = elim (lookup i.violation_type r.base_amounts) [
    | none ↦ none
    | some base ↦ some (breakdown r i base)
  ]

  -- The loop over the violation types in `Validate`.
  unfoldable pub check_bases : List String → List (String × ℤ) → Option InvalidRuleset
  check_bases [] amounts = none
  check_bases (vt ∷ vts) amounts = elim (lookup vt amounts) [
    | none ↦ some (missing_base vt)
    | some amt ↦ elim (leb_ℤ amt (pos 0)) [
      | true ↦ some (nonpositive_base vt)
      | false ↦ check_bases vts amounts
    ]
  ]

  -- The loop over the tiers in `Validate`.
  unfoldable pub check_tiers : List (RepeatTier Float) → Option InvalidRuleset
  check_tiers [] = none
  check_tiers (tier ∷ tiers) =
      let rest = check_tiers tiers in
      if at_most_zero tier.multiplier
      then some nonpositive_repeat_multiplier
      else if ltb_ℤ tier.min_prior_unpaid (pos 0)
      then some negative_threshold
      else rest

  abbrev is_empty {ℓ} : {A : Type ℓ} → List A → Bool
  is_empty [] = true
  is_empty (_ ∷ _) = false

  -- `Validate`; `none` is the nil error.
  unfoldable pub validate : Ruleset Float → Option InvalidRuleset
  unfolding check_bases check_tiers valid_hour violation_types
  validate r = elim (check_bases violation_types r.base_amounts) [
    | some e ↦ some e
    | none ↦
        let tm = r.time_multiplier in
        if at_most_zero tm.day_multiplier || at_most_zero tm.night_multiplier
        then some nonpositive_time_multiplier
        else if not (valid_hour tm.day_start_hour) || not (valid_hour tm.night_start_hour)
        then some bad_hour
        else if is_empty r.tiers
        then some no_tier
        else check_tiers r.tiers
  ]

  -- `DefaultRuleset`.
  unfoldable pub default_ruleset : Ruleset Float
  default_ruleset = record {
    base_amounts =
        ("expired_meter", pos 50000)
        ∷ ("no_parking_zone", pos 150000)
        ∷ ("blocking_hydrant", pos 250000)
        ∷ ("disabled_spot", pos 500000)
        ∷ [];
    time_multiplier = record {
      day_start_hour = pos 6;
      night_start_hour = pos 22;
      day_multiplier = tenths 10;
      night_multiplier = tenths 15;
    };
    tiers =
        record { min_prior_unpaid = pos 0; multiplier = tenths 10 }
        ∷ record { min_prior_unpaid = pos 1; multiplier = tenths 15 }
        ∷ record { min_prior_unpaid = pos 2; multiplier = tenths 20 }
        ∷ [];
  }
