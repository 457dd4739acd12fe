-- ===== src/Fine/Validation.antt =====
-- pkg/fine/fine.go, `Validate`: what a ruleset that passes has.
use swiftmind_parking_portal.Common.{
  String, ◌≡◌, refl, ◌≢◌, ◌↔◌, true, false, none, some, List, [], ◌∷◌, All, lookup, arith, inl, inr,
  Option-cases,
}
use swiftmind_parking_portal.Common.Int.{ℤ, pos, ◌≤ℤ◌, ◌<ℤ◌}
use swiftmind_parking_portal.Domain.{violation_types}
use swiftmind_parking_portal.Fine.Platform.{Runtime}
use swiftmind_parking_portal.Fine.{
  Ruleset, RepeatTier, valid_hour, check_bases, check_tiers, validate,
}

abbrev pub IsHour : ℤ → Type 0
IsHour h = (pos 0 ≤ℤ h) × (h ≤ℤ pos 23)

-- Every one of the types has a positive base amount.
abbrev pub HasBases : List String → List (String × ℤ) → Type 0
HasBases vts amounts = All (λ vt. (amt : ℤ) × (lookup vt amounts ≡ some amt) × (pos 0 <ℤ amt)) vts

valid_hour_iff : (h : ℤ) → (valid_hour h ≡ true) ↔ IsHour h
unfolding valid_hour
valid_hour_iff h = ground arith

module _ (rt : Runtime) where
  open rt use {Float, at_most_zero}

  abbrev pub IsSaneTier : RepeatTier Float → Type 0
  IsSaneTier t = (at_most_zero t.multiplier ≡ false) × (pos 0 ≤ℤ t.min_prior_unpaid)

  -- What makes a ruleset complete and sane, with no mention of how `validate` finds out.
  pub record IsComplete (r : Ruleset Float) : Type 0 where
    pub bases : HasBases violation_types r.base_amounts
    pub day_pos : at_most_zero r.time_multiplier.day_multiplier ≡ false
    pub night_pos : at_most_zero r.time_multiplier.night_multiplier ≡ false
    pub day_hour : IsHour r.time_multiplier.day_start_hour
    pub night_hour : IsHour r.time_multiplier.night_start_hour
    pub has_tier : r.tiers ≢ []
    pub sane_tiers : All IsSaneTier r.tiers

  check_bases_sound :
      (vts : List String) (amounts : List (String × ℤ))
      → check_bases rt vts amounts ≡ none
      → HasBases vts amounts
  unfolding check_bases
  check_bases_sound [] amounts h = tt
  check_bases_sound (vt ∷ vts) amounts h = elim (Option-cases (lookup vt amounts)) [
    | inl missing ↦ ground arith
    | inr (amt, found) ↦ ((amt, found, ground arith), check_bases_sound vts amounts (ground arith))
  ]

  check_bases_complete :
      (vts : List String) (amounts : List (String × ℤ))
      → HasBases vts amounts
      → check_bases rt vts amounts ≡ none
  unfolding check_bases
  check_bases_complete [] amounts h = refl
  check_bases_complete (vt ∷ vts) amounts h = ground (arith, check_bases_complete vts amounts h.1)

  check_tiers_iff : (ts : List (RepeatTier Float)) → (check_tiers rt ts ≡ none) ↔ All IsSaneTier ts
  unfolding check_tiers
  check_tiers_iff [] = ground arith
  check_tiers_iff (t ∷ ts) = ground (arith, check_tiers_iff ts)

  validate_sound : (r : Ruleset Float) → validate rt r ≡ none → IsComplete r
  unfolding validate
  validate_sound r h = record {
    bases = check_bases_sound violation_types r.base_amounts (ground arith);
    day_pos = ground arith;
    night_pos = ground arith;
    day_hour = (valid_hour_iff _).0 (ground arith);
    night_hour = (valid_hour_iff _).0 (ground arith);
    has_tier = ground arith;
    sane_tiers = (check_tiers_iff r.tiers).0 (ground arith);
  }

  validate_complete : (r : Ruleset Float) → IsComplete r → validate rt r ≡ none
  unfolding validate
  validate_complete r c = ground (
    arith,
    c.day_pos,
    c.night_pos,
    c.has_tier,
    check_bases_complete violation_types r.base_amounts c.bases,
    (check_tiers_iff r.tiers).1 c.sane_tiers,
    (valid_hour_iff r.time_multiplier.day_start_hour).1 c.day_hour,
    (valid_hour_iff r.time_multiplier.night_start_hour).1 c.night_hour,
  )

  -- `validate` accepts a ruleset exactly when it is complete: every violation type has a positive
  -- base amount, both time multipliers are positive, both hours lie in 0 to 23, there is a tier,
  -- and each tier has a positive multiplier and a threshold that is not negative.
  pub validate_iff : (r : Ruleset Float) → (validate rt r ≡ none) ↔ IsComplete r
  validate_iff r = (validate_sound r, validate_complete r)
