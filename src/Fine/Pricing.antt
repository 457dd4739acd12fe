-- ===== src/Fine/Pricing.antt =====
-- pkg/fine/fine.go, `Calculate`: what a calculation over a published ruleset gives.
use swiftmind_parking_portal.Common.{
  ℕ, String, ◌≡◌, refl, ◌⊎◌, inl, inr, true, false, Bool-cases, none, some, List, [], ◌∷◌, All,
  arith, lookup, eq_iff, ap, ◌∙◌, ◌≤◌,
}
use swiftmind_parking_portal.Common.Int.{ℤ, pos, negsuc, ◌≤ℤ◌, ◌<ℤ◌, leb_ℤ}
use swiftmind_parking_portal.Domain.{valid_violation_type, violation_types}
use swiftmind_parking_portal.Fine.Platform.{Runtime, RuntimeLaws}
use swiftmind_parking_portal.Fine.{
  Ruleset, RepeatTier, Input, Breakdown, time_for, repeat_from, repeat_for, breakdown, calculate,
  validate, default_ruleset,
}
use swiftmind_parking_portal.Fine.Window.{time_for_day}
use swiftmind_parking_portal.Fine.Validation.{HasBases, IsSaneTier, IsComplete, validate_iff}

valid_violation_type-cases :
    (vt : String)
    → valid_violation_type vt ≡ true
    → (vt ≡ "expired_meter")
      ⊎ (vt ≡ "no_parking_zone")
      ⊎ (vt ≡ "blocking_hydrant")
      ⊎ (vt ≡ "disabled_spot")
unfolding valid_violation_type
valid_violation_type-cases vt h = ground (
  arith,
  eq_iff vt "expired_meter",
  eq_iff vt "no_parking_zone",
  eq_iff vt "blocking_hydrant",
  eq_iff vt "disabled_spot",
)

-- A valid violation type is one of the listed ones, so a complete ruleset has an amount for it.
HasBases-valid :
    (vt : String) (amounts : List (String × ℤ))
    → HasBases violation_types amounts
    → valid_violation_type vt ≡ true
    → (amt : ℤ) × (lookup vt amounts ≡ some amt) × (pos 0 <ℤ amt)
unfolding violation_types
HasBases-valid vt amounts h v = elim (valid_violation_type-cases vt v) [
  | inl e ↦ rw e h.0
  | inr (inl e) ↦ rw e h.1.0
  | inr (inr (inl e)) ↦ rw e h.1.1.0
  | inr (inr (inr e)) ↦ rw e h.1.1.1.0
]

module _ (rt : Runtime) (laws : RuntimeLaws rt) where
  open rt use {Float, Time, at_most_zero, of_int, round, tenths}
  open laws use {LeFloat}

  time_for_pos :
      (r : Ruleset Float) (ts : Time)
      → IsComplete rt r
      → at_most_zero (time_for rt r.time_multiplier ts) ≡ false
  unfolding time_for
  time_for_pos r ts c = ground (arith, c.day_pos, c.night_pos)

  repeat_from_pos :
      (ts : List (RepeatTier Float)) (m : Float) (prior : ℤ)
      → at_most_zero m ≡ false
      → All (IsSaneTier rt) ts
      → at_most_zero (repeat_from rt m ts prior) ≡ false
  unfolding repeat_from
  repeat_from_pos [] m prior h s = h
  repeat_from_pos (t ∷ ts) m prior h s = repeat_from_pos ts _ prior (ground arith) s.1

  -- What a breakdown has whatever the ruleset's numbers.
  pub record IsPositive (b : Breakdown Float) : Type 0 where
    pub base : pos 0 <ℤ b.base_amount
    pub time : at_most_zero b.time_multiplier ≡ false
    pub repeat : at_most_zero b.repeat_multiplier ≡ false

  -- A ruleset that passes validation prices every valid violation type: the calculation does not
  -- fail, the base amount and both multipliers of the breakdown are positive, and the final amount
  -- is the rounded product of the three.
  pub calculate_total :
      (r : Ruleset Float) (i : Input Time)
      → validate rt r ≡ none
      → valid_violation_type i.violation_type ≡ true
      → (b : Breakdown Float) × (calculate rt r i ≡ some b)
        × IsPositive b
        × (b.final_amount
            ≡ round
                (rt.times (rt.times (of_int b.base_amount) b.time_multiplier) b.repeat_multiplier))
        × (b.prior_unpaid_count ≡ i.prior_unpaid_count)
  unfolding calculate repeat_for
  calculate_total r i h v =
      let c = (validate_iff rt r).0 h in
      let (amt, found, amt_pos) = HasBases-valid i.violation_type r.base_amounts c.bases v in
      (
        breakdown rt r i amt,
        rw (found, calculate),
        record {
          base = amt_pos;
          time = time_for_pos r i.occurred_at c;
          repeat =
              repeat_from_pos r.tiers (tenths 10) i.prior_unpaid_count laws.one_pos c.sane_tiers;
        },
        refl,
        refl,
      )

  zero_le_of_pos_int : (n : ℤ) → pos 0 <ℤ n → LeFloat (tenths 0) (of_int n)
  zero_le_of_pos_int (pos n) h = laws.zero_le_of_int n
  zero_le_of_pos_int (negsuc n) h = absurd (omega arith)

  -- The multipliers do not fall along the list, from `m` on.
  abbrev pub IsRising : Float → List (RepeatTier Float) → Type 0
  IsRising m [] = Unit
  IsRising m (t ∷ ts) = LeFloat m t.multiplier × IsRising t.multiplier ts

  IsRising-le :
      (m n : Float) (ts : List (RepeatTier Float)) → LeFloat m n → IsRising n ts → IsRising m ts
  IsRising-le m n [] h r = tt
  IsRising-le m n (t ∷ ts) h r = (laws.le_float_trans m n t.multiplier h r.0, r.1)

  repeat_from_mono :
      (ts : List (RepeatTier Float)) (m n : Float) (fewer more : ℤ)
      → fewer ≤ℤ more
      → LeFloat m n
      → IsRising n ts
      → LeFloat (repeat_from rt m ts fewer) (repeat_from rt n ts more)
  unfolding repeat_from
  repeat_from_mono [] m n fewer more le h r = h
  repeat_from_mono (t ∷ ts) m n fewer more le h r =
      elim (Bool-cases (leb_ℤ t.min_prior_unpaid fewer)) [
        | inl few ↦
            let many : leb_ℤ t.min_prior_unpaid more ≡ true = ground arith in
            rw (few, many)
              (repeat_from_mono ts t.multiplier t.multiplier fewer more le (laws.le_float_refl _)
                r.1)
        | inr few ↦ elim (Bool-cases (leb_ℤ t.min_prior_unpaid more)) [
          | inl many ↦
              rw (few, many)
                (repeat_from_mono ts m t.multiplier fewer more le
                  (laws.le_float_trans m n t.multiplier h r.0) r.1)
          | inr many ↦
              rw (few, many)
                (repeat_from_mono ts m n fewer more le h (IsRising-le n t.multiplier ts r.0 r.1))
        ]
      ]

  -- The product that `Calculate` rounds is at most 2 ^ 62, so that an int64 holds it.
  abbrev pub IsInRange : Breakdown Float → Type 0
  IsInRange b =
      LeFloat (rt.times (rt.times (of_int b.base_amount) b.time_multiplier) b.repeat_multiplier)
        (of_int (pos 4611686018427387904))

  -- On a ruleset that passes validation and whose multipliers do not fall along the tiers, starting
  -- from 1.0, a valid violation type is priced no lower with more prior unpaid violations, provided
  -- that the higher product is at most 2 ^ 62 before it is rounded.
  pub calculate_mono :
      (r : Ruleset Float) (i : Input Time) (more : ℤ)
      → validate rt r ≡ none
      → valid_violation_type i.violation_type ≡ true
      → IsRising (tenths 10) r.tiers
      → i.prior_unpaid_count ≤ℤ more
      → ((b : Breakdown Float)
          → calculate rt r (record i { prior_unpaid_count = more }) ≡ some b
          → IsInRange b)
      → (b b' : Breakdown Float) × (calculate rt r i ≡ some b)
        × (calculate rt r (record i { prior_unpaid_count = more }) ≡ some b')
        × (b.final_amount ≤ℤ b'.final_amount)
  unfolding calculate repeat_for
  calculate_mono r i more h v rising le bounded =
      let c = (validate_iff rt r).0 h in
      let (amt, found, amt_pos) = HasBases-valid i.violation_type r.base_amounts c.bases v in
      let timed =
        laws.times_nonneg _ _ (zero_le_of_pos_int amt amt_pos)
          (laws.zero_le_of_pos _ (time_for_pos r i.occurred_at c)) in
      let dearer = breakdown rt r (record i { prior_unpaid_count = more }) amt in
      (
        breakdown rt r i amt,
        dearer,
        rw (found, calculate),
        rw (found, calculate),
        laws.round_mono _ _
            (laws.times_nonneg _ _ timed (
              laws.zero_le_of_pos _ (
                repeat_from_pos r.tiers (tenths 10) i.prior_unpaid_count laws.one_pos
                  c.sane_tiers)))
            (laws.times_mono_right _ _ _ timed (
              repeat_from_mono r.tiers (tenths 10) (tenths 10) i.prior_unpaid_count more le
                (laws.le_float_refl _) rising))
            (bounded dearer (rw (found, calculate))),
      )

  first_by_day :
      (i : Input Time) (n : ℕ)
      → pos 6 ≤ℤ rt.hour i.occurred_at
      → rt.hour i.occurred_at <ℤ pos 22
      → i.prior_unpaid_count ≡ pos 0
      → lookup i.violation_type (default_ruleset rt).base_amounts ≡ some (pos n)
      → n ≤ 9007199254740992
      → (b : Breakdown Float) × (calculate rt (default_ruleset rt) i ≡ some b)
        × (some b.final_amount ≡ lookup i.violation_type (default_ruleset rt).base_amounts)
  unfolding calculate default_ruleset repeat_for
  first_by_day i n from_six until_ten first found small =
      let day =
        time_for_day rt (default_ruleset rt).time_multiplier i.occurred_at from_six until_ten in
      (
        breakdown rt (default_ruleset rt) i (pos n),
        rw (found, calculate),
        rw found (
            ap some (
              rw (day, first)
                (ap round (laws.times_one _ ∙ laws.times_one _) ∙ laws.round_of_int n small))),
      )

  -- Under the day-one ruleset a first violation between 6:00 and 22:00 costs exactly the base amount
  -- of its type, for each of the valid types.
  pub calculate_first_by_day :
      (i : Input Time)
      → valid_violation_type i.violation_type ≡ true
      → pos 6 ≤ℤ rt.hour i.occurred_at
      → rt.hour i.occurred_at <ℤ pos 22
      → i.prior_unpaid_count ≡ pos 0
      → (b : Breakdown Float) × (calculate rt (default_ruleset rt) i ≡ some b)
        × (some b.final_amount ≡ lookup i.violation_type (default_ruleset rt).base_amounts)
  unfolding default_ruleset
  calculate_first_by_day i v from_six until_ten first =
      elim (valid_violation_type-cases i.violation_type v) [
        | inl e ↦ first_by_day i 50000 from_six until_ten first (rw e) (omega arith)
        | inr (inl e) ↦ first_by_day i 150000 from_six until_ten first (rw e) (omega arith)
        | inr (inr (inl e)) ↦ first_by_day i 250000 from_six until_ten first (rw e) (omega arith)
        | inr (inr (inr e)) ↦ first_by_day i 500000 from_six until_ten first (rw e) (omega arith)
      ]
