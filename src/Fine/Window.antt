-- ===== src/Fine/Window.antt =====
-- pkg/fine/fine.go, `TimeMultiplier.For`: the day window.
use swiftmind_parking_portal.Common.{
  String, ◌≡◌, refl, sym, ◌∙◌, inl, inr, lookup, Option-cases, arith,
}
use swiftmind_parking_portal.Common.Int.{ℤ, ◌≤ℤ◌, ◌<ℤ◌}
use swiftmind_parking_portal.Fine.Platform.{Runtime}
use swiftmind_parking_portal.Fine.{TimeMultiplier, Ruleset, time_for, breakdown, calculate}

module _ (rt : Runtime) where
  open rt use {Float, Time, hour}

  pub time_for_empty_window :
      (t : TimeMultiplier Float) (ts : Time)
      → t.night_start_hour ≤ℤ t.day_start_hour
      → time_for rt t ts ≡ t.night_multiplier
  unfolding time_for
  time_for_empty_window t ts h = ground arith

  pub time_for_day :
      (t : TimeMultiplier Float) (ts : Time)
      → t.day_start_hour ≤ℤ hour ts
      → hour ts <ℤ t.night_start_hour
      → time_for rt t ts ≡ t.day_multiplier
  unfolding time_for
  time_for_day t ts h k = ground arith

  -- Where the night starts no later than the day, the time of a violation is of no account: any two
  -- times give the same result, breakdown and all.
  pub calculate_any_time :
      (r : Ruleset Float) (violation_type : String) (prior : ℤ) (ts us : Time)
      → r.time_multiplier.night_start_hour ≤ℤ r.time_multiplier.day_start_hour
      → calculate rt r
          (record { violation_type = violation_type; occurred_at = ts; prior_unpaid_count = prior })
        ≡ calculate rt r (record {
          violation_type = violation_type;
          occurred_at = us;
          prior_unpaid_count = prior;
        })
  unfolding calculate breakdown
  calculate_any_time r violation_type prior ts us h =
      let same =
        time_for_empty_window r.time_multiplier ts h
        ∙ sym (time_for_empty_window r.time_multiplier us h) in
      elim (Option-cases (lookup violation_type r.base_amounts)) [
        | inl e ↦ rw (e, calculate) refl
        | inr (base, e) ↦ rw (e, calculate) (rw same refl)
      ]
