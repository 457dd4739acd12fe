-- ===== src/Web/Page/Rules/Tests.antt =====
-- The rules page at concrete inputs.
use swiftmind_parking_portal.Common.{◌≡◌, refl, some, true, [], ◌∷◌}
use swiftmind_parking_portal.Web.Sample.{sample_host}
use swiftmind_parking_portal.Web.Types.{Ruleset, RuleVersion}
use swiftmind_parking_portal.Web.Page.Rules.{
  handle, set_base_amount, set_tier_field, multiplier, set_base, set_tier,
}
use swiftmind_parking_portal.Web.Page.Rules.Draft.{after}

abbrev draft : Ruleset sample_host.Num
draft = record {
  base_amounts = ("expired_meter", 50000) ∷ [];
  time_multiplier = record {
    day_start_hour = 6;
    night_start_hour = 22;
    day_multiplier = 1;
    night_multiplier = 2;
  };
  tiers =
      record { min_prior_unpaid = 0; multiplier = 1 }
      ∷ record { min_prior_unpaid = 3; multiplier = 2 }
      ∷ [];
}

abbrev active : RuleVersion sample_host.Num
active = record {
  id = "r-1";
  version = 1;
  is_active = true;
  rules = draft;
  created_by = "system";
  created_at = "2025-01-01T08:00:00Z";
}

after-two :
    after sample_host active (set_base "expired_meter" "7" ∷ set_tier 1 multiplier "2" ∷ []) draft
    ≡ some (record draft {
      base_amounts = ("expired_meter", 1) ∷ [];
      tiers =
          record { min_prior_unpaid = 0; multiplier = 1 }
          ∷ record { min_prior_unpaid = 3; multiplier = 1 }
          ∷ [];
    })
unfolding handle set_base_amount set_tier_field
after-two = refl
