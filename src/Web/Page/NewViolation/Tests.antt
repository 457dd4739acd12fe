-- ===== src/Web/Page/NewViolation/Tests.antt =====
-- The form for a new violation at concrete inputs.
use swiftmind_parking_portal.Common.{◌≡◌, refl, List, [], ◌∷◌}
use swiftmind_parking_portal.Web.Sample.{sample_host}
use swiftmind_parking_portal.Web.Page.NewViolation.{
  Action, submit, set_plate, set_type, initial_form, submitted, handle,
}
use swiftmind_parking_portal.Web.Page.NewViolation.Submitting.{after}

abbrev typing : List Action
typing = set_plate "B1234ABC" ∷ set_type "" ∷ set_type "no_parking_zone" ∷ submit ∷ []

typed :
    (submitted sample_host (after sample_host typing (initial_form sample_host))).violation_type
    ≡ "no_parking_zone"
unfolding submitted handle
typed = refl
