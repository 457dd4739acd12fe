-- ===== src/Domain.antt =====
-- pkg/domain/domain.go: the roles and the violation types. Both are named string types there, so
-- any text is a value of them.
use swiftmind_parking_portal.Common.{String, Bool, List, [], ◌∷◌, ◌||◌, ◌=t◌}

abbrev pub role_officer : String
role_officer = "officer"

abbrev pub role_member : String
role_member = "member"

-- `Role.Valid`.
abbrev pub valid_role : String → Bool
valid_role r = r =t role_officer || r =t role_member

abbrev pub violation_expired_meter : String
violation_expired_meter = "expired_meter"

abbrev pub violation_no_parking_zone : String
violation_no_parking_zone = "no_parking_zone"

abbrev pub violation_blocking_hydrant : String
violation_blocking_hydrant = "blocking_hydrant"

abbrev pub violation_disabled_spot : String
violation_disabled_spot = "disabled_spot"

-- `ViolationTypes`, in display order.
unfoldable pub violation_types : List String
violation_types =
    violation_expired_meter ∷ violation_no_parking_zone ∷ violation_blocking_hydrant
    ∷ violation_disabled_spot ∷ []

-- `ViolationType.Valid`.
unfoldable pub valid_violation_type : String → Bool
valid_violation_type v =
    v =t violation_expired_meter
    || v =t violation_no_parking_zone
    || v =t violation_blocking_hydrant
    || v =t violation_disabled_spot

abbrev pub header_user_id : String
header_user_id = "X-User-Id"

abbrev pub header_user_role : String
header_user_role = "X-User-Role"

abbrev pub header_user_email : String
header_user_email = "X-User-Email"

abbrev pub header_user_name : String
header_user_name = "X-User-Name"
