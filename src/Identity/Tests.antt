-- ===== src/Identity/Tests.antt =====
-- The identity service at concrete inputs.
use swiftmind_parking_portal.Common.{false, ◌≡◌, ◌↔◌, refl}
use swiftmind_parking_portal.Identity.{ok, issue, login, seed}
use swiftmind_parking_portal.Identity.Sample.{salted, manager, seeded, officer, token}
use swiftmind_parking_portal.Identity.Login.{IsLogin, login_iff}

login-officer :
    login salted manager 100 false "officer@parkwatch.test" "password123" seeded ≡ ok token officer
unfolding login seed issue
login-officer = refl

login_iff_example :
    (login salted manager 100 false "officer@parkwatch.test" "password123" seeded
      ≡ ok token officer)
    ↔ IsLogin salted manager 100 "officer@parkwatch.test" "password123" token officer seeded
login_iff_example =
    login_iff salted manager 100 "officer@parkwatch.test" "password123" token officer seeded
