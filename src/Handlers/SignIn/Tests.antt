-- ===== src/Handlers/SignIn/Tests.antt =====
-- Signing in through the gateway at a concrete request.
use swiftmind_parking_portal.Common.{◌≡◌, refl, true, false, none, some}
use swiftmind_parking_portal.Identity.{login, seed, issue}
use swiftmind_parking_portal.Identity.Sample.{salted, manager, seeded, token}
use swiftmind_parking_portal.Handlers.{failure}
use swiftmind_parking_portal.Handlers.SignIn.{LoginRequest, sign_in}

abbrev request : LoginRequest
request = record { email = "officer@parkwatch.test"; password = "password123" }

sign_in-officer : (sign_in salted manager 100 true false (some request) seeded).1 ≡ some token
unfolding sign_in login seed issue
sign_in-officer = refl

sign_in_wrong :
    sign_in salted manager 100 true false (some (record request { password = "guess" })) seeded
    ≡ (failure 401 "invalid email or password", none)
unfolding sign_in login seed
sign_in_wrong = refl
