-- ===== src/Portal/Session/Tests.antt =====
-- Signing in and the notifications, all the way, at concrete inputs.
use swiftmind_parking_portal.Common.{◌≡◌, refl, true, false, none, some, []}
use swiftmind_parking_portal.Gateway.{Config}
use swiftmind_parking_portal.Identity.{verify, login, seed, issue}
use swiftmind_parking_portal.Identity.Sample.{salted, salted_laws, manager, seeded, token, officer}
use swiftmind_parking_portal.Handlers.{json}
use swiftmind_parking_portal.Handlers.SignIn.{LoginRequest, sign_in}
use swiftmind_parking_portal.Web.Auth.{Session, initial, refresh}
use swiftmind_parking_portal.Web.Http.{Outcome, str}
use swiftmind_parking_portal.Web.Types.{User}
use swiftmind_parking_portal.Wire.{user_body, sent, singleton}
use swiftmind_parking_portal.Wire.Reading.{user_outcome, web_user}
use swiftmind_parking_portal.Wire.Sample.{write, reads, reads-Carries}
use swiftmind_parking_portal.Portal.{me_outcome}
use swiftmind_parking_portal.Portal.Session.{
  after_login, after_reload, claimed, verified, sign_in-reload, refresh-me,
}

abbrev request : LoginRequest
request = record { email = "officer@parkwatch.test"; password = "password123" }

abbrev config : Config
config = record {
  cookie_name = "access_token";
  trim_prefix = λ p s. none;
  verify = verify salted manager 200;
}

sign_in-officer :
    sign_in salted manager 100 true false (some request) seeded ≡ (json 200 officer, some token)
unfolding sign_in login seed issue
sign_in-officer = refl

sign_in-reload_example :
    ((after_login
        (user_outcome
          (reads (user_body officer) "")
          (sent write user_body (sign_in salted manager 100 true false (some request) seeded).0))
        initial).user
      ≡ some (web_user officer))
    × (after_reload (me_outcome (reads (user_body officer) "") write config token)
        ≡ record { user = some (web_user officer); loading = false; cache = [] })
sign_in-reload_example =
    sign_in-reload (reads (user_body officer) "") write salted salted_laws manager config 100 200
      3499 true false (some request) seeded token officer initial (λ t. refl) sign_in-officer refl
      (reads-Carries (user_body officer) "")

-- A session whose token has expired.
abbrev later : Config
later = record config { verify = λ t. none }

abbrev signed_in : Session
signed_in = record { user = some (web_user officer); loading = false; cache = [] }

refresh-me_example :
    (o : Outcome User) × (me_outcome
        (reads (singleton "error" (str "invalid or expired token")) "invalid or expired token")
        write
        later
        "t"
      ≡ some o)
    × (refresh o signed_in
        ≡ record signed_in { user = claimed (verified later "t"); loading = false })
refresh-me_example =
    refresh-me
      (reads (singleton "error" (str "invalid or expired token")) "invalid or expired token") write
      later "t" signed_in refl
      (
        refl,
        reads-Carries (singleton "error" (str "invalid or expired token"))
            "invalid or expired token",
        refl,
      )
