-- ===== src/Web/Auth/Tests.antt =====
-- The session and its guard at concrete inputs.
use swiftmind_parking_portal.Common.{◌≡◌, refl, false, Option, none, some, [], ◌∷◌}
use swiftmind_parking_portal.Web.Types.{User}
use swiftmind_parking_portal.Web.Http.{Outcome, ok}
use swiftmind_parking_portal.Web.Auth.{
  Session, initial, refresh, login, logout, fetched, use_require_auth,
}
use swiftmind_parking_portal.Web.Auth.Isolation.{
  Tab, opened, cookie_after, cookie_left, Reach, here, next, refreshed, logged_in, logged_out,
  query_settled, IsIsolated, Reach-IsIsolated,
}

abbrev officer : User
officer = record {
  id = "1";
  email = "officer@parkwatch.test";
  name = "Olivia Officer";
  role = "officer";
}

abbrev member : User
member = record { id = "2"; email = "member@parkwatch.test"; name = "Mike Member"; role = "member" }

answered :
    (u : User)
    → ◌≡◌ {A = Outcome User} (ok member) (ok u)
    → ◌≡◌ {A = Option User} (some member) (some u)
answered u e = cc

abbrev on_rules : Session
on_rules = record { user = some officer; loading = false; cache = [] }

use_require_auth-officer : (use_require_auth (some "member") on_rules).redirect ≡ some "/"
unfolding use_require_auth
use_require_auth-officer = refl

-- The member's invoices are fetched, the member signs out and the officer signs in.
abbrev shared_browser : Tab
shared_browser = record {
  session =
      (login (ok officer)
        (logout (ok tt) (fetched ("invoices" ∷ []) member (refresh (ok member) initial))).0).0;
  cookie = some officer;
}

shared_browser-Reach : Reach (opened (some member)) shared_browser
unfolding refresh fetched logout login cookie_after cookie_left
shared_browser-Reach =
    next
      (next
        (next (next here (refreshed initial (some member) (ok member) refl (λ u e. answered u e)))
          (query_settled (refresh (ok member) initial) ("invoices" ∷ []) member member refl refl))
        (logged_out _ (some member) (ok tt) refl))
      (logged_in _ none (ok officer) refl)

Reach-IsIsolated_example : IsIsolated shared_browser
Reach-IsIsolated_example = Reach-IsIsolated shared_browser-Reach
