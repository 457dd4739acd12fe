-- ===== src/Web/Routes/Tests.antt =====
-- The routes at concrete inputs.
use swiftmind_parking_portal.Common.{◌≡◌, refl, false, none, some, [], All}
use swiftmind_parking_portal.Web.Types.{User}
use swiftmind_parking_portal.Web.Auth.{Session}
use swiftmind_parking_portal.Web.Page.Home.{cards_for}
use swiftmind_parking_portal.Web.Routes.{Page, rules, page_redirect}
use swiftmind_parking_portal.Web.Routes.Redirects.{
  LandsOn, redirects_settle, IsOpen, cards_for-IsOpen,
}

abbrev member : User
member = record { id = "2"; email = "member@parkwatch.test"; name = "Mike Member"; role = "member" }

abbrev signed_in : Session
signed_in = record { user = some member; loading = false; cache = [] }

-- A member who opens the page of the rules.
redirects_settle_example :
    (q : Page) × LandsOn (page_redirect rules signed_in) rules q
    × (page_redirect q signed_in ≡ none)
redirects_settle_example = redirects_settle rules signed_in

cards_for-IsOpen_example : All (IsOpen signed_in) (cards_for "member")
cards_for-IsOpen_example = cards_for-IsOpen member signed_in refl refl
