-- ===== src/Web/Routes.antt =====
-- The pages under web/src/app, the path of each and the role that its call of `useRequireAuth` asks
-- for. Next's file-system router is third-party code: a page's path is its folder.
pub mod Redirects
mod Tests
use swiftmind_parking_portal.Common.{
  String, Bool, true, false, Option, none, some, List, [], ◌∷◌, lookup, ◌+t◌,
}
use swiftmind_parking_portal.Web.Auth.{Session, use_require_auth, Guarded}
use swiftmind_parking_portal.Web.Page.Login.{leave}

pub data Page : Type 0 where
  home login rules pay violations new_violation : Page
  violation_detail receipt : (id : String) → Page

-- The pages whose path is fixed.
unfoldable pub fixed_pages : List (String × Page)
fixed_pages =
    ("/", home)
    ∷ ("/login", login)
    ∷ ("/rules", rules)
    ∷ ("/pay", pay)
    ∷ ("/violations", violations)
    ∷ ("/violations/new", new_violation)
    ∷ []

-- The argument of `useRequireAuth` on each page that calls it.
unfoldable pub page_role : Page → Option String
page_role rules = some "officer"
page_role new_violation = some "officer"
page_role pay = some "member"
page_role home = none
page_role login = none
page_role violations = none
page_role (violation_detail id) = none
page_role (receipt id) = none

-- The guard of a page; the login page shows to everybody.
unfoldable pub page_ready : Page → Session → Bool
unfolding use_require_auth page_role
page_ready login s = true
page_ready p s = (use_require_auth (page_role p) s).ready

-- Where the effects of a page send the browser.
unfoldable pub page_redirect : Page → Session → Option String
unfolding use_require_auth page_role leave
page_redirect login s = leave s
page_redirect p s = (use_require_auth (page_role p) s).redirect
