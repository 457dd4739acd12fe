-- ===== src/Web/Routes/Redirects.antt =====
-- The redirects of the pages and the links of the dashboard.
use swiftmind_parking_portal.Common.{
  String, ◌≡◌, ◌≢◌, refl, true, false, Option, none, some, [], ◌⊎◌, inl, inr, All, arith, eq_iff,
  lookup,
}
use swiftmind_parking_portal.Web.Types.{User}
use swiftmind_parking_portal.Web.Auth.{Session}
use swiftmind_parking_portal.Web.Page.Home.{RoleCard, cards_for}
use swiftmind_parking_portal.Web.Routes.{
  Page, home, login, rules, pay, violations, new_violation, fixed_pages, page_ready, page_redirect,
}

-- The page that a session ends on when a page redirects it or does not.
abbrev pub LandsOn : Option String → Page → Page → Type 0
LandsOn none p q = q ≡ p
LandsOn (some path) p q = lookup path fixed_pages ≡ some q

redirect_cases :
    (p : Page) (s : Session)
    → (page_redirect p s ≡ none)
      ⊎ (page_redirect p s ≡ some "/login") × (s.user ≡ none)
      ⊎ (page_redirect p s ≡ some "/") × (s.user ≢ none)
unfolding page_redirect
redirect_cases login s = ground arith
redirect_cases _ s = ground arith

login-stays : (s : Session) → s.user ≡ none → page_redirect login s ≡ none
unfolding page_redirect
login-stays s h = ground arith

home-stays : (s : Session) → s.user ≢ none → page_redirect home s ≡ none
unfolding page_redirect
home-stays s h = ground arith

-- In every session a page stays, or sends the browser to a page that stays: no chain of redirects is
-- longer than one, and none goes round.
pub redirects_settle :
    (p : Page) (s : Session)
    → (q : Page) × LandsOn (page_redirect p s) p q × (page_redirect q s ≡ none)
unfolding fixed_pages
redirects_settle p s = elim (redirect_cases p s) [
  | inl e ↦ (p, rw e refl, e)
  | inr (inl (e, n)) ↦ (login, rw e refl, login-stays s n)
  | inr (inr (e, n)) ↦ (home, rw e refl, home-stays s n)
]

-- The path is that of a page that may be shown.
abbrev pub IsOpen : Session → RoleCard → Type 0
IsOpen s c = (p : Page) × (lookup c.href fixed_pages ≡ some p) × (page_ready p s ≡ true)

cards-IsOpen_officer :
    (u : User) (s : Session)
    → s.loading ≡ false
    → s.user ≡ some u
    → u.role ≡ "officer"
    → All (IsOpen s) (cards_for "officer")
unfolding cards_for page_ready fixed_pages
cards-IsOpen_officer u s l e r = (
  (new_violation, refl, ground (arith, eq_iff u.role "officer")),
  ((rules, refl, ground (arith, eq_iff u.role "officer")), ((violations, refl, ground arith), tt)),
)

cards-IsOpen_member :
    (u : User) (s : Session)
    → s.loading ≡ false
    → s.user ≡ some u
    → u.role ≡ "member"
    → All (IsOpen s) (cards_for "member")
unfolding cards_for page_ready fixed_pages
cards-IsOpen_member u s l e r =
    ((pay, refl, ground (arith, eq_iff u.role "member")), ((violations, refl, ground arith), tt))

cards_for-cases : (role : String) → (role ≡ "officer") ⊎ (role ≡ "member") ⊎ (cards_for role ≡ [])
unfolding cards_for
cards_for-cases role = ground (arith, eq_iff "officer" role, eq_iff "member" role)

-- Every card that the dashboard shows to a signed-in user leads to a page that its guard lets this
-- user see.
pub cards_for-IsOpen :
    (u : User) (s : Session)
    → s.loading ≡ false
    → s.user ≡ some u
    → All (IsOpen s) (cards_for u.role)
cards_for-IsOpen u s l e = elim (cards_for-cases u.role) [
  | inl r ↦ rw r (cards-IsOpen_officer u s l e r)
  | inr (inl r) ↦ rw r (cards-IsOpen_member u s l e r)
  | inr (inr n) ↦ rw n tt
]
