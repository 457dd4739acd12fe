-- ===== src/Web/Auth/Guard.antt =====
-- web/src/hooks/use-require-auth.ts: what the guard of a page decides.
use swiftmind_parking_portal.Common.{
  String, ◌≡◌, refl, ◌↔◌, ◌⊎◌, Bool, true, false, Option, none, some, arith, eq_iff,
}
use swiftmind_parking_portal.Web.Types.{User}
use swiftmind_parking_portal.Web.Auth.{Session, use_require_auth}

-- The signed-in user may see a page with this role.
abbrev pub MayEnter : Option String → Option User → Type 0
MayEnter role none = ⊥
MayEnter none (some u) = Unit
MayEnter (some role) (some u) = (role ≡ "") ⊎ (u.role ≡ role)

ready_iff :
    (role : Option String) (loading : Bool) (user : Option User) (s : Session)
    → s.loading ≡ loading
    → s.user ≡ user
    → ((use_require_auth role s).ready ≡ true) ↔ ((loading ≡ false) × MayEnter role user)
unfolding use_require_auth
ready_iff none loading none s l u = ground arith
ready_iff none loading (some v) s l u = ground arith
ready_iff (some role) loading none s l u = ground arith
ready_iff (some role) loading (some v) s l u = ground (arith, eq_iff role "", eq_iff v.role role)

redirect_iff :
    (role : Option String) (loading : Bool) (user : Option User) (s : Session)
    → s.loading ≡ loading
    → s.user ≡ user
    → ((use_require_auth role s).redirect ≡ none)
      ↔ ((loading ≡ true) ⊎ ((use_require_auth role s).ready ≡ true))
unfolding use_require_auth
redirect_iff none loading none s l u = ground arith
redirect_iff none loading (some v) s l u = ground arith
redirect_iff (some role) loading none s l u = ground arith
redirect_iff (some role) loading (some v) s l u = ground (arith, eq_iff role "", eq_iff v.role role)

-- A guard lets a page show exactly when the session is loaded and a user is signed in whose role is
-- the page's, where the page has one; and it stays on the page exactly when the session still loads
-- or the page may show.
pub use_require_auth_lem :
    (role : Option String) (s : Session)
    → (((use_require_auth role s).ready ≡ true) ↔ ((s.loading ≡ false) × MayEnter role s.user))
      × (((use_require_auth role s).redirect ≡ none)
          ↔ ((s.loading ≡ true) ⊎ ((use_require_auth role s).ready ≡ true)))
use_require_auth_lem role s =
    (ready_iff role s.loading s.user s refl refl, redirect_iff role s.loading s.user s refl refl)
