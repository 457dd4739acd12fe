-- ===== src/Web/Auth.antt =====
-- web/src/contexts/auth-context.tsx and web/src/hooks/use-require-auth.ts: who is signed in, and
-- which pages they may see. React's state is passed on; each function takes the settled call.
pub mod Guard
pub mod Isolation
mod Tests
use swiftmind_parking_portal.Common.{
  ℕ, String, Bool, true, false, not, ◌&&◌, ◌||◌, Option, none, some, List, [], ◌∷◌, ◌=t◌, ◌==◌,
  if◌then◌else◌,
}
use swiftmind_parking_portal.Web.Types.{User}
use swiftmind_parking_portal.Web.Http.{Outcome, ok, api_error, other_error}

-- An entry of the query cache; `owner` is the account for which the server answered.
pub record Cached : Type 0 where
  pub key : List String
  pub owner : User

-- The state of `AuthProvider`, with the keys that `queryClient` holds.
pub record Session : Type 0 where
  pub user : Option User
  pub loading : Bool
  pub cache : List Cached

abbrev pub initial : Session
initial = record { user = none; loading = true; cache = [] }

-- The `try`/`catch` of `refresh`, on what `api("/auth/me")` gave.
abbrev refreshed_user : Outcome User → Option User → Option User
refreshed_user (ok u) old = some u
refreshed_user (api_error status message) old = if status == 401 then none else old
refreshed_user (other_error message) old = old

-- `refresh`.
unfoldable pub refresh : Outcome User → Session → Session
refresh o s = record s { user = refreshed_user o s.user; loading = false }

-- `login`: the new session, and what its promise gives.
unfoldable pub login : Outcome User → Session → Session × Outcome User
login (ok u) s = (record s { cache = []; user = some u }, ok u)
login (api_error status message) s = (s, api_error status message)
login (other_error message) s = (s, other_error message)

-- `logout`.
unfoldable pub logout : Outcome (Unit {0}) → Session → Session × Outcome (Unit {0})
logout (ok tt) s = (record s { user = none; cache = [] }, ok tt)
logout (api_error status message) s = (s, api_error status message)
logout (other_error message) s = (s, other_error message)

-- A query that the server has answered for an account puts its data into the cache.
unfoldable pub fetched : List String → User → Session → Session
fetched key u s = record s { cache = record { key = key; owner = u } ∷ s.cache }

-- The result of `useRequireAuth`, with the path that its effect replaces the page by.
pub record Guarded : Type 0 where
  pub redirect : Option String
  pub user : Option User
  pub ready : Bool

-- `role && user.role !== role`
abbrev pub has_wrong_role : Option String → User → Bool
has_wrong_role none u = false
has_wrong_role (some role) u = not (role =t "") && not (u.role =t role)

-- The effect of `useRequireAuth`.
abbrev redirect_for : Option String → Bool → Option User → Option String
redirect_for role true user = none
redirect_for role false none = some "/login"
redirect_for role false (some u) = if has_wrong_role role u then some "/" else none

-- `!loading && !!user && (!role || user.role === role)`
abbrev is_ready : Option String → Bool → Option User → Bool
is_ready role loading none = false
is_ready none loading (some u) = not loading
is_ready (some role) loading (some u) = not loading && (role =t "" || u.role =t role)

-- `useRequireAuth`.
unfoldable pub use_require_auth : Option String → Session → Guarded
use_require_auth role s = record {
  redirect = redirect_for role s.loading s.user;
  user = s.user;
  ready = is_ready role s.loading s.user;
}
