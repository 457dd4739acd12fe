-- ===== src/Web/Auth/Isolation.antt =====
-- web/src/contexts/auth-context.tsx, with the cookie of the browser: whose data is cached for whom.
use swiftmind_parking_portal.Common.{
  arith, Bool, Bool-cases, ◌==◌, String, ◌≡◌, refl, ap, inl, inr, true, false, Option, none, some,
  List, [], ◌∷◌, All,
}
use swiftmind_parking_portal.Web.Types.{User}
use swiftmind_parking_portal.Web.Http.{Outcome, ok, api_error, other_error}
use swiftmind_parking_portal.Web.Auth.{Session, Cached, initial, refresh, login, logout, fetched}

-- The session of React, and the account of the cookie that the browser sends, if it has one that the
-- gateway accepts.
pub record Tab : Type 0 where
  pub session : Session
  pub cookie : Option User

-- The cookie after a call to sign in: the gateway sets it where it answers with a user.
unfoldable pub cookie_after : Outcome User → Option User → Option User
cookie_after (ok u) old = some u
cookie_after (api_error status message) old = old
cookie_after (other_error message) old = old

-- The cookie after a call to sign out.
unfoldable pub cookie_left : Outcome (Unit {0}) → Option User → Option User
cookie_left (ok tt) old = none
cookie_left (api_error status message) old = old
cookie_left (other_error message) old = old

-- One event of the application in the one tab that uses the cookie. `refresh` runs once, when the
-- provider mounts, and `loading` says that it has not settled yet; it is answered with a user only for the
-- cookie. Nobody signs in or out before it has settled. A query is enabled only for a loaded session with
-- a user, and is answered for the account of the cookie, whoever the session's user is; the answer to one
-- that was on its way when the cache was cleared is dropped by TanStack Query. The cookie may run out at
-- any time.
pub data Step : Tab → Tab → Type 0 where
  refreshed :
      (s : Session) (cookie : Option User) (o : Outcome User)
      → s.loading ≡ true
      → ((u : User) → o ≡ ok u → cookie ≡ some u)
      → Step
          (record { session = s; cookie = cookie })
          (record { session = refresh o s; cookie = cookie })
  logged_in :
      (s : Session) (cookie : Option User) (o : Outcome User)
      → s.loading ≡ false
      → Step
          (record { session = s; cookie = cookie })
          (record { session = (login o s).0; cookie = cookie_after o cookie })
  logged_out :
      (s : Session) (cookie : Option User) (o : Outcome (Unit {0}))
      → s.loading ≡ false
      → Step
          (record { session = s; cookie = cookie })
          (record { session = (logout o s).0; cookie = cookie_left o cookie })
  query_settled :
      (s : Session) (key : List String) (u served : User)
      → s.loading ≡ false
      → s.user ≡ some u
      → Step
          (record { session = s; cookie = some served })
          (record { session = fetched key served s; cookie = some served })
  expired :
      (s : Session) (cookie : Option User)
      → Step (record { session = s; cookie = cookie }) (record { session = s; cookie = none })

pub data Reach (s : Tab) : Tab → Type 0 where
  here : Reach s s
  next : {t u : Tab} → Reach s t → Step t u → Reach s u

-- The application as it starts, with whatever cookie there is.
abbrev pub opened : Option User → Tab
opened cookie = record { session = initial; cookie = cookie }

abbrev OwnedBy : Option User → List Cached → Type 0
OwnedBy user cache = All (λ c. user ≡ some c.owner) cache

-- The cookie is of the session's user, if there are both.
abbrev Agree : (user cookie : Option User) → Type 0
Agree none cookie = Unit
Agree (some u) none = Unit
Agree (some u) (some v) = u ≡ v

-- Everything in the cache was answered for the user who is signed in now, there is nothing in it and
-- nobody is signed in before the first refresh has settled, and the cookie is of that user.
pub record IsIsolated (t : Tab) : Type 0 where
  pub owned : OwnedBy t.session.user t.session.cache
  pub fresh : t.session.loading ≡ true → (t.session.cache ≡ []) × (t.session.user ≡ none)
  pub agree : Agree t.session.user t.cookie

Agree-same : (u : User) (cookie : Option User) → cookie ≡ some u → Agree (some u) cookie
Agree-same u cookie h = rw h refl

Agree-none : (user : Option User) → Agree user none
Agree-none none = tt
Agree-none (some u) = tt

Agree-served :
    (user : Option User) (u served : User)
    → user ≡ some u
    → Agree user (some served)
    → user ≡ some served
Agree-served none u served e h = absurd (ground arith)
Agree-served (some v) u served e h = ap some h

not_both : {A : Type 0} → {b : Bool} → b ≡ true → b ≡ false → A
not_both h k = absurd (ground arith)

refresh-Agree :
    (o : Outcome User) (s : Session) (cookie : Option User)
    → s.user ≡ none
    → ((u : User) → o ≡ ok u → cookie ≡ some u)
    → Agree (refresh o s).user cookie
unfolding refresh
refresh-Agree (ok u) s cookie n answers = Agree-same u cookie (answers u refl)
refresh-Agree (api_error status message) s cookie n answers = elim (Bool-cases (status == 401)) [
  | inl e ↦ rw e tt
  | inr e ↦ rw (e, n) tt
]
refresh-Agree (other_error message) s cookie n answers = rw n tt

refresh-IsIsolated :
    (o : Outcome User) (s : Session) (cookie : Option User)
    → s.loading ≡ true
    → ((u : User) → o ≡ ok u → cookie ≡ some u)
    → IsIsolated (record { session = s; cookie = cookie })
    → IsIsolated (record { session = refresh o s; cookie = cookie })
unfolding refresh
refresh-IsIsolated o s cookie l answers h = record {
  owned = rw (h.fresh l).0 tt;
  fresh = λ e. not_both e refl;
  agree = refresh-Agree o s cookie (h.fresh l).1 answers;
}

login-IsIsolated :
    (o : Outcome User) (s : Session) (cookie : Option User)
    → s.loading ≡ false
    → IsIsolated (record { session = s; cookie = cookie })
    → IsIsolated (record { session = (login o s).0; cookie = cookie_after o cookie })
unfolding login cookie_after
login-IsIsolated (ok u) s cookie l h = record {
  owned = tt;
  fresh = λ e. not_both e l;
  agree = refl;
}
login-IsIsolated (api_error status message) s cookie l h = h
login-IsIsolated (other_error message) s cookie l h = h

logout-IsIsolated :
    (o : Outcome (Unit {0})) (s : Session) (cookie : Option User)
    → s.loading ≡ false
    → IsIsolated (record { session = s; cookie = cookie })
    → IsIsolated (record { session = (logout o s).0; cookie = cookie_left o cookie })
unfolding logout cookie_left
logout-IsIsolated (ok tt) s cookie l h = record {
  owned = tt;
  fresh = λ e. not_both e l;
  agree = tt;
}
logout-IsIsolated (api_error status message) s cookie l h = h
logout-IsIsolated (other_error message) s cookie l h = h

fetched-IsIsolated :
    (key : List String) (u served : User) (s : Session)
    → s.loading ≡ false
    → s.user ≡ some u
    → IsIsolated (record { session = s; cookie = some served })
    → IsIsolated (record { session = fetched key served s; cookie = some served })
unfolding fetched
fetched-IsIsolated key u served s l e h = record {
  owned = (Agree-served s.user u served e h.agree, h.owned);
  fresh = λ k. not_both k l;
  agree = h.agree;
}

Step-IsIsolated : {s t : Tab} → Step s t → IsIsolated s → IsIsolated t
Step-IsIsolated (refreshed s cookie o l a) h = refresh-IsIsolated o s cookie l a h
Step-IsIsolated (logged_in s cookie o l) h = login-IsIsolated o s cookie l h
Step-IsIsolated (logged_out s cookie o l) h = logout-IsIsolated o s cookie l h
Step-IsIsolated (query_settled s key u served l e) h = fetched-IsIsolated key u served s l e h
Step-IsIsolated (expired s cookie) h = record {
  owned = h.owned;
  fresh = h.fresh;
  agree = Agree-none s.user;
}

-- In every state that the application reaches with whatever cookie it starts, in one tab and where
-- nobody signs in before the first refresh has settled: each cached answer was given for the account
-- of the user who is signed in, none is cached and nobody is signed in while the first refresh is under
-- way, and the cookie, if there is one, is of the user who is signed in.
pub Reach-IsIsolated : {cookie : Option User} {t : Tab} → Reach (opened cookie) t → IsIsolated t
Reach-IsIsolated here = record { owned = tt; fresh = λ e. (refl, refl); agree = tt }
Reach-IsIsolated (next r st) = Step-IsIsolated st (Reach-IsIsolated r)

-- Where somebody signs in before the first refresh has settled, the refresh then replaces the user whom
-- the login signed in by the user of the older cookie, while the cookie is that of the newer one: the
-- next answer is cached for a user who did not ask for it.
pub late_refresh :
    (new old : User) (key : List String) (s : Session)
    → let t = refresh (ok old) (login (ok new) s).0 in
      (t.user ≡ some old)
      × (t.loading ≡ false)
      × (cookie_after (ok new) (some old) ≡ some new)
      × ((fetched key new t).cache ≡ record { key = key; owner = new } ∷ [])
unfolding login refresh fetched cookie_after
late_refresh new old key s = (refl, refl, refl, refl)
