-- ===== src/Handlers/SignIn.antt =====
-- internal/identity/handler.go and internal/gateway/{gateway,router}.go: signing in through the
-- gateway, up to the cookie that the browser keeps. A body that is not read is `none`.
mod Tests
use mathlib.Core.Option.{some-injective}
use swiftmind_parking_portal.Common.{
  ℕ, suc, ◌+◌, String, ◌≡◌, ◌≢◌, refl, sym, ap, ◌∙◌, ◌⊎◌, inl, inr, Bool, true, false, Bool-cases,
  ◌||◌, Option, none, some, Option-cases, List, ◌=t◌, if◌then◌else◌, arith,
}
use swiftmind_parking_portal.Gateway.{Config, Request, user, dispatch}
use swiftmind_parking_portal.Identity.{
  User, PublicUser, Library, Laws, Manager, Answer, ok, err, invalid_credentials, internal, issue,
  verify, login,
}
use swiftmind_parking_portal.Identity.Login.{me_request, account, login-me}
use swiftmind_parking_portal.Handlers.{Response, json, failure}

-- `loginRequest`.
pub record LoginRequest : Type 0 where
  pub email : String
  pub password : String

-- The body of an answered login.
pub record LoginBody : Type 0 where
  pub token : String
  pub user : PublicUser

unfoldable pub login_response : Answer → Response LoginBody
login_response (ok token p) = json 200 (record { token = token; user = p })
login_response (err invalid_credentials) = failure 401 "invalid email or password"
login_response (err internal) = failure 500 "internal error"

-- What the gateway makes of the answer of the identity service: its own answer, and the token of the
-- cookie that it sets. `none` is a service that is not reached; the service answers `json` with 200 only.
unfoldable pub relay : Option (Response LoginBody) → Response PublicUser × Option String
relay none = (failure 502 "identity service unavailable", none)
relay (some (failure status message)) = (failure status message, none)
relay (some (json status b)) =
    if b.token =t ""
    then (failure 502 "unexpected identity response", none)
    else (json 200 b.user, some b.token)

module _ (lib : Library) where
  -- `login` of the identity service.
  unfoldable pub login_handler :
      Manager → (now : ℕ) → (fails : Bool) → Option LoginRequest → List User → Response LoginBody
  unfolding login_response
  login_handler m now fails none us = failure 400 "invalid request body"
  login_handler m now fails (some r) us =
      if r.email =t "" || r.password =t ""
      then failure 400 "email and password are required"
      else login_response (login lib m now fails r.email r.password us)

  -- `login` of the gateway; the flag is an identity service that is reached.
  unfoldable pub sign_in :
      Manager
      → (now : ℕ) → (reached fails : Bool) → Option LoginRequest
      → List User
      → Response PublicUser × Option String
  unfolding relay login_handler
  sign_in m now reached fails r us =
      if reached then relay (some (login_handler m now fails r us)) else relay none

  login_response-json :
      (a : Answer) (n : ℕ) (b : LoginBody) → login_response a ≡ json n b → a ≡ ok b.token b.user
  unfolding login_response
  login_response-json (ok token p) n b h = ground arith
  login_response-json (err invalid_credentials) n b h = ground arith
  login_response-json (err internal) n b h = ground arith

  no_cookie : (token : String) → ◌≢◌ {A = Option String} none (some token)
  no_cookie token h = ground arith

  failed :
      (k : ℕ) (message : String) (n : ℕ) (b : LoginBody)
      → ◌≢◌ {A = Response LoginBody} (failure k message) (json n b)
  failed k message n b h = ground arith

  -- What the gateway relays with a cookie is an answered login.
  relay-cookie :
      (o : Option (Response LoginBody)) (token : String)
      → (relay o).1 ≡ some token
      → (n : ℕ) × (b : LoginBody) × (o ≡ some (json n b))
        × (b.token ≡ token)
        × ((relay o).0 ≡ json 200 b.user)
  unfolding relay
  relay-cookie none token h = ground arith
  relay-cookie (some (failure status message)) token h = ground arith
  relay-cookie (some (json status b)) token h = elim (Bool-cases (b.token =t "")) [
    | inl e ↦ absurd (no_cookie token (rw (e, relay) at h))
    | inr e ↦ (status, b, refl, some-injective _ _ (rw (e, relay) at h), rw (e, relay) refl)
  ]

  login_handler-json :
      (m : Manager) (now : ℕ) (fails : Bool) (r : Option LoginRequest) (us : List User) (n : ℕ)
      (b : LoginBody)
      → login_handler m now fails r us ≡ json n b
      → (email password : String) × (login lib m now fails email password us ≡ ok b.token b.user)
  unfolding login_handler
  login_handler-json m now fails none us n b h = absurd (failed 400 "invalid request body" n b h)
  login_handler-json m now fails (some r) us n b h =
      elim (Bool-cases (r.email =t "" || r.password =t "")) [
        | inl e ↦
            absurd (failed 400 "email and password are required" n b (rw (e, login_handler) at h))
        | inr e ↦ (r.email, r.password, login_response-json _ n b (rw (e, login_handler) at h))
      ]

  -- With a JWT library as documented, and a gateway that verifies with the manager that issues:
  -- whatever is sent to sign in, if the gateway sets a cookie then it answers 200 with a user, and that
  -- user is the current one for every later request with the cookie, before the token ends.
  pub sign_in-me :
      (laws : Laws lib) (m : Manager) (cfg : Config) (now later left : ℕ) (reached fails : Bool)
      (r : Option LoginRequest) (us : List User) (token : String)
      → ((t : String) → cfg.verify t ≡ verify lib m later t)
      → (sign_in m now reached fails r us).1 ≡ some token
      → now + m.ttl ≡ later + suc left
      → (p : PublicUser) × ((sign_in m now reached fails r us).0 ≡ json 200 p)
        × (dispatch cfg (me_request lib cfg token) ≡ user (account lib p))
  unfolding sign_in relay
  sign_in-me laws m cfg now later left false fails r us token same h t = absurd (no_cookie token h)
  sign_in-me laws m cfg now later left true fails r us token same h t =
      let (n, b, e, same_token, answered) =
        relay-cookie (some (login_handler m now fails r us)) token h in
      let (email, password, logged_in) =
        login_handler-json m now fails r us n b (some-injective _ _ e) in
      (
        b.user,
        answered,
        ap (λ x. dispatch cfg (me_request lib cfg x)) (sym same_token)
            ∙ login-me lib laws m cfg now later left fails email password b.token b.user us same
                logged_in t,
      )
