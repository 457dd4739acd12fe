-- ===== src/Portal/Session.antt =====
-- web/src/contexts/auth-context.tsx through the gateway and the identity service: who is signed in.
mod Tests
use mathlib.Core.Path.{subst}
use swiftmind_parking_portal.Common.{
  ℕ, suc, ◌+◌, String, ◌≡◌, refl, sym, ap, ◌∙◌, Bool, true, false, Option, none, some, List, [],
  ◌∷◌, ◌=t◌, =t_refl, eq_iff, if◌then◌else◌, Bool-cases, Option-cases, inl, inr,
}
use swiftmind_parking_portal.Gateway.{
  Claims, Config, token_from_request, auth_required, Request, Outcome, error, user, dispatch,
}
use swiftmind_parking_portal.Identity.{User, PublicUser, Library, Laws, Manager, verify}
use swiftmind_parking_portal.Identity.Login.{account, me_request}
use swiftmind_parking_portal.Handlers.{Response, json, failure}
use swiftmind_parking_portal.Handlers.SignIn.{LoginRequest, sign_in, sign_in-me}
use swiftmind_parking_portal.Web.Http.{Json, Js, str, settle}
use swiftmind_parking_portal.Web.Http
use swiftmind_parking_portal.Web.Types
use swiftmind_parking_portal.Web.Auth.{Session, initial, refresh, login}
use swiftmind_parking_portal.Web.Client.{me, path, options}
use swiftmind_parking_portal.Web.Client.Routing.{arrives}
use swiftmind_parking_portal.Wire.{sent, singleton, user_body, encode_user, pluck}
use swiftmind_parking_portal.Wire.Reading.{user_outcome, as_user, web_user, as_user-encode_user}
use swiftmind_parking_portal.Wire.Transport.{Carries, IsCarried, settle-sent}
use swiftmind_parking_portal.Portal.{me_answer, me_outcome}

-- The session after `login`, on what its call of `api` gave; `none` is no user.
abbrev pub after_login : Option (Http.Outcome Types.User) → Session → Session
after_login none s = s
after_login (some o) s = (login o s).0

-- The session after the page has loaded again, on what the call of `refresh` gave.
abbrev pub after_reload : Option (Http.Outcome Types.User) → Session
after_reload none = initial
after_reload (some o) = refresh o initial

-- The claims that the gateway finds in a cookie.
abbrev pub verified : Config → (token : String) → Option Claims
verified cfg token = if token =t "" then none else cfg.verify token

-- The message of `authRequired` to a cookie that it refuses.
abbrev pub refusal : (token : String) → String
refusal token = if token =t "" then "authentication required" else "invalid or expired token"

-- What `me` answers to a cookie with these claims, or with none.
abbrev pub me_response : (token : String) → Option Claims → Response PublicUser
me_response token none = failure 401 (refusal token)
me_response token (some c) =
    json 200 (record { id = c.user_id; email = c.email; name = c.name; role = c.role })

-- The user that claims are of.
abbrev pub claimed : Option Claims → Option Types.User
claimed none = none
claimed (some c) = some (record { id = c.user_id; email = c.email; name = c.name; role = c.role })

no_bearer :
    (cfg : Config) (token : String)
    → cfg.trim_prefix "Bearer " "" ≡ none
    → token_from_request cfg (arrives cfg token me) ≡ token
unfolding token_from_request arrives
no_bearer cfg token b = elim (Bool-cases (token =t "")) [
  | inl e ↦ rw (=t_refl cfg.cookie_name, e, b, token_from_request) (sym ((eq_iff token "").0 e))
  | inr e ↦ rw (=t_refl cfg.cookie_name, e, token_from_request) refl
]

me_answer-response :
    (cfg : Config) (token : String)
    → cfg.trim_prefix "Bearer " "" ≡ none
    → me_answer (dispatch cfg (arrives cfg token me))
      ≡ some (me_response token (verified cfg token))
unfolding me_answer dispatch auth_required arrives options path
me_answer-response cfg token b = elim (Bool-cases (token =t "")) [
  | inl e ↦ rw (no_bearer cfg token b, e, auth_required) (rw e refl)
  | inr e ↦ elim (Option-cases (cfg.verify token)) [
    | inl v ↦ rw (no_bearer cfg token b, e, v, auth_required) (rw e refl)
    | inr (c, v) ↦ rw (no_bearer cfg token b, e, v, auth_required) refl
  ]
]

module _ (js : Js) (write : Json → String) where
  user_outcome-body :
      (p : PublicUser)
      → Carries js write (user_body p)
      → user_outcome js (sent write user_body (json 200 p)) ≡ some (Http.ok (web_user p))
  unfolding user_outcome user_body encode_user pluck
  user_outcome-body p c = rw (settle-sent js write user_body (json 200 p) (refl, c)) refl

  me_outcome-user :
      (lib : Library) (cfg : Config) (token : String) (p : PublicUser)
      → dispatch cfg (arrives cfg token me) ≡ user (account lib p)
      → Carries js write (user_body p)
      → me_outcome js write cfg token ≡ some (Http.ok (web_user p))
  unfolding me_outcome me_answer arrives
  me_outcome-user lib cfg token p d c = rw (d, me_outcome) (user_outcome-body p c)

  -- How a refresh settles on what `me` answers.
  response_outcome :
      (token : String) (claims : Option Claims) (s : Session)
      → IsCarried js write user_body (me_response token claims)
      → (o : Http.Outcome Types.User) × (user_outcome js
            (sent write user_body (me_response token claims))
          ≡ some o)
        × (refresh o s ≡ record s { user = claimed claims; loading = false })
  unfolding user_outcome pluck refresh
  response_outcome token none s c =
      let message = refusal token in
      (
        Http.api_error 401 message,
        rw (settle-sent js write user_body (me_response token none) c) refl,
        refl,
      )
  response_outcome token (some k) s c = (
    Http.ok (record { id = k.user_id; email = k.email; name = k.name; role = k.role }),
    user_outcome-body _ c.1,
    refl,
  )

  answered_outcome :
      (cfg : Config) (token : String) (r : Response PublicUser)
      → me_answer (dispatch cfg (arrives cfg token me)) ≡ some r
      → me_outcome js write cfg token ≡ user_outcome js (sent write user_body r)
  unfolding me_outcome
  answered_outcome cfg token r h = rw (h, me_outcome) refl

  arrives-me :
      (lib : Library) (cfg : Config) (token : String)
      → dispatch cfg (arrives cfg token me) ≡ dispatch cfg (me_request lib cfg token)
  unfolding arrives path options
  arrives-me lib cfg token = refl

  json-injective :
      (n : ℕ) (p q : PublicUser) → ◌≡◌ {A = Response PublicUser} (json n p) (json n q) → p ≡ q
  json-injective n p q h = cc

  -- With a JWT library as documented, and a gateway that verifies with the manager that issues:
  -- when the gateway answers a request to sign in with a user and a cookie, that user is signed in,
  -- and is signed in again when the page is loaded again with the cookie before the token ends,
  -- with nothing cached. The web application reads what the gateway wrote.
  pub sign_in-reload :
      (lib : Library) (laws : Laws lib) (m : Manager) (cfg : Config) (now later left : ℕ)
      (reached fails : Bool) (r : Option LoginRequest) (us : List User) (token : String)
      (p : PublicUser) (s : Session)
      → ((t : String) → cfg.verify t ≡ verify lib m later t)
      → sign_in lib m now reached fails r us ≡ (json 200 p, some token)
      → now + m.ttl ≡ later + suc left
      → Carries js write (user_body p)
      → ((after_login
            (user_outcome js (sent write user_body (sign_in lib m now reached fails r us).0))
            s).user
          ≡ some (web_user p))
        × (after_reload (me_outcome js write cfg token)
            ≡ record { user = some (web_user p); loading = false; cache = [] })
  unfolding login refresh
  sign_in-reload lib laws m cfg now later left reached fails r us token p s same h t c =
      let (p', answered, current) =
        sign_in-me lib laws m cfg now later left reached fails r us token same (ap (λ x. x.1) h)
          t in
      let same_user : p' ≡ p = json-injective 200 p' p (sym answered ∙ ap (λ x. x.0) h) in
      let current' : dispatch cfg (arrives cfg token me) ≡ user (account lib p) =
        arrives-me lib cfg token ∙ current ∙ ap (λ x. user (account lib x)) same_user in
      (
        ap (λ x. (after_login (user_outcome js (sent write user_body x.0)) s).user) h
            ∙ ap (λ o. (after_login o s).user) (user_outcome-body p c),
        ap after_reload (me_outcome-user lib cfg token p current' c),
      )

  -- However a session stands, the refresh with a cookie settles, and leaves as the signed-in user
  -- exactly the one of the claims in the cookie: nobody, if it is empty or its token does not
  -- verify. The web application reads what the gateway wrote.
  pub refresh-me :
      (cfg : Config) (token : String) (s : Session)
      → cfg.trim_prefix "Bearer " "" ≡ none
      → IsCarried js write user_body (me_response token (verified cfg token))
      → (o : Http.Outcome Types.User) × (me_outcome js write cfg token ≡ some o)
        × (refresh o s ≡ record s { user = claimed (verified cfg token); loading = false })
  refresh-me cfg token s b c =
      let (o, h, k) = response_outcome token (verified cfg token) s c in
      (
        o,
        answered_outcome cfg token (me_response token (verified cfg token))
              (me_answer-response cfg token b)
            ∙ h,
        k,
      )
