-- ===== src/Identity/Login.antt =====
-- internal/identity/service.go and pkg/jwt/jwt.go: what an account gets from logging in.
use swiftmind_parking_portal.Common.{
  ℕ, suc, ◌+◌, String, ◌≡◌, refl, sym, ◌∙◌, inl, inr, ◌↔◌, Bool, true, false, Bool-cases, some,
  Option-cases, List, [], ◌∷◌, find?-test, =t_refl, arith, eq_iff, ◌=t◌,
}
use swiftmind_parking_portal.Gateway.{
  Claims, Config, Request, token_from_request, user, auth_required, dispatch,
}
use swiftmind_parking_portal.Identity.{
  User, PublicUser, Body, Library, Laws, Manager, ok, err, invalid_credentials, get_by_email, issue,
  verify, check_password, login,
}

module _ (lib : Library) where
  -- What a login that is answered establishes.
  abbrev pub IsLogin :
      Manager → (now : ℕ) → (email password token : String) → PublicUser → List User → Type 0
  IsLogin m now email password token p us =
      (u : User) × (get_by_email email us ≡ some u)
      × (u.email ≡ email)
      × (lib.matches u.password_hash password ≡ true)
      × (p ≡ record { id = u.id; email = u.email; name = u.name; role = u.role })
      × (token ≡ issue lib m now u.id u.email u.name u.role)

  ok-injective : (t t' : String) (p p' : PublicUser) → ok t p ≡ ok t' p' → (t ≡ t') × (p ≡ p')
  ok-injective t t' p p' h = ground arith

  failed : (t : String) (p : PublicUser) → err invalid_credentials ≡ ok t p → ⊥
  failed t p h = ground arith

  login-IsLogin :
      (m : Manager) (now : ℕ) (fails : Bool) (email password token : String) (p : PublicUser)
      (us : List User)
      → login lib m now fails email password us ≡ ok token p
      → IsLogin m now email password token p us
  unfolding login check_password get_by_email
  login-IsLogin m now true email password token p us h = ground arith
  login-IsLogin m now false email password token p us h =
      elim (Option-cases (get_by_email email us)) [
        | inl e ↦ absurd (failed token p (rw (e, check_password) at h))
        | inr (u, e) ↦ elim (Bool-cases (lib.matches u.password_hash password)) [
          | inl f ↦
              let (a, b) = ok-injective _ token _ p (rw (e, check_password, f) at h) in
              (u, e, (eq_iff u.email email).0 (find?-test _ us u e), f, sym b, sym a)
          | inr f ↦ absurd (failed token p (rw (e, check_password, f) at h))
        ]
      ]

  verify-issue :
      (laws : Laws lib) (m : Manager) (now later left : ℕ) (id email name role : String)
      → now + m.ttl ≡ later + suc left
      → verify lib m later (issue lib m now id email name role)
        ≡ some (record { user_id = id; email = email; name = name; role = role })
  unfolding verify issue
  verify-issue laws m now later left id email name role h =
      let b : Body = record {
        claims = record { user_id = id; email = email; name = name; role = role };
        issuer = m.issuer;
        expires_at = now + m.ttl;
      } in
      rw (laws.parse_sign m.secret later left b h, verify, issue) refl

  issue-text :
      (laws : Laws lib) (m : Manager) (now : ℕ) (id email name role : String)
      → (issue lib m now id email name role =t "") ≡ false
  unfolding issue
  issue-text laws m now id email name role = laws.sign_text m.secret _

  IsLogin-login :
      (m : Manager) (now : ℕ) (email password token : String) (p : PublicUser) (us : List User)
      → IsLogin m now email password token p us
      → login lib m now false email password us ≡ ok token p
  unfolding login check_password
  IsLogin-login m now email password token p us (u, found, _, matches, shown, issued) =
      rw (found, check_password, matches, shown, issued) refl

  -- The request for the current user with a token in the cookie.
  abbrev pub me_request : Config → (token : String) → Request
  me_request cfg token = record {
    method = "GET";
    path = "api" ∷ "auth" ∷ "me" ∷ [];
    headers = [];
    cookies = (cfg.cookie_name, token) ∷ [];
  }

  me_request-token :
      (cfg : Config) (token : String)
      → (token =t "") ≡ false
      → token_from_request cfg (me_request cfg token) ≡ token
  unfolding token_from_request
  me_request-token cfg token n = rw (=t_refl cfg.cookie_name, n, token_from_request) refl

  me-verified :
      (cfg : Config) (token : String) (c : Claims)
      → (token =t "") ≡ false
      → cfg.verify token ≡ some c
      → dispatch cfg (me_request cfg token) ≡ user c
  unfolding dispatch
  me-verified cfg token c n v = rw (me_request-token cfg token n, auth_required, n, v) refl

  -- The account that an answer shows, as claims.
  abbrev pub account : PublicUser → Claims
  account p = record { user_id = p.id; email = p.email; name = p.name; role = p.role }

  -- After a login that is answered, the token in the cookie of the gateway gives back the account that
  -- was answered, as the current user, at every later time before the token ends.
  pub login-me :
      (laws : Laws lib) (m : Manager) (cfg : Config) (now later left : ℕ) (fails : Bool)
      (email password token : String) (p : PublicUser) (us : List User)
      → ((t : String) → cfg.verify t ≡ verify lib m later t)
      → login lib m now fails email password us ≡ ok token p
      → now + m.ttl ≡ later + suc left
      → dispatch cfg (me_request cfg token) ≡ user (account p)
  login-me laws m cfg now later left fails email password token p us same h t =
      let (u, found, _, _, shown, issued) = login-IsLogin m now fails email password token p us h in
      let n : (token =t "") ≡ false =
        rw issued (issue-text laws m now u.id u.email u.name u.role) in
      let v : cfg.verify token ≡ some (account p) =
        same token
        ∙ rw (issued, shown) (verify-issue laws m now later left u.id u.email u.name u.role t) in
      me-verified cfg token (account p) n v

  -- Where the query works, a login is answered exactly with an account that is stored under the email
  -- and whose hash the password matches, and with a token of that account.
  pub login_iff :
      (m : Manager) (now : ℕ) (email password token : String) (p : PublicUser) (us : List User)
      → (login lib m now false email password us ≡ ok token p)
        ↔ IsLogin m now email password token p us
  login_iff m now email password token p us = (
    login-IsLogin m now false email password token p us,
    λ k. IsLogin-login m now email password token p us k,
  )
