-- ===== src/Handlers/SignOut.antt =====
-- internal/gateway/{gateway,router}.go, `login`, `logout` and `me`: a session in a browser, from signing in
-- to signing out. What the browser does with cookies is a parameter.
mod Tests
use swiftmind_parking_portal.Common.{
  ℕ, suc, ◌+◌, String, ◌≡◌, refl, sym, ap, ◌∙◌, Bool, Option, none, some, List, [], ◌∷◌, arith,
}
use swiftmind_parking_portal.Common.Int.{ℤ, pos, negsuc}
use swiftmind_parking_portal.Gateway.{
  Claims, Config, Request, Outcome, error, user, token_from_request, auth_required, dispatch,
}
use swiftmind_parking_portal.Gateway.Cookies.{
  Settings, new, Cookie, set_cookie, clear_cookie, gateway,
}
use swiftmind_parking_portal.Identity.{User, PublicUser, Library, Laws, Manager, verify}
use swiftmind_parking_portal.Identity.Login.{me_request, account}
use swiftmind_parking_portal.Handlers.{Response, json}
use swiftmind_parking_portal.Handlers.SignIn.{LoginRequest, sign_in, sign_in-me}

-- The cookies that a browser holds for the site: it takes a cookie at a time, in seconds, and sends
-- cookies at a time, over a connection that carries its secure cookies.
pub record Browser : Type 1 where
  pub Jar : Type 0
  pub empty : Jar
  pub store : (now : ℕ) → Cookie → Jar → Jar
  pub sent : (now : ℕ) → Jar → List (String × String)

-- RFC 6265: nothing is sent from an empty jar; a cookie for every path is sent until its age is reached;
-- one of a negative age takes away the cookie of its name and path.
pub record BrowserLaws (b : Browser) : Type 0 where
  pub sends_none : (now : ℕ) → b.sent now b.empty ≡ []
  pub sends :
      (now passed left : ℕ) (c : Cookie)
      → c.path ≡ "/"
      → c.max_age ≡ pos (passed + suc left)
      → b.sent (now + passed) (b.store now c b.empty) ≡ (c.name, c.value) ∷ []
  pub expires :
      (now later k : ℕ) (c d : Cookie)
      → d.name ≡ c.name
      → d.path ≡ c.path
      → d.max_age ≡ negsuc k
      → b.store later d (b.store now c b.empty) ≡ b.empty

-- The request for the current user, with the cookies of the browser.
abbrev pub asks_me : List (String × String) → Request
asks_me cookies = record {
  method = "GET";
  path = "api" ∷ "auth" ∷ "me" ∷ [];
  headers = [];
  cookies = cookies;
}

-- `logout`: the answer, and the cookie that is set.
unfoldable pub logout : Settings → Response String × Cookie
unfolding clear_cookie
logout s = (json 200 "logged out", clear_cookie s)

-- A request without a token and without a cookie.
unsigned :
    (cfg : Config)
    → cfg.trim_prefix "Bearer " "" ≡ none
    → dispatch cfg (asks_me []) ≡ error 401 "authentication required"
unfolding dispatch auth_required token_from_request
unsigned cfg h = rw (h, dispatch, auth_required, token_from_request) refl

module _ (browser : Browser) (browser_laws : BrowserLaws browser) (lib : Library) where
  -- The jar after signing in.
  abbrev pub signed_in : Settings → (token : String) → (now : ℕ) → browser.Jar
  signed_in s token now = browser.store now (set_cookie s token) browser.empty

  -- The jar after signing out from there.
  abbrev pub signed_out : Settings → (token : String) → (now later : ℕ) → browser.Jar
  signed_out s token now later = browser.store later (logout s).1 (signed_in s token now)

  signed_in-sends :
      (s : Settings) (token : String) (now passed left : ℕ)
      → s.ttl ≡ passed + suc left
      → browser.sent (now + passed) (signed_in s token now) ≡ (s.cookie_name, token) ∷ []
  unfolding set_cookie
  signed_in-sends s token now passed left t =
      browser_laws.sends now passed left (set_cookie s token) refl (ap pos t)

  signed_out-empty :
      (s : Settings) (token : String) (now later : ℕ) → signed_out s token now later ≡ browser.empty
  unfolding set_cookie clear_cookie logout
  signed_out-empty s token now later =
      browser_laws.expires now later 0 (set_cookie s token) (clear_cookie s) refl refl refl

  in_time :
      (now ttl passed left : ℕ) → ttl ≡ passed + suc left → now + ttl ≡ (now + passed) + suc left
  in_time now ttl passed left h = omega arith

  -- With a JWT library and a browser as documented, and a gateway whose tokens and whose cookie end
  -- together: if signing in sets a cookie, then it answers 200 with a user, and from then on until
  -- the token ends the browser's request for the current user is answered with that user. Signing
  -- out at any such time sets a cookie after which the browser's request is refused with 401, at
  -- every time.
  pub sign_out-me :
      (laws : Laws lib) (m : Manager) (s : Settings)
      (trim_prefix : (prefix s : String) → Option String) (now passed left asked : ℕ)
      (reached fails : Bool) (r : Option LoginRequest) (us : List User) (token : String)
      → trim_prefix "Bearer " "" ≡ none
      → s.ttl ≡ m.ttl
      → m.ttl ≡ passed + suc left
      → (sign_in lib m now reached fails r us).1 ≡ some token
      → (let cfg = gateway (new s) trim_prefix (verify lib m (now + passed)) in
          (p : PublicUser) × ((sign_in lib m now reached fails r us).0 ≡ json 200 p)
          × (dispatch cfg (asks_me (browser.sent (now + passed) (signed_in (new s) token now)))
              ≡ user (account lib p))
          × (dispatch cfg
                (asks_me (browser.sent asked (signed_out (new s) token now (now + passed))))
              ≡ error 401 "authentication required"))
  unfolding new
  sign_out-me laws m s trim_prefix now passed left asked reached fails r us token bare same t h =
      let cfg = gateway (new s) trim_prefix (verify lib m (now + passed)) in
      let (p, answered, me) =
        sign_in-me lib laws m cfg now (now + passed) left reached fails r us token (λ x. refl) h
          (in_time now m.ttl passed left t) in
      (
        p,
        answered,
        ap (λ cs. dispatch cfg (asks_me cs))
              (signed_in-sends (new s) token now passed left (same ∙ t))
            ∙ me,
        ap (λ j. dispatch cfg (asks_me (browser.sent asked j)))
              (signed_out-empty (new s) token now (now + passed))
            ∙ ap (λ cs. dispatch cfg (asks_me cs)) (browser_laws.sends_none asked)
            ∙ unsigned cfg bare,
      )
