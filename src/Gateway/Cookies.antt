-- ===== src/Gateway/Cookies.antt =====
-- internal/gateway/{gateway,router}.go: the cookie that the gateway writes, and the headers that let the
-- frontend of another origin send it.
use swiftmind_parking_portal.Common.{
  ℕ, String, ◌≡◌, refl, Bool, true, Bool-cases, inl, inr, Option, List, [], ◌=t◌, if◌then◌else◌,
}
use swiftmind_parking_portal.Common.Int.{ℤ, pos, negsuc}
use swiftmind_parking_portal.Gateway.{Claims, Config, Request, Outcome, no_content, set, dispatch}

-- What `Config` says of the cookie and of the origin, with the lifetime of the tokens of `jwt.Manager` in
-- seconds.
pub record Settings : Type 0 where
  pub cookie_name : String
  pub cookie_secure : Bool
  pub allow_origin : String
  pub ttl : ℕ

-- `New`.
unfoldable pub new : Settings → Settings
new s = record s { cookie_name = if s.cookie_name =t "" then "access_token" else s.cookie_name }

-- `http.Cookie`, with the fields that are set.
pub record Cookie : Type 0 where
  pub name : String
  pub value : String
  pub path : String
  pub http_only : Bool
  pub secure : Bool
  pub same_site : String
  pub max_age : ℤ

-- `setCookie`.
unfoldable pub set_cookie : Settings → (token : String) → Cookie
set_cookie s token = record {
  name = s.cookie_name;
  value = token;
  path = "/";
  http_only = true;
  secure = s.cookie_secure;
  same_site = "Lax";
  max_age = pos s.ttl;
}

-- `clearCookie`.
unfoldable pub clear_cookie : Settings → Cookie
clear_cookie s = record {
  name = s.cookie_name;
  value = "";
  path = "/";
  http_only = true;
  secure = s.cookie_secure;
  same_site = "Lax";
  max_age = negsuc 0;
}

-- The gateway with the settings; the rest is what `Config` takes from elsewhere.
abbrev pub gateway :
    Settings
    → (trim_prefix : (prefix s : String) → Option String) → (verify : String → Option Claims)
    → Config
gateway s trim_prefix verify = record {
  cookie_name = s.cookie_name;
  trim_prefix = trim_prefix;
  verify = verify;
}

-- The headers that `cors` sets on every answer.
unfoldable pub cors_headers : Settings → List (String × String)
cors_headers s = set "Access-Control-Allow-Methods" "GET, POST, PUT, PATCH, DELETE, OPTIONS" (
    set "Access-Control-Allow-Headers" "Content-Type, Authorization" (
      set "Access-Control-Allow-Credentials" "true" (
        set "Access-Control-Allow-Origin"
          (if s.allow_origin =t "" then "http://localhost:3000" else s.allow_origin) [])))

-- `cors` before what comes next.
unfoldable pub cors : Settings → Request → (next : Outcome) → List (String × String) × Outcome
unfolding cors_headers
cors s r next = (cors_headers s, if r.method =t "OPTIONS" then no_content else next)

-- The gateway answers what it answers behind `cors`, with the headers of `cors`.
pub cors-dispatch :
    (s : Settings) (cfg : Config) (r : Request)
    → cors s r (dispatch cfg r) ≡ (cors_headers s, dispatch cfg r)
unfolding cors cors_headers dispatch
cors-dispatch s cfg r = elim (Bool-cases (r.method =t "OPTIONS")) [
  | inl e ↦ rw (e, dispatch) refl
  | inr e ↦ rw (e, dispatch) refl
]
