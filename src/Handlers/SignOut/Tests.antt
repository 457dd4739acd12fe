-- ===== src/Handlers/SignOut/Tests.antt =====
-- A session in a browser at concrete inputs.
use swiftmind_parking_portal.Common.{
  Bool, if◌then◌else◌, eq_iff, ℕ, suc, ◌+◌, String, ◌≡◌, refl, ap, ◌∙◌, not, ◌&&◌, true, false,
  none, some, List, [], ◌∷◌, select, map, ltb, ◌=t◌, arith,
}
use swiftmind_parking_portal.Common.Int.{ℤ, pos, negsuc}
use swiftmind_parking_portal.Gateway.{header, error, user, dispatch}
use swiftmind_parking_portal.Gateway.Cookies.{Settings, new, Cookie, gateway, cors_headers}
use swiftmind_parking_portal.Identity.{PublicUser, verify, login, seed, issue}
use swiftmind_parking_portal.Identity.Sample.{salted, salted_laws, manager, seeded, token}
use swiftmind_parking_portal.Identity.Login.{account}
use swiftmind_parking_portal.Handlers.{json}
use swiftmind_parking_portal.Handlers.SignIn.{LoginRequest, sign_in}
use swiftmind_parking_portal.Handlers.SignOut.{
  Browser, BrowserLaws, asks_me, signed_in, signed_out, sign_out-me,
}

abbrev Held : Type 0
Held = List (ℕ × Cookie)

abbrev without : Cookie → Held → Held
without c held = select (λ x. not (x.1.name =t c.name && x.1.path =t c.path)) held

abbrev keep : (now : ℕ) → (age : ℤ) → Cookie → Held → Held
keep now (pos k) c held = (now + k, c) ∷ without c held
keep now (negsuc k) c held = without c held

abbrev in_memory : Browser
in_memory = record {
  Jar = Held;
  empty = [];
  store = λ now c held. keep now c.max_age c held;
  sent = λ now held. map (λ x. (x.1.name, x.1.value)) (select (λ x. ltb now x.0) held);
}

not_yet : (now passed left : ℕ) → ltb (now + passed) (now + (passed + suc left)) ≡ true
not_yet now passed left = ground arith

abbrev sends_at : (now : ℕ) → Held → List (String × String)
sends_at now held = in_memory.sent now held

select-one :
    {A : Type 0} (test : A → Bool) (x : A) → select test (x ∷ []) ≡ (if test x then x ∷ [] else [])
select-one test x = ground arith

kept :
    (now passed left : ℕ) (c : Cookie)
    → sends_at (now + passed) ((now + (passed + suc left), c) ∷ []) ≡ (c.name, c.value) ∷ []
kept now passed left c =
    ap (λ (h : Held). map (λ x. (x.1.name, x.1.value)) h)
      (select-one (λ x. ltb (now + passed) x.0) (now + (passed + suc left), c)
        ∙ ap (λ b. if b then (now + (passed + suc left), c) ∷ [] else []) (not_yet now passed left))

is_same :
    (c d : Cookie)
    → d.name ≡ c.name
    → d.path ≡ c.path
    → not (c.name =t d.name && c.path =t d.path) ≡ false
is_same c d n p = ground (arith, eq_iff c.name d.name, eq_iff c.path d.path)

gone : (n : ℕ) (c d : Cookie) → d.name ≡ c.name → d.path ≡ c.path → without d ((n, c) ∷ []) ≡ []
gone n c d same_name same_path =
    select-one (λ x. not (x.1.name =t d.name && x.1.path =t d.path)) (n, c)
    ∙ ap (λ b. if b then (n, c) ∷ [] else []) (is_same c d same_name same_path)

gone_from :
    (now : ℕ) (age : ℤ) (c d : Cookie)
    → d.name ≡ c.name
    → d.path ≡ c.path
    → without d (keep now age c []) ≡ []
gone_from now (pos k) c d same_name same_path = gone (now + k) c d same_name same_path
gone_from now (negsuc k) c d same_name same_path = refl

in_memory_laws : BrowserLaws in_memory
in_memory_laws = record {
  sends_none = λ now. refl;
  sends = λ now passed left c path age.
      ap (λ a. sends_at (now + passed) (keep now a c [])) age ∙ kept now passed left c;
  expires = λ now later k c d same_name same_path age.
      ap (λ a. keep later a d (keep now c.max_age c [])) age
      ∙ gone_from now c.max_age c d same_name same_path;
}

abbrev settings : Settings
settings = record { cookie_name = ""; cookie_secure = false; allow_origin = ""; ttl = 3600 }

cors_origin : header "Access-Control-Allow-Origin" (cors_headers settings) ≡ "http://localhost:3000"
unfolding cors_headers
cors_origin = refl

abbrev request : LoginRequest
request = record { email = "officer@parkwatch.test"; password = "password123" }

sign_in-token : (sign_in salted manager 100 true false (some request) seeded).1 ≡ some token
unfolding sign_in login seed issue
sign_in-token = refl

sign_out-me_example :
    (let cfg = gateway (new settings) (λ p s. none) (verify salted manager 200) in
      (p : PublicUser) × ((sign_in salted manager 100 true false (some request) seeded).0
        ≡ json 200 p)
      × (dispatch cfg (
            asks_me (
              in_memory.sent 200
                (signed_in in_memory in_memory_laws salted (new settings) token 100)))
          ≡ user (account salted p))
      × (dispatch cfg (
            asks_me (
              in_memory.sent 300
                (signed_out in_memory in_memory_laws salted (new settings) token 100 200)))
          ≡ error 401 "authentication required"))
sign_out-me_example =
    sign_out-me in_memory in_memory_laws salted salted_laws manager settings (λ p s. none) 100 100
      3499 300 true false (some request) seeded token refl refl refl sign_in-token
