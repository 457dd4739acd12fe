-- ===== src/Identity.antt =====
-- internal/identity/{store,service,handler}.go and pkg/jwt/jwt.go: accounts, logging in, and the tokens.
-- bcrypt and the JWT library are parameters; `Laws` is their documented behaviour.
pub mod Login
pub mod Sample
mod Tests
use swiftmind_parking_portal.Common.{
  ℕ, suc, ◌+◌, String, Bool, true, false, ◌||◌, ◌≡◌, Option, none, some, List, [], ◌∷◌, find?, ◌=t◌,
  if◌then◌else◌,
}
use swiftmind_parking_portal.Domain.{role_officer, role_member}
use swiftmind_parking_portal.Gateway.{Claims}

-- `User`.
pub record User : Type 0 where
  pub id : String
  pub email : String
  pub password_hash : String
  pub name : String
  pub role : String

-- `PublicUser`.
pub record PublicUser : Type 0 where
  pub id : String
  pub email : String
  pub name : String
  pub role : String

-- What a token says: the claims, the issuer, and when it ends, in seconds.
pub record Body : Type 0 where
  pub claims : Claims
  pub issuer : String
  pub expires_at : ℕ

pub record Library : Type 0 where
  -- `bcrypt.CompareHashAndPassword` gives nil
  pub matches : (hash password : String) → Bool
  -- `bcrypt.GenerateFromPassword`, with the salt that it draws
  pub hash : (salt password : String) → String
  -- `jwt.NewWithClaims` with HS256, and `SignedString`
  pub sign : (secret : String) → Body → String
  -- `jwt.ParseWithClaims` where the token is signed by an HMAC method, at a time
  pub parse : (secret : String) → (now : ℕ) → String → Option Body

-- A password matches its hash, and a token that was signed is parsed with the same secret before it
-- ends. Such a token is not empty.
pub record Laws (lib : Library) : Type 0 where
  pub matches_hash : (salt password : String) → lib.matches (lib.hash salt password) password ≡ true
  pub parse_sign :
      (secret : String) (now left : ℕ) (b : Body)
      → b.expires_at ≡ now + suc left
      → lib.parse secret now (lib.sign secret b) ≡ some b
  pub sign_text : (secret : String) (b : Body) → (lib.sign secret b =t "") ≡ false

-- `jwt.Manager`.
pub record Manager : Type 0 where
  pub secret : String
  pub issuer : String
  pub ttl : ℕ

pub data Error : Type 0 where
  invalid_credentials internal : Error

pub data Answer : Type 0 where
  ok : (token : String) → PublicUser → Answer
  err : Error → Answer

-- `Store.GetByEmail`, where the query works.
unfoldable pub get_by_email : String → List User → Option User
get_by_email email us = find? (λ u. u.email =t email) us

-- `Store.Insert`, where it works, with the identifier that the table gives.
unfoldable pub insert : (id email hash name role : String) → List User → List User
insert id email hash name role us = elim (find? (λ u. u.email =t email) us) [
  | none ↦ record { id = id; email = email; password_hash = hash; name = name; role = role } ∷ us
  | some _ ↦ us
]

module _ (lib : Library) where
  -- `Manager.Issue` at a time.
  unfoldable pub issue : Manager → (now : ℕ) → (id email name role : String) → String
  issue m now id email name role = lib.sign m.secret (record {
    claims = record { user_id = id; email = email; name = name; role = role };
    issuer = m.issuer;
    expires_at = now + m.ttl;
  })

  -- `Manager.Verify` at a time.
  unfoldable pub verify : Manager → (now : ℕ) → String → Option Claims
  verify m now token = elim (lib.parse m.secret now token) [ none ↦ none | some b ↦ some b.claims ]

  -- `Service.Login` on what the store gave.
  unfoldable pub check_password : Manager → (now : ℕ) → (password : String) → Option User → Answer
  unfolding issue
  check_password m now password none = err invalid_credentials
  check_password m now password (some u) =
      if lib.matches u.password_hash password
      then ok (issue m now u.id u.email u.name u.role)
          (record { id = u.id; email = u.email; name = u.name; role = u.role })
      else err invalid_credentials

  -- `Service.Login`; the flag is a query that fails.
  unfoldable pub login :
      Manager → (now : ℕ) → (fails : Bool) → (email password : String) → List User → Answer
  unfolding check_password get_by_email
  login m now fails email password us =
      if fails then err internal else check_password m now password (get_by_email email us)

  -- `Service.Seed` where nothing fails, with the identifiers of the rows and the salts.
  unfoldable pub seed : (id salt : Bool → String) → List User → List User
  unfolding insert
  seed id salt (u ∷ us) = u ∷ us
  seed id salt [] =
      insert (id false) "member@parkwatch.test" (lib.hash (salt false) "password123") "Mike Member"
        role_member
        (insert (id true) "officer@parkwatch.test" (lib.hash (salt true) "password123")
          "Olivia Officer" role_officer [])
