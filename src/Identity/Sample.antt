-- ===== src/Identity/Sample.antt =====
-- A library for concrete inputs: a hash is the password behind a mark, and a token is its secret and its
-- body, written one after another.
use Prim.Native.Char.{Char, code}
use swiftmind_parking_portal.Common.{
  ℕ, zero, suc, ◌+◌, String, ◌≡◌, refl, ap, ◌≢◌, ◌+t◌, Bool, true, false, List, [], Option, none,
  some, arith, eq_iff, ◌=t◌, =t_refl, ◌==◌, ltb, if◌then◌else◌,
}
use text.Mathlib.TextLemmas.{cons-ne-nil}
use swiftmind_parking_portal.Identity.{Body, Library, Laws, Manager, User, PublicUser, issue, seed}

abbrev pub is_one : Char → Bool
is_one c = code c == 49

-- A text before the rest of a token: each character stands behind a one, and a zero ends the text.
abbrev pub write : String → String → String
write String.[] rest = String.◌∷◌ "0" rest
write (String.◌∷◌ c s) rest = String.◌∷◌ "1" (String.◌∷◌ c (write s rest))

abbrev pub write_nat : ℕ → String
write_nat zero = String.[]
write_nat (suc n) = String.◌∷◌ "1" (write_nat n)

-- The first character before the text of a result.
abbrev pub behind : Char → Option (String × String) → Option (String × String)
behind c none = none
behind c (some (s, rest)) = some (String.◌∷◌ c s, rest)

abbrev pub read : String → Option (String × String)
read String.[] = none
read (String.◌∷◌ b String.[]) = if is_one b then none else some (String.[], String.[])
read (String.◌∷◌ b (String.◌∷◌ c s)) =
    let more = read s in if is_one b then behind c more else some (String.[], String.◌∷◌ c s)

abbrev pub read_nat : String → ℕ
read_nat String.[] = 0
read_nat (String.◌∷◌ c s) = suc (read_nat s)

read_end : (rest : String) → read (String.◌∷◌ "0" rest) ≡ some (String.[], rest)
read_end String.[] = refl
read_end (String.◌∷◌ c s) = refl

read-write : (s rest : String) → read (write s rest) ≡ some (s, rest)
read-write String.[] rest = read_end rest
read-write (String.◌∷◌ c s) rest = ap (behind c) (read-write s rest)

read_nat-write_nat : (n : ℕ) → read_nat (write_nat n) ≡ n
read_nat-write_nat zero = refl
read_nat-write_nat (suc n) = ap suc (read_nat-write_nat n)

-- To go on with a text that was read.
abbrev pub reading {ℓ} :
    {A : Type ℓ} → Option (String × String) → (String → String → Option A) → Option A
reading none k = none
reading (some (s, rest)) k = k s rest

pub reading-write {ℓ} :
    {A : Type ℓ} (s rest : String) (k : String → String → Option A)
    → reading (read (write s rest)) k ≡ k s rest
reading-write s rest k = ap (λ r. reading r k) (read-write s rest)

abbrev pub sign : String → Body → String
sign secret b = write secret (
    write b.claims.user_id (
      write b.claims.email
        (write b.claims.name (write b.claims.role (write b.issuer (write_nat b.expires_at))))))

abbrev pub body : (secret : String) → (now : ℕ) → String → Option Body
body secret now token = reading (read token) (λ s r.
    if s =t secret
    then reading (read r) (λ id r1. reading (read r1) (λ email r2. reading (read r2) (λ name r3.
      reading (read r3) (λ role r4. reading (read r4) (λ issuer r5.
        if ltb now (read_nat r5)
        then some (record {
          claims = record { user_id = id; email = email; name = name; role = role };
          issuer = issuer;
          expires_at = read_nat r5;
        })
        else none)))))
    else none)

pub body-sign :
    (secret : String) (now left : ℕ) (b : Body)
    → b.expires_at ≡ now + suc left
    → body secret now (sign secret b) ≡ some b
body-sign secret now left b h =
    let fresh : ltb now b.expires_at ≡ true = ground arith in
    simp (reading-write, =t_refl, read_nat-write_nat, fresh)

-- A text that is written is not empty.
write_some : (s rest : String) → write s rest ≢ String.[]
write_some String.[] rest = cons-ne-nil "0" rest
write_some (String.◌∷◌ c s) rest = cons-ne-nil "1" (String.◌∷◌ c (write s rest))

written : (t : String) → t ≢ String.[] → (t =t "") ≡ false
written t n = ground (arith, eq_iff t "")

pub sign-text : (secret : String) (b : Body) → (sign secret b =t "") ≡ false
sign-text secret b = written (sign secret b) (write_some secret _)

abbrev pub salted : Library
salted = record {
  matches = λ h p. h =t "#" +t p;
  hash = λ salt p. "#" +t p;
  sign = sign;
  parse = body;
}

abbrev pub salted_laws : Laws salted
salted_laws = record {
  matches_hash = λ salt p. =t_refl ("#" +t p);
  parse_sign = body-sign;
  sign_text = sign-text;
}

abbrev pub manager : Manager
manager = record { secret = "k"; issuer = "parkwatch"; ttl = 3600 }

abbrev pub seeded : List User
seeded = seed salted (λ b. if b then "1" else "2") (λ b. "") []

abbrev pub officer : PublicUser
officer = record {
  id = "1";
  email = "officer@parkwatch.test";
  name = "Olivia Officer";
  role = "officer";
}

abbrev pub token : String
token = issue salted manager 100 "1" "officer@parkwatch.test" "Olivia Officer" "officer"
