-- ===== src/Gateway/Callers.antt =====
-- internal/gateway/proxy.go: the identity headers of a forwarded request.
use swiftmind_parking_portal.Common.{
  [], ◌∷◌, ◌++◌, ◌∙◌, false, not, select, lookup, if◌then◌else◌, refl, String, ◌≡◌, ap, inl, inr,
  Bool, true, Bool-cases, Option, none, some, List, ◌=t◌, eq_iff, arith,
}
use swiftmind_parking_portal.Gateway.{
  Claims, header, identify, has, connection_names, hop_headers, remove_hop_by_hop, del, set,
}

-- The value, unless the header is among the names.
abbrev pub unless : (k : String) → (names : List String) → (value : String) → String
unless k names value = if has k names then "" else value

-- The identity headers are the caller's, but for those that the client's `Connection` header names, which
-- are not there.
pub record IsCaller (c : Claims) (names : List String) (hs : List (String × String)) : Type 0 where
  pub same_id : header "X-User-Id" hs ≡ unless "X-User-Id" names c.user_id
  pub same_role : header "X-User-Role" hs ≡ unless "X-User-Role" names c.role
  pub same_email : header "X-User-Email" hs ≡ unless "X-User-Email" names c.email
  pub same_name : header "X-User-Name" hs ≡ unless "X-User-Name" names c.name

lookup-kept :
    (names : List String) (k : String) (hs : List (String × String))
    → lookup k (select (λ h. not (has h.0 names)) hs) ≡ (if has k names then none else lookup k hs)
lookup-kept names k [] = elim (Bool-cases (has k names)) [ inl e ↦ rw e refl | inr e ↦ rw e refl ]
lookup-kept names k (h ∷ hs) =
    let rest = lookup-kept names k hs in
    elim (Bool-cases (has h.0 names)) [
      | inl e ↦ elim (Bool-cases (h.0 =t k)) [
        | inl f ↦
            let same : has k names ≡ true = rw ((eq_iff h.0 k).0 f) at e in
            rw (e, select, rest, same) refl
        | inr f ↦ rw (e, f, select, rest) refl
      ]
      | inr e ↦ elim (Bool-cases (h.0 =t k)) [
        | inl f ↦
            let same : has k names ≡ false = rw ((eq_iff h.0 k).0 f) at e in
            rw (e, f, select, same, lookup) refl
        | inr f ↦ rw (e, f, select, lookup) rest
      ]
    ]

names-del :
    (k : String) (hs : List (String × String))
    → (k =t "Connection") ≡ false
    → connection_names (del k hs) ≡ connection_names hs
names-del k [] n = refl
names-del k (h ∷ hs) n =
    let rest = names-del k hs n in
    elim (Bool-cases (h.0 =t k)) [
      | inl e ↦
          let other : (h.0 =t "Connection") ≡ false = rw ((eq_iff h.0 k).0 e) n in
          rw (e, select, other) rest
      | inr e ↦ elim (Bool-cases (h.0 =t "Connection")) [
        | inl f ↦ rw (e, f, select, connection_names) (ap (λ ns. h.1 ∷ ns) rest)
        | inr f ↦ rw (e, f, select, connection_names) rest
      ]
    ]

names-set :
    (k v : String) (hs : List (String × String))
    → (k =t "Connection") ≡ false
    → connection_names (set k v hs) ≡ connection_names hs
names-set k v hs n = rw (n, connection_names) (names-del k hs n)

names-identify :
    (c : Claims) (hs : List (String × String))
    → connection_names (identify (some c) hs) ≡ connection_names hs
unfolding identify
names-identify c hs =
    let no_id = del "X-User-Id" hs in
    let no_role = del "X-User-Role" no_id in
    let no_email = del "X-User-Email" no_role in
    let no_name = del "X-User-Name" no_email in
    let with_id = set "X-User-Id" c.user_id no_name in
    let with_role = set "X-User-Role" c.role with_id in
    let with_email = set "X-User-Email" c.email with_role in
    names-set "X-User-Name" c.name with_email refl
    ∙ names-set "X-User-Email" c.email with_role refl
    ∙ names-set "X-User-Role" c.role with_id refl
    ∙ names-set "X-User-Id" c.user_id no_name refl
    ∙ names-del "X-User-Name" no_email refl
    ∙ names-del "X-User-Email" no_role refl
    ∙ names-del "X-User-Role" no_id refl
    ∙ names-del "X-User-Id" hs refl

has-append :
    (k : String) (names more : List String)
    → has k names ≡ false
    → has k (names ++ more) ≡ has k more
has-append k [] more n = refl
has-append k (j ∷ names) more n = elim (Bool-cases (j =t k)) [
  | inl e ↦ absurd (ground arith)
  | inr e ↦ rw (e, has) (has-append k names more (rw (e, has) at n))
]

-- The value of a header that has been looked up.
abbrev value_of : Option String → String
value_of o = elim o [ none ↦ "" | some v ↦ v ]

value_unless :
    (gone : Bool) (v : String) → value_of (if gone then none else some v) ≡ (if gone then "" else v)
value_unless true v = refl
value_unless false v = refl

header-kept :
    (k value : String) (c : Claims) (hs : List (String × String))
    → has k hop_headers ≡ false
    → lookup k (identify (some c) hs) ≡ some value
    → header k (remove_hop_by_hop (identify (some c) hs)) ≡ unless k (connection_names hs) value
header-kept k value c hs n found =
    let after = identify (some c) hs in
    ap value_of (lookup-kept (hop_headers ++ connection_names after) k after)
    ∙ ap (λ b. value_of (if b then none else lookup k after))
        (has-append k hop_headers (connection_names after) n ∙ ap (has k) (names-identify c hs))
    ∙ ap (λ o. value_of (if has k (connection_names hs) then none else o)) found
    ∙ value_unless (has k (connection_names hs)) value

pub identify-IsCaller :
    (c : Claims) (hs : List (String × String))
    → IsCaller c (connection_names hs) (remove_hop_by_hop (identify (some c) hs))
unfolding identify
identify-IsCaller c hs = record {
  same_id = header-kept "X-User-Id" c.user_id c hs refl refl;
  same_role = header-kept "X-User-Role" c.role c hs refl refl;
  same_email = header-kept "X-User-Email" c.email c hs refl refl;
  same_name = header-kept "X-User-Name" c.name c hs refl refl;
}
