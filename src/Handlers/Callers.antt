-- ===== src/Handlers/Callers.antt =====
-- internal/gateway and the handlers of the services: on whose behalf a service acts, from the token of
-- the request to the row in the table.
use mathlib.Core.Option.{some-injective}
use swiftmind_parking_portal.Common.{
  ℕ, String, ◌≡◌, ◌≢◌, refl, sym, ap, ◌∙◌, ◌⊎◌, inl, inr, Option, none, some, Option-cases, List,
  All, Bool, true, false, Bool-cases, map, ◌||◌, ◌=t◌, if◌then◌else◌, arith, eq_iff,
}
use swiftmind_parking_portal.Fine.Platform.{Runtime}
use swiftmind_parking_portal.Gateway.{
  Claims, Request, Config, payments, violations, forwarded, header, token_from_request, dispatch,
  has, connection_names,
}
use swiftmind_parking_portal.Gateway.Callers.{unless}
use swiftmind_parking_portal.Gateway.Access.{dispatch-forwarded}
use swiftmind_parking_portal.Violation
use swiftmind_parking_portal.Violation.Visibility.{list_for-own, attach_photo_url-issuer}
use swiftmind_parking_portal.Violation.Issuing.{create-Outcome}
use swiftmind_parking_portal.Payment
use swiftmind_parking_portal.Payment.Answers.{IsPayable, pay-ok}
use swiftmind_parking_portal.Handlers.{
  Response, json, failure, pay_error, pay_response, pay, list_violations, create_response, Form,
  create_violation, parse_timestamp,
}

pub pay_response-json :
    (a : Payment.Answer) (n : ℕ) (res : Payment.PayResult)
    → pay_response a ≡ json n res
    → a ≡ Payment.ok res
unfolding pay_response pay_error
pay_response-json (Payment.ok r) n res h = ground arith
pay_response-json (Payment.err Payment.not_found) n res h = ground arith
pay_response-json (Payment.err Payment.forbidden) n res h = ground arith
pay_response-json (Payment.err Payment.invalid_scenario) n res h = ground arith
pay_response-json (Payment.err Payment.busy) n res h = ground arith
pay_response-json (Payment.err Payment.internal) n res h = ground arith

payable-owner :
    (scenario caller : String) (found : Option Payment.Invoice)
    → IsPayable scenario caller found
    → (inv : Payment.Invoice) × (found ≡ some inv) × (inv.owner_email ≡ caller) × (caller ≢ "")
payable-owner scenario caller none h = absurd h
payable-owner scenario caller (some inv) (_, owner, filled) = (inv, refl, owner, filled)

undecoded :
    (res : Payment.PayResult)
    → ◌≡◌ {A = Response Payment.PayResult} (failure 400 "invalid request body") (json 200 res)
    → ⊥
undecoded res h = ground arith

pay-owner :
    (env : Payment.Env) (id : String) (scenario : Option String) (q : Request) (w : Payment.World)
    (res : Payment.PayResult)
    → (pay env id scenario q w).0 ≡ json 200 res
    → (inv : Payment.Invoice) × (Payment.get id w ≡ some inv)
      × (inv.owner_email ≡ header "X-User-Email" q.headers)
      × (header "X-User-Email" q.headers ≢ "")
unfolding pay
pay-owner env id none q w res h = absurd (undecoded res h)
pay-owner env id (some scenario) q w res h =
    let caller = header "X-User-Email" q.headers in
    payable-owner scenario caller (Payment.get id w)
      (pay-ok env id scenario caller w res (pay_response-json _ 200 res h))

post_get : ◌≢◌ {A = String} "POST" "GET"
post_get = ground (arith, eq_iff "POST" "GET")

only_role :
    (m role needed : String)
    → m ≡ "POST"
    → (m ≡ "GET") ⊎ (m ≡ "POST") × (role ≡ needed)
    → role ≡ needed
only_role m role needed p (inl g) = absurd (post_get (sym p ∙ g))
only_role m role needed p (inr h) = h.1

-- A header that has a value is the caller's.
kept_value :
    (k : String) (names : List String) (value got : String)
    → got ≡ unless k names value
    → got ≢ ""
    → got ≡ value
kept_value k names value got h n = elim (Bool-cases (has k names)) [
  | inl e ↦ absurd (n (rw e at h))
  | inr e ↦ rw e at h
]

-- A payment that is answered with 200 through the gateway was asked for with a verified token of a
-- member, who owns the invoice.
pub pay-caller :
    (cfg : Config) (r q : Request) (env : Payment.Env) (id : String) (scenario : Option String)
    (w : Payment.World) (res : Payment.PayResult)
    → dispatch cfg r ≡ forwarded payments q
    → r.method ≡ "POST"
    → (pay env id scenario q w).0 ≡ json 200 res
    → (c : Claims) × (cfg.verify (token_from_request cfg r) ≡ some c)
      × (c.role ≡ "member")
      × (inv : Payment.Invoice) × (Payment.get id w ≡ some inv)
      × (inv.owner_email ≡ c.email)
pay-caller cfg r q env id scenario w res d p h =
    let (c, v, caller, _, allowed) = dispatch-forwarded cfg r payments q d in
    let (inv, found, owner, filled) = pay-owner env id scenario q w res h in
    let email =
      kept_value "X-User-Email" (connection_names r.headers) c.email _ caller.same_email in
    (c, v, only_role r.method c.role "member" p allowed, inv, found, owner ∙ email filled)

module _ (rt : Runtime) where
  list_for-everything :
      (role email : String) (w : Violation.World rt)
      → (if role =t "member" then email else "") ≡ ""
      → Violation.list_for rt role email w ≡ map (Violation.attach_photo_url rt) w.violations
  unfolding Violation.list_for Violation.list_violations
  list_for-everything role email w h = rw (h, Violation.list_violations) refl

  -- What a member is listed, by the headers that the request's `Connection` header names.
  abbrev pub IsListed :
      Claims → (names : List String) → Violation.World rt → List (Violation.Violation rt) → Type 0
  IsListed c names w vs =
      ((has "X-User-Role" names || has "X-User-Email" names) ≡ true)
        × (vs ≡ map (Violation.attach_photo_url rt) w.violations)
      ⊎ ((has "X-User-Role" names || has "X-User-Email" names) ≡ false)
        × All (λ v. v.owner_email ≡ c.email) vs

  member-IsListed :
      (c : Claims) (names : List String) (w : Violation.World rt) (here there : Bool)
      → has "X-User-Role" names ≡ here
      → has "X-User-Email" names ≡ there
      → c.role ≡ "member"
      → c.email ≢ ""
      → IsListed c names w
          (Violation.list_for rt (if here then "" else c.role) (if there then "" else c.email) w)
  member-IsListed c names w true there a b m n = inl (rw a refl, list_for-everything "" _ w refl)
  member-IsListed c names w false true a b m n =
      inl (rw (a, b) refl, list_for-everything c.role "" w (rw m refl))
  member-IsListed c names w false false a b m n =
      inr (rw (a, b) refl, rw m (list_for-own rt c.email w n))

  -- Whatever headers a member with an email sends, identity headers included, the violations that the
  -- gateway brings back are of the owner that the token names, as long as no `Connection` header
  -- names the role or the email; if one does, they are the violations of everybody.
  pub list_violations-caller :
      (cfg : Config) (r q : Request) (c : Claims) (w : Violation.World rt)
      → dispatch cfg r ≡ forwarded violations q
      → cfg.verify (token_from_request cfg r) ≡ some c
      → c.role ≡ "member"
      → c.email ≢ ""
      → (vs : List (Violation.Violation rt)) × (list_violations rt q w ≡ json 200 vs)
        × IsListed c (connection_names r.headers) w vs
  unfolding list_violations
  list_violations-caller cfg r q c w d v m n =
      let (c', v', caller, _, _) = dispatch-forwarded cfg r violations q d in
      let names = connection_names r.headers in
      let same : c' ≡ c = some-injective c' c (sym v' ∙ v) in
      let role : header "X-User-Role" q.headers ≡ unless "X-User-Role" names c.role =
        caller.same_role ∙ ap (λ x. unless "X-User-Role" names x.role) same in
      let email : header "X-User-Email" q.headers ≡ unless "X-User-Email" names c.email =
        caller.same_email ∙ ap (λ x. unless "X-User-Email" names x.email) same in
      (
        Violation.list_for rt (unless "X-User-Role" names c.role)
            (unless "X-User-Email" names c.email) w,
        ap (λ x. json 200 (Violation.list_for rt x (header "X-User-Email" q.headers) w)) role
            ∙ ap (λ x. json 200 (Violation.list_for rt (unless "X-User-Role" names c.role) x w))
                email,
        member-IsListed c names w (has "X-User-Role" names) (has "X-User-Email" names) refl refl m
            n,
      )

  pub create_response-json :
      (a : Violation.Answer rt) (v : Violation.Violation rt)
      → create_response rt a ≡ json 201 v
      → a ≡ Violation.ok v
  unfolding create_response
  create_response-json (Violation.ok u) v h = ground arith
  create_response-json (Violation.err Violation.invalid_input) v h = ground arith
  create_response-json (Violation.err Violation.not_found) v h = ground arith
  create_response-json (Violation.err Violation.internal) v h = ground arith

  failed :
      (n : ℕ) (m : String) (v : Violation.Violation rt)
      → ◌≢◌ {A = Response (Violation.Violation rt)} (failure n m) (json 201 v)
  failed n m v h = ground arith

  err_ok :
      (e : Violation.Error) (v : Violation.Violation rt)
      → ◌≢◌ {A = Violation.Answer rt} (Violation.err e) (Violation.ok v)
  err_ok e v h = ground arith

  ok-injective :
      (u v : Violation.Violation rt)
      → ◌≡◌ {A = Violation.Answer rt} (Violation.ok u) (Violation.ok v)
      → u ≡ v
  ok-injective u v h = cc

  -- What `create` answers was issued by the caller of the input.
  create-issuer :
      (lib : Violation.Library rt) (env : Violation.Env rt) (i : Violation.CreateInput rt)
      (photo : Option Violation.Photo) (w : Violation.World rt) (v : Violation.Violation rt)
      → (Violation.create rt lib env i photo w).0 ≡ Violation.ok v
      → v.issued_by_email ≡ i.issued_by_email
  create-issuer lib env i photo w v h = elim (create-Outcome rt lib env i photo w) [
    | inl (e, a, _) ↦ absurd (err_ok e v (sym a ∙ h))
    | inr (active, b, key, _, _, _, k) ↦
        let row = Violation.row_of rt env i active b key (Violation.owner_of_plate rt i.plate w) in
        let same : Violation.attach_photo_url rt row ≡ v = ok-injective _ v (sym k.answers ∙ h) in
        ap (λ x. x.issued_by_email) (sym same) ∙ attach_photo_url-issuer rt row
  ]

  create_violation-issuer :
      (lib : Violation.Library rt) (env : Violation.Env rt) (form : Option (Form rt))
      (photo : Option Violation.Photo) (q : Request) (w : Violation.World rt)
      (v : Violation.Violation rt)
      → (create_violation rt lib env form photo q w).0 ≡ json 201 v
      → v.issued_by_email ≡ header "X-User-Email" q.headers
  unfolding create_violation
  create_violation-issuer lib env none photo q w v h =
      absurd (failed 400 "invalid multipart form" v h)
  create_violation-issuer lib env (some f) photo q w v h =
      elim (Option-cases (parse_timestamp rt lib f.occurred_at)) [
        | inl e ↦
            absurd (failed 400 "invalid occurred_at timestamp" v (rw (e, create_violation) at h))
        | inr (t, e) ↦
            create-issuer lib env _ photo w v
              (create_response-json _ v (rw (e, create_violation) at h))
      ]

  -- A violation that is created through the gateway was sent with a verified token of an officer, who
  -- is its issuer; if the request's `Connection` header names the email, it has no issuer.
  pub create_violation-caller :
      (cfg : Config) (r q : Request) (lib : Violation.Library rt) (env : Violation.Env rt)
      (form : Option (Form rt)) (photo : Option Violation.Photo) (w : Violation.World rt)
      (v : Violation.Violation rt)
      → dispatch cfg r ≡ forwarded violations q
      → r.method ≡ "POST"
      → (create_violation rt lib env form photo q w).0 ≡ json 201 v
      → (c : Claims) × (cfg.verify (token_from_request cfg r) ≡ some c)
        × (c.role ≡ "officer")
        × (v.issued_by_email ≡ unless "X-User-Email" (connection_names r.headers) c.email)
  create_violation-caller cfg r q lib env form photo w v d p h =
      let (c, k, caller, _, allowed) = dispatch-forwarded cfg r violations q d in
      (
        c,
        k,
        only_role r.method c.role "officer" p allowed,
        create_violation-issuer lib env form photo q w v h ∙ caller.same_email,
      )
