-- ===== src/Wire/Rows.antt =====
-- The rows of the services as JSON, and the interfaces of the web application.
use swiftmind_parking_portal.Common.{
  String, ◌≡◌, refl, ◌⊎◌, inl, inr, true, Bool-cases, List, [], ◌∷◌, ◌=t◌, All, arith, eq_iff,
}
use swiftmind_parking_portal.Domain.{valid_violation_type}
use swiftmind_parking_portal.Fine.Platform.{Runtime}
use swiftmind_parking_portal.Violation
use swiftmind_parking_portal.Payment
use swiftmind_parking_portal.Notification
use swiftmind_parking_portal.Rules
use swiftmind_parking_portal.Web.Types.{violation_types}
use swiftmind_parking_portal.Common.Int.{ℤ}
use swiftmind_parking_portal.Fine.{RepeatTier}
use swiftmind_parking_portal.Web.Http.{Json}
use swiftmind_parking_portal.Wire.{
  Encoder, items, encode_violation, encode_invoice, encode_notification, encode_version, amounts,
  encode_tier,
}
use swiftmind_parking_portal.Wire.Shapes.{
  Shape, conforms, all_items, violation_shape, invoice_shape, notification_shape,
  rule_version_shape, is_one_of, number, tier_shape, all_fields,
}

-- Every element of a slice has the type.
pub items-conforms :
    {A : Type 0} (s : Shape) (encode : A → Json) (xs : List A)
    → All (λ x. conforms s (encode x) ≡ true) xs
    → all_items (conforms s) (items encode xs) ≡ true
items-conforms s encode [] h = refl
items-conforms s encode (x ∷ xs) (h, hs) = rw (h, items-conforms s encode xs hs) refl

-- The violation type is known.
abbrev pub IsKnown : String → Type 0
IsKnown type = valid_violation_type type ≡ true

abbrev pub IsTypedViolation : (rt : Runtime) → Violation.Violation rt → Type 0
IsTypedViolation rt v =
    IsKnown v.violation_type × ((v.payment_status ≡ "unpaid") ⊎ (v.payment_status ≡ "paid"))

abbrev pub IsTypedInvoice : Payment.Invoice → Type 0
IsTypedInvoice i = IsKnown i.violation_type × ((i.status ≡ "open") ⊎ (i.status ≡ "paid"))

IsKnown-one_of : (type : String) → IsKnown type → is_one_of violation_types type ≡ true
unfolding valid_violation_type violation_types
IsKnown-one_of type k = ground arith

either-one_of : (a b s : String) → (s ≡ a) ⊎ (s ≡ b) → is_one_of (a ∷ b ∷ []) s ≡ true
either-one_of a b s h = ground (arith, eq_iff s a, eq_iff s b)

module _ (rt : Runtime) (e : Encoder rt) where
  pub violation-conforms :
      (v : Violation.Violation rt)
      → IsTypedViolation rt v
      → conforms violation_shape (encode_violation rt e v) ≡ true
  unfolding conforms violation_shape encode_violation violation_types
  violation-conforms v (k, p) =
      let known = IsKnown-one_of v.violation_type k in
      let status = either-one_of "unpaid" "paid" v.payment_status p in
      elim (Bool-cases (v.photo_url =t "")) [
        | inl n ↦ rw (n, known, status) refl
        | inr n ↦ rw (n, known, status) refl
      ]

  pub invoice-conforms :
      (i : Payment.Invoice)
      → IsTypedInvoice i
      → conforms invoice_shape (encode_invoice rt e i) ≡ true
  unfolding conforms invoice_shape encode_invoice violation_types
  invoice-conforms i (k, p) =
      let known = IsKnown-one_of i.violation_type k in
      let status = either-one_of "open" "paid" i.status p in
      elim (Bool-cases (i.transaction_id =t "")) [
        | inl n ↦ rw (n, known, status) refl
        | inr n ↦ rw (n, known, status) refl
      ]

  pub notification-conforms :
      (id : String) (n : Notification.Notification)
      → conforms notification_shape (encode_notification rt e id n) ≡ true
  unfolding conforms encode_notification
  notification-conforms id n = elim (Bool-cases (n.violation_id =t "")) [
    | inl m ↦ rw m refl
    | inr m ↦ rw m refl
  ]

  amounts-conform : (xs : List (String × ℤ)) → all_fields (conforms number) (amounts rt e xs) ≡ true
  unfolding conforms
  amounts-conform [] = refl
  amounts-conform ((type, amount) ∷ xs) = amounts-conform xs

  tiers-conform :
      (ts : List (RepeatTier rt.Float))
      → all_items (conforms tier_shape) (items (encode_tier rt e) ts) ≡ true
  unfolding conforms
  tiers-conform [] = refl
  tiers-conform (t ∷ ts) = tiers-conform ts

  pub version-conforms :
      (v : Rules.Version rt) → conforms rule_version_shape (encode_version rt e v) ≡ true
  unfolding conforms encode_version
  version-conforms v = rw (amounts-conform v.rules.base_amounts, tiers-conform v.rules.tiers) refl
