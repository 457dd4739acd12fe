-- ===== src/Violation/Visibility.antt =====
-- internal/violation/service.go, `List` and `Get`: which violations a caller is shown.
use swiftmind_parking_portal.Common.{
  String, ◌≡◌, refl, ap, ◌∙◌, Any-select, ◌≢◌, inl, inr, All-select, false, Bool-cases, not, ◌&&◌,
  some, none, Option-cases, List, [], ◌∷◌, All, All-map, Any, Any-map, Any-find?, All-imp, Any-imp,
  eq_iff, ◌=t◌, arith,
}
use swiftmind_parking_portal.Domain.{role_member}
use swiftmind_parking_portal.Fine.Platform.{Runtime}
use swiftmind_parking_portal.Violation.{
  Violation, World, Answer, ok, err, not_found, attach_photo_url, stored, list_violations, list_for,
  shown, get,
}

module _ (rt : Runtime) where
  -- Every row is the one that its identifier finds.
  unfoldable pub IsKeyed : World rt → Type 0
  IsKeyed w = All (λ v. stored rt v.id w ≡ some v) w.violations

  attach_photo_url-id : (v : Violation rt) → (attach_photo_url rt v).id ≡ v.id
  unfolding attach_photo_url
  attach_photo_url-id v = ground arith

  eq_false : (s : String) → s ≢ "" → (s =t "") ≡ false
  eq_false s n = ground (arith, eq_iff s "")

  -- A member may see a violation of their own, and anybody else every violation.
  shown-ok :
      (role email : String) (v : Violation rt)
      → (role =t role_member && not (v.owner_email =t email)) ≡ false
      → shown rt role email (some v) ≡ ok (attach_photo_url rt v)
  shown-ok role email v h = rw (h, shown) refl

  refused_ok : (u : Violation rt) → ◌≡◌ {A = Answer rt} (err not_found) (ok u) → ⊥
  refused_ok u h = ground arith

  ok-injective : (v u : Violation rt) → ◌≡◌ {A = Answer rt} (ok v) (ok u) → v ≡ u
  ok-injective v u h = cc

  shown-none : (role email : String) (u : Violation rt) → shown rt role email none ≡ ok u → ⊥
  shown-none role email u h = ground arith

  shown-some :
      (role email : String) (v u : Violation rt)
      → shown rt role email (some v) ≡ ok u
      → (attach_photo_url rt v ≡ u)
        × ((role =t role_member && not (v.owner_email =t email)) ≡ false)
  shown-some role email v u h =
      elim (Bool-cases (role =t role_member && not (v.owner_email =t email))) [
        | inl e ↦ absurd (refused_ok u (rw (e, shown) at h))
        | inr e ↦ (ok-injective _ _ (rw (e, shown) at h), e)
      ]

  get-ok :
      (role email : String) (w : World rt) (v : Violation rt)
      → stored rt v.id w ≡ some v
      → (role =t role_member && not (v.owner_email =t email)) ≡ false
      → get rt (attach_photo_url rt v).id role email w ≡ ok (attach_photo_url rt v)
  unfolding get
  get-ok role email w v s h =
      ap (λ i. get rt i role email w) (attach_photo_url-id v)
      ∙ rw (s, get) (shown-ok role email v h)

  -- Where every row is the one that its identifier finds, each violation that a caller with an email is
  -- listed is what `get` answers that caller for its identifier.
  pub list_for-get :
      (role email : String) (w : World rt)
      → IsKeyed w
      → email ≢ ""
      → All (λ u. get rt u.id role email w ≡ ok u) (list_for rt role email w)
  unfolding list_for list_violations IsKeyed
  list_for-get role email w k n = elim (Bool-cases (role =t role_member)) [
    | inl e ↦
        rw (e, list_for)
          (All-map _ (attach_photo_url rt) _ (
            rw (eq_false email n, list_violations)
              (All-imp _ (λ v h. get-ok role email w v h.0 (ground (arith, h.1, e)))
                (All-select (λ v. stored rt v.id w ≡ some v) (λ v. v.owner_email =t email)
                  w.violations k))))
    | inr e ↦
        rw (e, list_for)
          (All-map _ (attach_photo_url rt) _
            (All-imp _ (λ v h. get-ok role email w v h (ground (arith, e))) k))
  ]

  -- The row that an answer of `get` shows, which the caller may see.
  get-row :
      (id role email : String) (w : World rt) (u : Violation rt)
      → get rt id role email w ≡ ok u
      → (v : Violation rt) × (stored rt id w ≡ some v)
        × (attach_photo_url rt v ≡ u)
        × ((role =t role_member && not (v.owner_email =t email)) ≡ false)
  unfolding get
  get-row id role email w u h = elim (Option-cases (stored rt id w)) [
    | inl e ↦ absurd (shown-none role email u (rw (e, get) at h))
    | inr (v, e) ↦
        let (same, may_see) = shown-some role email v u (rw (e, get) at h) in (v, e, same, may_see)
  ]

  -- Whatever `get` answers a caller for an identifier is in the caller's list.
  pub get-Listed :
      (id role email : String) (w : World rt) (u : Violation rt)
      → get rt id role email w ≡ ok u
      → Any (λ x. x ≡ u) (list_for rt role email w)
  unfolding list_for list_violations stored
  get-Listed id role email w u h =
      let (v, found, same, may_see) = get-row id role email w u h in
      let there : Any (λ x. x ≡ v) w.violations =
        Any-find? (λ x. x ≡ v) _ w.violations v found refl in
      elim (Bool-cases (role =t role_member)) [
        | inl e ↦ elim (Bool-cases (email =t "")) [
          | inl f ↦
              rw (e, list_for)
                (Any-map _ (attach_photo_url rt) _ (
                  rw (f, list_violations)
                    (Any-imp _ (λ x p. ap (attach_photo_url rt) p ∙ same) there)))
          | inr f ↦
              rw (e, list_for)
                (Any-map _ (attach_photo_url rt) _ (
                  rw (f, list_violations)
                    (Any-select (λ x. attach_photo_url rt x ≡ u) (λ x. x.owner_email =t email)
                      w.violations
                      (Any-imp _
                        (λ x p.
                          (ap (attach_photo_url rt) p ∙ same, rw p (ground (arith, e, may_see))))
                        there))))
        ]
        | inr e ↦
            rw (e, list_for)
              (Any-map _ (attach_photo_url rt) _
                (Any-imp _ (λ x p. ap (attach_photo_url rt) p ∙ same) there))
      ]

  attach_photo_url-owner : (v : Violation rt) → (attach_photo_url rt v).owner_email ≡ v.owner_email
  unfolding attach_photo_url
  attach_photo_url-owner v = ground arith

  All_trivial : (vs : List (Violation rt)) → All (λ v. v.id ≡ v.id) vs
  All_trivial [] = tt
  All_trivial (v ∷ vs) = (refl, All_trivial vs)

  -- A member with an email is listed violations of their own plates only.
  pub list_for-own :
      (email : String) (w : World rt)
      → email ≢ ""
      → All (λ u. u.owner_email ≡ email) (list_for rt "member" email w)
  unfolding list_for list_violations
  list_for-own email w n = All-map _ (attach_photo_url rt) _ (
      rw (eq_false email n, list_violations)
        (All-imp _ (λ v h. attach_photo_url-owner v ∙ (eq_iff v.owner_email email).0 h.1)
          (All-select (λ v. v.id ≡ v.id) (λ v. v.owner_email =t email) w.violations
            (All_trivial w.violations))))

  pub attach_photo_url-issuer :
      (v : Violation rt) → (attach_photo_url rt v).issued_by_email ≡ v.issued_by_email
  unfolding attach_photo_url
  attach_photo_url-issuer v = ground arith
