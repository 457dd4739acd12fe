-- ===== src/Web/Page/Violations/Links.antt =====
-- web/src/app/violations/page.tsx: where the list leads.
use swiftmind_parking_portal.Common.{
  String, ◌≡◌, refl, ◌↔◌, Bool, true, false, Option, none, some, List, [], ◌∷◌, inl, inr, Any,
  Any-iff, arith, eq_iff, ◌≢◌, ◌=t◌, Bool-cases,
}
use swiftmind_parking_portal.Web.Host.{Host}
use swiftmind_parking_portal.Web.Types.{User, Violation}
use swiftmind_parking_portal.Web.Markup.{Offers, each, Offers-each, not-Offers-each}
use swiftmind_parking_portal.Web.Effect.{Arrived}
use swiftmind_parking_portal.Web.Page.Violations.{
  Action, to_new, open_violation, photo_cell, row, card, view,
}

photo_cell-Offers :
    (a : Action) (plate : String) (url : Option String) → ¬ Offers a (photo_cell plate url)
unfolding photo_cell
photo_cell-Offers a plate none = ground arith
photo_cell-Offers a plate (some u) = ground arith

module _ (host : Host) where
  open host use {Num}

  row-Offers :
      (id : String) (v : Violation Num) → Offers (open_violation id) (row host v) ↔ (v.id ≡ id)
  unfolding row
  row-Offers id v = ground (arith, photo_cell-Offers (open_violation id) v.plate v.photo_url)

  row-Offers_new : (v : Violation Num) → ¬ Offers to_new (row host v)
  unfolding row
  row-Offers_new v = ground (arith, photo_cell-Offers to_new v.plate v.photo_url)

  rows-Offers :
      (id : String) (vs : List (Violation Num))
      → Offers (open_violation id) (each (row host) vs) ↔ Any (λ v. v.id ≡ id) vs
  rows-Offers id vs =
      let e = Offers-each (open_violation id) (row host) vs in
      let f = Any-iff vs (row-Offers id) in ((λ h. f.0 (e.0 h)), λ h. e.1 (f.1 h))

  card-Offers :
      (id : String) (pending : Bool) (result : Option (List (Violation Num)))
      → Offers (open_violation id) (card host pending result)
        ↔ ((pending ≡ false) × Arrived (Any (λ v. v.id ≡ id)) result)
  unfolding card
  card-Offers id true result = ground arith
  card-Offers id false none = ground arith
  card-Offers id false (some []) = ground arith
  card-Offers id false (some (v ∷ vs)) = ground (arith, rows-Offers id (v ∷ vs))

  card-Offers_new :
      (pending : Bool) (result : Option (List (Violation Num)))
      → ¬ Offers to_new (card host pending result)
  unfolding card
  card-Offers_new true result = ground arith
  card-Offers_new false none = ground arith
  card-Offers_new false (some []) = ground arith
  card-Offers_new false (some (v ∷ vs)) =
      ground (arith, not-Offers-each to_new (row host) (v ∷ vs) row-Offers_new)

  -- The list opens exactly the violations that have arrived, and it does so only where the page may be
  -- shown to a user.
  pub view-Offers_open :
      (ready : Bool) (user : Option User) (pending : Bool) (result : Option (List (Violation Num)))
      (id : String)
      → Offers (open_violation id) (view host ready user pending result) ↔ (
          (ready ≡ true)
          × (user ≢ none)
          × (pending ≡ false)
          × Arrived (Any (λ v. v.id ≡ id)) result)
  unfolding view
  view-Offers_open false user pending result id = ground arith
  view-Offers_open true none pending result id = ground arith
  view-Offers_open true (some u) pending result id = elim (Bool-cases (u.role =t "officer")) [
    | inl e ↦ rw e (ground (arith, card-Offers id pending result))
    | inr e ↦ rw e (ground (arith, card-Offers id pending result))
  ]

  abbrev pub IsOfficer : Option User → Type 0
  IsOfficer none = ⊥
  IsOfficer (some u) = u.role ≡ "officer"

  -- The list leads to the form for a new violation exactly where it may be shown to an officer.
  pub view-Offers_new :
      (ready : Bool) (user : Option User) (pending : Bool) (result : Option (List (Violation Num)))
      → Offers to_new (view host ready user pending result) ↔ ((ready ≡ true) × IsOfficer user)
  unfolding view
  view-Offers_new false user pending result = ground arith
  view-Offers_new true none pending result = ground arith
  view-Offers_new true (some u) pending result = elim (Bool-cases (u.role =t "officer")) [
    | inl e ↦ rw e ((λ _. (refl, (eq_iff u.role "officer").0 e)), λ _. ground arith)
    | inr e ↦ rw e (ground (arith, card-Offers_new pending result, eq_iff u.role "officer"))
  ]
