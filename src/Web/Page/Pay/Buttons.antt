-- ===== src/Web/Page/Pay/Buttons.antt =====
-- web/src/app/pay/page.tsx: which payments the page offers.
use swiftmind_parking_portal.Common.{
  String, ◌≡◌, ◌≢◌, ◌↔◌, refl, Bool, true, false, Option, none, some, List, [], ◌∷◌, inl, inr, Any,
  arith, eq_iff, lookup-insert, if◌then◌else◌, Option-cases, Any-iff, ◌=t◌,
}
use swiftmind_parking_portal.Web.Host.{Host}
use swiftmind_parking_portal.Web.Types.{Invoice}
use swiftmind_parking_portal.Web.Markup.{Offers, each, Offers-each}
use swiftmind_parking_portal.Web.Effect.{Query, Mutation, Arrived}
use swiftmind_parking_portal.Web.Page.Pay.{
  PayVars, choose, pay, Scenarios, scenario_of, is_paying, row, card, view, handle,
}

-- Another payment of this invoice is under way.
abbrev pub IsPaying : Mutation PayVars → String → Type 0
IsPaying m id =
    (m.is_pending ≡ true) × ((vars : PayVars) × (m.variables ≡ some vars) × (vars.id ≡ id))

is_paying_iff : (m : Mutation PayVars) (id : String) → (is_paying m id ≡ true) ↔ IsPaying m id
is_paying_iff m id = elim (Option-cases m.variables) [
  | inl e ↦ ground arith
  | inr (vars, e) ↦ ground (arith, eq_iff vars.id id)
]

module _ (host : Host) where
  open host use {Num}

  -- The invoice can be paid now with these variables.
  abbrev pub IsPayable : Scenarios → Mutation PayVars → PayVars → Invoice Num → Type 0
  IsPayable scenarios m vars inv =
      (inv.status ≢ "paid")
      × ¬ IsPaying m inv.id
      × (inv.id ≡ vars.id)
      × (scenario_of scenarios inv.id ≡ vars.scenario)

  row-Offers-pay :
      (scenarios : Scenarios) (m : Mutation PayVars) (vars : PayVars) (inv : Invoice Num)
      → Offers (pay vars) (row host scenarios m inv) ↔ IsPayable scenarios m vars inv
  unfolding row
  row-Offers-pay scenarios m vars inv =
      ground (arith, eq_iff inv.status "paid", is_paying_iff m inv.id)

  rows-Offers-pay :
      (scenarios : Scenarios) (m : Mutation PayVars) (vars : PayVars) (invs : List (Invoice Num))
      → Offers (pay vars) (each (row host scenarios m) invs) ↔ Any (IsPayable scenarios m vars) invs
  rows-Offers-pay scenarios m vars invs =
      let e = Offers-each (pay vars) (row host scenarios m) invs in
      let f = Any-iff invs (row-Offers-pay scenarios m vars) in
      ((λ h. f.0 (e.0 h)), λ h. e.1 (f.1 h))

  -- There is an invoice that can be paid, among those that have arrived.
  abbrev pub HasPayable :
      Scenarios → Mutation PayVars → PayVars → Bool → Option (List (Invoice Num)) → Type 0
  HasPayable scenarios m vars pending result =
      (pending ≡ false) × Arrived (Any (IsPayable scenarios m vars)) result

  card-Offers-pay :
      (scenarios : Scenarios) (m : Mutation PayVars) (vars : PayVars) (pending : Bool)
      (result : Option (List (Invoice Num)))
      → Offers (pay vars) (card host scenarios m pending result)
        ↔ HasPayable scenarios m vars pending result
  unfolding card
  card-Offers-pay scenarios m vars true result = ground arith
  card-Offers-pay scenarios m vars false none = ground arith
  card-Offers-pay scenarios m vars false (some []) = ground arith
  card-Offers-pay scenarios m vars false (some (inv ∷ invs)) =
      let e = rows-Offers-pay scenarios m vars (inv ∷ invs) in
      ((λ h. (refl, e.0 (elim h [ inl x ↦ absurd (omega arith) | inr y ↦ y ]))), λ h. inr (e.1 h.1))

  -- The page offers a payment with an id and a scenario exactly when it may be shown, the invoices
  -- have arrived, and one of them has that id, is not paid, is not being paid right now, and has that
  -- scenario chosen.
  pub view-Offers-pay :
      (ready : Bool) (scenarios : Scenarios) (m : Mutation PayVars) (q : Query (List (Invoice Num)))
      (vars : PayVars)
      → Offers (pay vars) (view host ready scenarios m q)
        ↔ ((ready ≡ true) × HasPayable scenarios m vars q.is_pending q.result)
  unfolding view
  view-Offers-pay false scenarios m q vars = ground arith
  view-Offers-pay true scenarios m q vars =
      ground (arith, card-Offers-pay scenarios m vars q.is_pending q.result)

-- After a scenario is chosen for an invoice, that invoice has it, and each other one has what it had.
pub scenario_of-choose :
    (id value other : String) (s : Scenarios)
    → value ≢ ""
    → scenario_of (handle (choose id value) s).0 other
      ≡ (if id =t other then value else scenario_of s other)
unfolding handle
scenario_of-choose id value other s filled =
    ground (arith, eq_iff value "", lookup-insert id other value s)
