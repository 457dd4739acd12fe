-- ===== src/Payment/Listing.antt =====
-- internal/payment/service.go, `List`: whose invoices a caller sees.
use swiftmind_parking_portal.Common.{
  String, ◌≡◌, ◌≢◌, refl, sym, ap, ◌∙◌, true, false, inl, inr, Bool-cases, List, [], ◌∷◌, arith,
  eq_iff, ◌=t◌, map, select,
}
use swiftmind_parking_portal.Domain.{role_member}
use swiftmind_parking_portal.Payment.{Invoice, Payment, World, join, list_invoices, list_for}
use swiftmind_parking_portal.Payment.Counts.{join-same}

-- What is joined to an invoice does not change whose it is.
select-join :
    (email : String) (ps : List Payment) (invs : List Invoice)
    → map (join ps) (select (λ i. i.owner_email =t email) invs)
      ≡ select (λ i. i.owner_email =t email) (map (join ps) invs)
select-join email ps [] = refl
select-join email ps (i ∷ invs) =
    let same : (join ps i).owner_email ≡ i.owner_email = (join-same ps i).2 in
    elim (Bool-cases (i.owner_email =t email)) [
      | inl e ↦
          let e' : (join ps i).owner_email =t email ≡ true = rw same e in
          rw (e, e', select) (ap (λ js. join ps i ∷ js) (select-join email ps invs))
      | inr e ↦
          let e' : (join ps i).owner_email =t email ≡ false = rw same e in
          rw (e, e', select) (select-join email ps invs)
    ]

list_for-member :
    (email : String) (w : World)
    → email ≢ ""
    → list_for role_member email w
      ≡ map (join w.payments) (select (λ i. i.owner_email =t email) w.invoices)
unfolding list_for list_invoices
list_for-member email w e =
    let filled : (email =t "") ≡ false = ground (arith, eq_iff email "") in
    rw (filled, list_for, list_invoices) refl

list_for-other :
    (role email : String) (w : World)
    → role ≢ role_member
    → list_for role email w ≡ map (join w.payments) w.invoices
unfolding list_for list_invoices
list_for-other role email w r =
    let other : (role =t role_member) ≡ false = ground (arith, eq_iff role "member") in
    rw (other, list_for, list_invoices) refl

-- A member with an email sees, in the same order, exactly those of the invoices that somebody with
-- another role sees which are the member's own.
pub list_for_lem :
    (role email other : String) (w : World)
    → role ≢ role_member
    → email ≢ ""
    → list_for role_member email w ≡ select (λ i. i.owner_email =t email) (list_for role other w)
list_for_lem role email other w r e =
    list_for-member email w e
    ∙ select-join email w.payments w.invoices
    ∙ ap (select (λ i. i.owner_email =t email)) (sym (list_for-other role other w r))
