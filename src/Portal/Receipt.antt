-- ===== src/Portal/Receipt.antt =====
-- web/src/app/receipt/[id]/page.tsx after a payment through the gateway.
use mathlib.Core.Path.{subst}
use mathlib.Core.Option.{some-injective}
use swiftmind_parking_portal.Common.{
  String, ◌≡◌, ◌≢◌, refl, sym, ap, ◌∙◌, true, false, some, Option-cases, map, find?, find?-select,
  List, [], ◌∷◌, ◌=t◌, eq_iff, Bool-cases, inl, inr, arith,
}
use swiftmind_parking_portal.Fine.Platform.{Runtime}
use swiftmind_parking_portal.Gateway.{Claims, Config}
use swiftmind_parking_portal.Gateway.Segments.{words}
use swiftmind_parking_portal.Payment
use swiftmind_parking_portal.Payment.Again.{IsPaid, pay-IsPaid}
use swiftmind_parking_portal.Payment.Receipted.{IsNewest, pay-IsNewest, IsNewest-join}
use swiftmind_parking_portal.Payment.Counts.{join-same}
use swiftmind_parking_portal.Handlers.{json}
use swiftmind_parking_portal.Handlers.Callers.{pay_response-json}
use swiftmind_parking_portal.Web.Host.{Host}
use swiftmind_parking_portal.Web.Types.{Invoice}
use swiftmind_parking_portal.Web.Markup.{Offers, Shows}
use swiftmind_parking_portal.Web.Effect.{Arrived, Query}
use swiftmind_parking_portal.Web.Http.{Json, Js}
use swiftmind_parking_portal.Web.Page.Receipt.{print_receipt, view}
use swiftmind_parking_portal.Web.Page.Receipt.Paid.{
  HasPaid, find?-IsFirst, view-Offers_print, view-Shows,
}
use swiftmind_parking_portal.Wire.{Encoder, invoices_body}
use swiftmind_parking_portal.Wire.Reading.{web_invoice}
use swiftmind_parking_portal.Wire.Transport.{Carries}
use swiftmind_parking_portal.Portal.{page_invoices, pay_call}
use swiftmind_parking_portal.Portal.Invoices.{page_invoices-list}
use swiftmind_parking_portal.Portal.Paying.{pay_call-pay}

-- The row of a caller's paid invoice.
IsPaid-row :
    (id caller : String) (w : Payment.World)
    → IsPaid caller (Payment.get id w)
    → (row : Payment.Invoice) × (find? (λ i. i.id =t id) w.invoices ≡ some row)
      × (row.status ≡ "paid")
      × (row.owner_email ≡ caller)
      × (caller ≢ "")
unfolding Payment.get
IsPaid-row id caller w h = elim (Option-cases (find? (λ i. i.id =t id) w.invoices)) [
  | inl e ↦ absurd (rw (e, Payment.get) at h)
  | inr (row, e) ↦
      let (paid, owner, named) : IsPaid caller (some (Payment.join w.payments row)) =
        rw (e, Payment.get) at h in
      let (_, same_status, same_owner) = join-same w.payments row in
      (row, e, sym same_status ∙ paid, sym same_owner ∙ owner, named)
]

module _ (host : Host) (rt : Runtime) (e : Encoder rt) where
  find?-web :
      (id : String) (ps : List Payment.Payment) (is : List Payment.Invoice) (row : Payment.Invoice)
      → find? (λ i. i.id =t id) is ≡ some row
      → find? (λ i. i.id =t id) (map (web_invoice host rt e) (map (Payment.join ps) is))
        ≡ some (web_invoice host rt e (Payment.join ps row))
  find?-web id ps [] row h = cc
  find?-web id ps (i ∷ is) row h =
      let same_id : (Payment.join ps i).id ≡ i.id = (join-same ps i).0 in
      elim (Bool-cases (i.id =t id)) [
        | inl t ↦
            let same : i ≡ row = some-injective i row (rw (t, find?) at h) in
            let test : ((Payment.join ps i).id =t id) ≡ true = ap (λ x. x =t id) same_id ∙ t in
            rw (test, find?) (ap (λ x. some (web_invoice host rt e (Payment.join ps x))) same)
        | inr t ↦
            let test : ((Payment.join ps i).id =t id) ≡ false = ap (λ x. x =t id) same_id ∙ t in
            rw (test, find?) (find?-web id ps is row (rw (t, find?) at h))
      ]

  -- The caller's paid invoice is the first with its id in the list that the caller's page has.
  listed-row :
      (id email : String) (w : Payment.World)
      → IsPaid email (Payment.get id w)
      → (row : Payment.Invoice) × (find? (λ i. i.id =t id) w.invoices ≡ some row)
        × ((Payment.join w.payments row).status ≡ "paid")
        × (find? (λ i. i.id =t id) (map (web_invoice host rt e) (Payment.list_for "member" email w))
            ≡ some (web_invoice host rt e (Payment.join w.payments row)))
  unfolding Payment.list_for Payment.list_invoices
  listed-row id email w h =
      let (row, found, paid, owner, named) = IsPaid-row id email w h in
      let filled : (email =t "") ≡ false = ground (arith, eq_iff email "") in
      let there =
        find?-select (λ i. i.id =t id) (λ i. i.owner_email =t email) w.invoices row found
          ((eq_iff row.owner_email email).1 owner) in
      (
        row,
        found,
        (join-same w.payments row).1 ∙ paid,
        rw filled (find?-web id w.payments _ row there),
      )

  web-transaction :
      (i : Payment.Invoice) (txn : String)
      → i.transaction_id ≡ txn
      → txn ≢ ""
      → (web_invoice host rt e i).transaction_id ≡ some txn
  web-transaction i txn same n = ground (arith, eq_iff i.transaction_id "")

  module _ (js : Js) (write : Json → String) (cfg : Config) (token : String) (c : Claims) where
    -- After a payment of a member with the scenario "success" that was answered 200 through the
    -- gateway with a transaction, the receipt page of the invoice, once it has the invoices that it
    -- asks for then, offers to print and shows that transaction. The identifier is one segment of a
    -- path, and the page reads what the service wrote.
    pub pay-receipt :
        (env : Payment.Env) (id : String) (w : Payment.World) (res : Payment.PayResult)
        (q : Query (List (Invoice host.Num)))
        → (token =t "") ≡ false
        → cfg.verify token ≡ some c
        → c.role ≡ "member"
        → words id ≡ id ∷ []
        → id ≢ ""
        → (pay_call env cfg token id "success" w).0 ≡ some (json 200 res)
        → res.transaction_id ≢ ""
        → (let w' = (pay_call env cfg token id "success" w).1 in
            Carries js write (invoices_body rt e (Payment.list_for c.role c.email w'))
            × (q.result ≡ page_invoices js write host rt e cfg token w'))
        → q.is_pending ≡ false
        → Offers print_receipt (view host true id q)
          × Shows res.transaction_id (view host true id q)
    pay-receipt env id w res q n v role one filled answered t (carried, same) arrived =
        let served = pay_call-pay env cfg token c id "success" w n v role filled one in
        let w' = (pay_call env cfg token id "success" w).1 in
        let went = sym (ap (λ x. x.1) served) in
        let ok =
          pay_response-json _ 200 res
            (some-injective _ _ (sym (ap (λ x. x.0) served) ∙ answered)) in
        let (row, found, paid, first) = listed-row id c.email w' (
          subst (λ x. IsPaid c.email (Payment.get id x)) went
            (pay-IsPaid env id c.email w res ok)) in
        let newest =
          subst (IsNewest id res.transaction_id) went (pay-IsNewest env id c.email w res ok t) in
        let i = Payment.join w'.payments row in
        let listed = map (web_invoice host rt e) (Payment.list_for "member" c.email w') in
        let result : q.result ≡ some listed =
          same
          ∙ page_invoices-list host js write rt e cfg token c w' n v carried
          ∙ ap (λ r. some (map (web_invoice host rt e) (Payment.list_for r c.email w'))) role in
        (
          (view-Offers_print host true id q).1 (
            refl,
            subst (Arrived (HasPaid host id)) (sym result)
                (web_invoice host rt e i, find?-IsFirst host id listed _ first, paid),
          ),
          view-Shows host id q listed (web_invoice host rt e i) res.transaction_id arrived result
              first paid
              (web-transaction i res.transaction_id
                (IsNewest-join id res.transaction_id w' row newest found) t),
        )
