-- ===== src/Portal/Paying.antt =====
-- web/src/app/pay/page.tsx, the gateway and the payment service: what a member can pay.
use mathlib.Core.Path.{subst}
use swiftmind_parking_portal.Common.{
  String, Bool, ◌≡◌, ◌≢◌, refl, sym, ap, ◌∙◌, true, false, some, map, find?, List, [], ◌∷◌, ◌=t◌,
  All, All-imp, All-map, All-select, Any, Any-All, Any-gives, Any-of_map, IsKeyedBy, eq_iff,
  Bool-cases, inl, inr, arith,
}
use swiftmind_parking_portal.Fine.Platform.{Runtime}
use swiftmind_parking_portal.Gateway.{Claims, Config, forward, identify}
use swiftmind_parking_portal.Payment
use swiftmind_parking_portal.Payment.Counts.{join-same}
use swiftmind_parking_portal.Payment.Accepted.{Works, status_of, pay-accepted}
use swiftmind_parking_portal.Handlers.{Response, json, pay_response}
use swiftmind_parking_portal.Handlers
use swiftmind_parking_portal.Web.Host.{Host}
use swiftmind_parking_portal.Web.Types.{Invoice}
use swiftmind_parking_portal.Web.Markup.{Offers}
use swiftmind_parking_portal.Web.Effect.{Arrived, Query, Mutation}
use swiftmind_parking_portal.Web.Http.{Json, Js}
use swiftmind_parking_portal.Web.Client.{pay_invoice, path, options}
use swiftmind_parking_portal.Web.Client.Routing.{arrives, dispatch-arrives, pay_path}
use swiftmind_parking_portal.Gateway.Segments.{words}
use swiftmind_parking_portal.Web.Page.Pay.{
  PayVars, choose, pay, Scenarios, scenario_of, handle, view,
}
use swiftmind_parking_portal.Web.Page.Pay.Buttons.{IsPayable, view-Offers-pay, scenario_of-choose}
use swiftmind_parking_portal.Wire.{Encoder, invoices_body}
use swiftmind_parking_portal.Wire.Reading.{web_invoice}
use swiftmind_parking_portal.Wire.Transport.{Carries}
use swiftmind_parking_portal.Portal.{page_invoices, pay_call, pay_answer}
use swiftmind_parking_portal.Portal.Invoices.{page_invoices-list}

-- A call to pay is served by `Pay`, on behalf of the owner of the token.
pub pay_call-pay :
    (env : Payment.Env) (cfg : Config) (token : String) (c : Claims) (id scenario : String)
    (w : Payment.World)
    → (token =t "") ≡ false
    → cfg.verify token ≡ some c
    → c.role ≡ "member"
    → id ≢ ""
    → words id ≡ id ∷ []
    → pay_call env cfg token id scenario w ≡ (
      some (pay_response (Payment.pay env id scenario c.email w).0),
      (Payment.pay env id scenario c.email w).1,
    )
unfolding pay_call pay_answer forward identify arrives path options Handlers.pay
pay_call-pay env cfg token c id scenario w n v m filled one =
    ap (λ o. pay_answer env scenario o w)
      (dispatch-arrives cfg token c (pay_invoice id scenario) n v (m, filled, one))
    ∙ rw (pay_path id one) refl

-- The scenarios after these choices, the latest first.
abbrev pub picked : List (String × String) → Scenarios
picked [] = []
picked ((id, value) ∷ ps) = (handle (choose id value) (picked ps)).0

empty-IsValid : ¬ (Payment.valid_scenario "" ≡ true)
empty-IsValid h = cc

picked-IsValid :
    (ps : List (String × String)) (id : String)
    → All (λ p. Payment.valid_scenario p.1 ≡ true) ps
    → Payment.valid_scenario (scenario_of (picked ps) id) ≡ true
picked-IsValid [] id h = refl
picked-IsValid ((j, value) ∷ ps) id (v, h) =
    let filled : value ≢ "" = λ e. empty-IsValid (rw e at v) in
    rw (scenario_of-choose j value id (picked ps) filled)
      (elim (Bool-cases (j =t id)) [ inl e ↦ rw e v | inr e ↦ rw e (picked-IsValid ps id h) ])

-- An invoice of a member's page is a row of the table, which its identifier finds, with the member as
-- its owner.
IsOwnRow : (email : String) → Payment.World → Payment.Invoice → Type 0
IsOwnRow email w i = (Payment.get i.id w ≡ some i) × (i.owner_email ≡ email)

get-join :
    (w : Payment.World) (i : Payment.Invoice)
    → find? (λ j. j.id =t i.id) w.invoices ≡ some i
    → Payment.get (Payment.join w.payments i).id w ≡ some (Payment.join w.payments i)
unfolding Payment.get
get-join w i h =
    subst (λ id. Payment.get id w ≡ some (Payment.join w.payments i))
      (sym (join-same w.payments i).0) (rw (h, Payment.get) refl)

listed-IsOwnRow :
    (email : String) (w : Payment.World)
    → email ≢ ""
    → IsKeyedBy (λ i. i.id) w.invoices
    → All (IsOwnRow email w) (Payment.list_for "member" email w)
unfolding Payment.list_for Payment.list_invoices IsOwnRow
listed-IsOwnRow email w n k =
    let filled : (email =t "") ≡ false = ground (arith, eq_iff email "") in
    rw filled (
      All-map (IsOwnRow email w) (Payment.join w.payments) _ (
        All-imp _
          (λ i h.
            (get-join w i h.0, (join-same w.payments i).2 ∙ (eq_iff i.owner_email email).0 h.1))
          (All-select (λ i. find? (λ j. j.id =t i.id) w.invoices ≡ some i)
            (λ i. i.owner_email =t email) w.invoices k)))

-- The call is answered with 200 and with the status of its scenario.
abbrev pub IsAccepted : Payment.Env → Config → (token : String) → PayVars → Payment.World → Type 0
IsAccepted env cfg token vars w =
    (r : Payment.PayResult) × ((pay_call env cfg token vars.id vars.scenario w).0
      ≡ some (json 200 r))
    × (r.status ≡ status_of vars.scenario)

module _ (host : Host) (js : Js) (write : Json → String) (rt : Runtime) (e : Encoder rt)
    (cfg : Config) (token : String) (c : Claims) (w : Payment.World) where
  accepted :
      (env : Payment.Env) (picks : List (String × String)) (m : Mutation PayVars) (vars : PayVars)
      → (token =t "") ≡ false
      → cfg.verify token ≡ some c
      → c.role ≡ "member"
      → c.email ≢ ""
      → All (λ p. Payment.valid_scenario p.1 ≡ true) picks
      → words vars.id ≡ vars.id ∷ []
      → vars.id ≢ ""
      → Works env vars.id w
      → (i : Payment.Invoice) → IsOwnRow c.email w i
      → IsPayable host (picked picks) m vars (web_invoice host rt e i)
      → IsAccepted env cfg token vars w
  unfolding IsOwnRow pay_response
  accepted env picks m vars n v role named valid one filled works i (found, owner)
        (unpaid, _, same, chosen) =
      let found' : Payment.get vars.id w ≡ some i =
        subst (λ x. Payment.get x w ≡ some i) same found in
      let valid' : Payment.valid_scenario vars.scenario ≡ true =
        subst (λ x. Payment.valid_scenario x ≡ true) chosen (picked-IsValid picks i.id valid) in
      let (r, a, b) =
        pay-accepted env vars.id vars.scenario c.email w i found' same owner named unpaid valid'
          works in
      (
        r,
        ap (λ x. x.0) (pay_call-pay env cfg token c vars.id vars.scenario w n v role filled one)
            ∙ ap (λ x. some (pay_response x)) a,
        b,
      )

  -- Every payment that the page of a signed-in member with an email offers, whatever scenarios were
  -- chosen on it, is accepted: if the query of the page has just brought the invoices of the
  -- member, identifiers are unique, and neither the database nor the lock of the invoice stands in
  -- the way, the call that the button makes is answered 200 through the gateway, with the status
  -- that the chosen scenario stands for. The identifier is one segment of a path, and the page
  -- reads what the service wrote.
  pub offered-IsAccepted :
      (env : Payment.Env) (ready : Bool) (picks : List (String × String)) (m : Mutation PayVars)
      (q : Query (List (Invoice host.Num))) (vars : PayVars)
      → (token =t "") ≡ false
      → cfg.verify token ≡ some c
      → c.role ≡ "member"
      → c.email ≢ ""
      → IsKeyedBy (λ i. i.id) w.invoices
      → Carries js write (invoices_body rt e (Payment.list_for c.role c.email w))
      → q.result ≡ page_invoices js write host rt e cfg token w
      → All (λ p. Payment.valid_scenario p.1 ≡ true) picks
      → Offers (pay vars) (view host ready (picked picks) m q)
      → words vars.id ≡ vars.id ∷ []
      → vars.id ≢ ""
      → Works env vars.id w
      → IsAccepted env cfg token vars w
  offered-IsAccepted env ready picks m q vars n v role named keyed carried same valid offers one
        filled works =
      let offered = ((view-Offers-pay host ready (picked picks) m q vars).0 offers).1.1 in
      let listed = Payment.list_for c.role c.email w in
      let payable : Any (IsPayable host (picked picks) m vars)
          (map (web_invoice host rt e) listed) =
        subst (Arrived (Any (IsPayable host (picked picks) m vars)))
          (same ∙ page_invoices-list host js write rt e cfg token c w n v carried) offered in
      let own : All (IsOwnRow c.email w) listed =
        subst (λ r. All (IsOwnRow c.email w) (Payment.list_for r c.email w)) (sym role)
          (listed-IsOwnRow c.email w named keyed) in
      Any-gives _ listed
        (λ i h. accepted env picks m vars n v role named valid one filled works i h.1 h.0)
        (Any-All (λ i. IsPayable host (picked picks) m vars (web_invoice host rt e i))
          (IsOwnRow c.email w) listed
          (Any-of_map (IsPayable host (picked picks) m vars) (web_invoice host rt e) listed payable)
          own)
