-- ===== src/Web/Client/Sending.antt =====
-- web/src/lib/{rules,invoices,violations,notifications}.ts with web/src/lib/api.ts: what is sent.
use swiftmind_parking_portal.Common.{
  String, ◌≡◌, ◌≢◌, ◌⊎◌, refl, inl, inr, some, List, [], ◌∷◌, arith,
}
use swiftmind_parking_portal.Web.Http.{build_init}
use swiftmind_parking_portal.Web.Client.{
  CreateViolationInput, Call, get_active_rules, get_rule_versions, list_invoices,
  list_notifications, list_violations, me, logout, publish_rules, pay_invoice, get_violation,
  create_violation, login, violation_form, options,
}

abbrev pub json_headers : List (String × String)
json_headers = ("Content-Type", "application/json") ∷ []

-- Every call of the client is sent with the cookies, and with a Content-Type of JSON unless it creates
-- a violation, which goes as a form with no Content-Type of ours.
pub options-Sent :
    (call : Call)
    → ((build_init (options call)).credentials ≡ some "include")
      × (((build_init (options call)).headers ≡ some json_headers)
            × ((i : CreateViolationInput) → call ≢ create_violation i)
          ⊎ ((i : CreateViolationInput) × (call ≡ create_violation i)
              × ((build_init (options call)).headers ≡ some [])
              × ((build_init (options call)).body ≡ some (violation_form i))))
unfolding options build_init
options-Sent get_active_rules = (refl, inl (refl, λ i. ground arith))
options-Sent get_rule_versions = (refl, inl (refl, λ i. ground arith))
options-Sent list_invoices = (refl, inl (refl, λ i. ground arith))
options-Sent list_notifications = (refl, inl (refl, λ i. ground arith))
options-Sent list_violations = (refl, inl (refl, λ i. ground arith))
options-Sent me = (refl, inl (refl, λ i. ground arith))
options-Sent logout = (refl, inl (refl, λ i. ground arith))
options-Sent (publish_rules body) = (refl, inl (refl, λ i. ground arith))
options-Sent (pay_invoice id scenario) = (refl, inl (refl, λ i. ground arith))
options-Sent (get_violation id) = (refl, inl (refl, λ i. ground arith))
options-Sent (login email password) = (refl, inl (refl, λ i. ground arith))
options-Sent (create_violation i) = (refl, inr (i, refl, refl, refl))
