-- ===== src/System/Tests.antt =====
-- The services together at concrete inputs: a fine is issued, invoiced, paid and settled.
use text.Mathlib.TextLemmas.{length-append}
use Prim.Native.String.{count}
use swiftmind_parking_portal.Common.{
  ◌+◌, ◌<◌, ◌≡◌, refl, ap, inl, inr, String, none, some, List, [], ◌∷◌, arith, eq_iff, All, All-imp,
  Any, ◌=t◌, ◌+t◌, find?, Option-cases, find?-All,
}
use swiftmind_parking_portal.Common.Int.{pos}
use swiftmind_parking_portal.Domain.{valid_violation_type}
use swiftmind_parking_portal.Fine.{default_ruleset, calculate, time_for, repeat_for}
use swiftmind_parking_portal.Fine.Sample.{in_quarters}
use swiftmind_parking_portal.Violation
use swiftmind_parking_portal.Violation.{stored}
use swiftmind_parking_portal.Payment.{Invoice}
use swiftmind_parking_portal.System.{System, paid, open_invoice, settle_violation}
use swiftmind_parking_portal.System.Links.{Linked}
use swiftmind_parking_portal.System.Invariant.{Reach-Linked, Settles, paid-Settles}
use swiftmind_parking_portal.System.Register.{register, Change}
use swiftmind_parking_portal.System.Refinement.{actor, Step-Change}
use swiftmind_parking_portal.System.Delivery.{Deliveries, IsInvoiced, IsMarked, settles_eventually}
use swiftmind_parking_portal.System.Sample.{
  lib, texts, empty-Linked, billed, pays, charged, done, billed-Reach, charged-Reach, done-Reach,
}

billed-Linked : Linked in_quarters billed
billed-Linked = Reach-Linked in_quarters lib texts empty-Linked billed-Reach

Reach-Linked_example : Linked in_quarters done
Reach-Linked_example = Reach-Linked in_quarters lib texts empty-Linked done-Reach

abbrev first : Violation.Violation in_quarters
first = record {
  id = "v-1";
  plate = "B1234ABC";
  violation_type = "expired_meter";
  location = "Jl. Thamrin";
  occurred_at = 3009;
  photo_object = "";
  photo_url = "";
  owner_email = "member@parkwatch.test";
  issued_by_email = "officer@parkwatch.test";
  rule_version_id = "rules-1";
  rule_version = 1;
  base_amount = pos 50000;
  time_multiplier = 4;
  repeat_multiplier = 4;
  prior_unpaid_count = pos 0;
  final_amount = pos 50000;
  payment_status = "paid";
}

stored-done : stored in_quarters "v-1" done.violation ≡ some first
unfolding stored settle_violation open_invoice Violation.mark_paid Violation.create
    valid_violation_type calculate default_ruleset time_for repeat_for
stored-done = refl

paid-Settles_example : Any (Settles in_quarters lib texts first) done.payment.invoices
paid-Settles_example =
    paid-Settles in_quarters lib texts "v-1" first empty-Linked done-Reach stored-done
      (ground (arith, eq_iff "paid" "unpaid"))

Step-Change_example :
    Change
      (actor in_quarters lib texts (paid pays "inv-1" "success" "member@parkwatch.test" billed))
      (register in_quarters billed)
      (register in_quarters charged)
Step-Change_example =
    Step-Change in_quarters lib texts (paid pays "inv-1" "success" "member@parkwatch.test" billed)
      billed-Linked

-- A name longer than every identifier of the table.
abbrev fresh : List Invoice → String
fresh [] = "x"
fresh (i ∷ invs) = i.id +t fresh invs

count-fresh :
    (invs : List Invoice)
    → (0 < count (fresh invs)) × All (λ i. count i.id < count (fresh invs)) invs
count-fresh [] = (omega arith, tt)
count-fresh (i ∷ invs) =
    let (h, k) = count-fresh invs in
    let e : count (i.id +t fresh invs) ≡ count i.id + count (fresh invs) =
      length-append i.id (fresh invs) in
    (omega arith, (omega arith, All-imp invs (λ j p. omega arith) k))

not_same : (s t : String) → s ≡ t → count s < count t → ⊥
not_same s t h k = let e : count s ≡ count t = ap count h in omega arith

fresh_lem : (invs : List Invoice) → find? (λ i. i.id =t fresh invs) invs ≡ none
fresh_lem invs = elim (Option-cases (find? (λ i. i.id =t fresh invs) invs)) [
  | inl e ↦ e
  | inr (i, e) ↦
      let (same, shorter) =
        find?-All (λ j. count j.id < count (fresh invs)) _ invs i e (count-fresh invs).1 in
      absurd (not_same i.id (fresh invs) ((eq_iff i.id (fresh invs)).0 same) shorter)
]

settles_eventually_example :
    (t : System in_quarters) × Deliveries in_quarters charged t
    × (t.violation.events ≡ charged.violation.events)
    × (t.payment.events ≡ charged.payment.events)
    × All (IsInvoiced t.payment.invoices) t.violation.events
    × All (IsMarked in_quarters t.violation) t.payment.events
settles_eventually_example =
    settles_eventually in_quarters lib texts fresh fresh_lem charged
      (Reach-Linked in_quarters lib texts empty-Linked charged-Reach)
