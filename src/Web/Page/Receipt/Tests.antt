-- ===== src/Web/Page/Receipt/Tests.antt =====
-- The receipt page at concrete inputs.
use swiftmind_parking_portal.Common.{refl, inl, inr, true, false, some, List, [], ◌∷◌}
use swiftmind_parking_portal.Web.Sample.{sample_host}
use swiftmind_parking_portal.Web.Types.{Invoice}
use swiftmind_parking_portal.Web.Markup.{Offers}
use swiftmind_parking_portal.Web.Effect.{Query}
use swiftmind_parking_portal.Web.Page.Receipt.{print_receipt, view}

abbrev paid_invoice : Invoice sample_host.Num
paid_invoice = record {
  id = "inv-1";
  violation_id = "v-1";
  plate = "B1234ABC";
  violation_type = "expired_meter";
  owner_email = "member@parkwatch.test";
  amount = 50000;
  status = "paid";
  transaction_id = some "txn_1";
  created_at = "2025-01-01T08:00:00Z";
}

abbrev arrived : Query (List (Invoice sample_host.Num))
arrived = record { is_pending = false; is_error = false; result = some (paid_invoice ∷ []) }

view-arrived : Offers print_receipt (view sample_host true "inv-1" arrived)
unfolding view
view-arrived = inr (inl (inl refl))
