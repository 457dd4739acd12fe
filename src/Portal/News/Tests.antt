-- ===== src/Portal/News/Tests.antt =====
-- A notification of a payment, all the way, at concrete inputs.
use swiftmind_parking_portal.Common.{
  ◌≡◌, refl, String, false, Option, none, some, List, arith, eq_iff, inl, map, ◌=t◌, if◌then◌else◌,
  Any, take, sym,
}
use mathlib.Core.Path.{subst}
use swiftmind_parking_portal.Domain.{valid_violation_type}
use swiftmind_parking_portal.Fine.{default_ruleset, calculate, time_for, repeat_for}
use swiftmind_parking_portal.Fine.Sample.{in_quarters}
use swiftmind_parking_portal.Gateway.{Claims, Config}
use swiftmind_parking_portal.Violation
use swiftmind_parking_portal.Payment
use swiftmind_parking_portal.Notification
use swiftmind_parking_portal.Notification.{Notification}
use swiftmind_parking_portal.System.{
  System, Reach, next, told_completed, settle_violation, open_invoice,
}
use swiftmind_parking_portal.System.Sample.{
  lib, texts, empty, empty-Linked, completed, done, done-Reach,
}
use swiftmind_parking_portal.Handlers.{json}
use swiftmind_parking_portal.Web.Sample.{sample_host}
use swiftmind_parking_portal.Web.Types
use swiftmind_parking_portal.Web.Http.{Js}
use swiftmind_parking_portal.Web.Markup.{Offers}
use swiftmind_parking_portal.Web.Effect.{Arrived}
use swiftmind_parking_portal.Web.Page.Home.{open_notification, bell}
use swiftmind_parking_portal.Web.Page.Home.Bell.{bell-Offers}
use swiftmind_parking_portal.Wire.{notifications_body, sent}
use swiftmind_parking_portal.Wire.Reading.{notifications_outcome}
use swiftmind_parking_portal.Wire.Sample.{encoder, write, reads, reads-Carries}
use swiftmind_parking_portal.Portal.{data_of}
use swiftmind_parking_portal.Portal.News.{IsNoIssuer, Opens, bell_data, bell-Opens}

abbrev member : Claims
member = record { user_id = "2"; email = "member@parkwatch.test"; name = "Mike"; role = "member" }

abbrev config : Config
config = record {
  cookie_name = "access_token";
  trim_prefix = λ p s. none;
  verify = λ t. if t =t "m" then some member else none;
}

abbrev told : System in_quarters
told = record done {
  notifications =
      (Notification.handle_payment_completed texts
        (record { owner_fails = false; issuer_fails = false }) completed done.notifications).1;
}

told-Reach : Reach in_quarters lib texts empty told
unfolding Payment.pay open_invoice Payment.create_invoice_from_event Payment.check Payment.get
    settle_violation
told-Reach = next done-Reach (
    told_completed (record { owner_fails = false; issuer_fails = false }) completed done (inl refl))

abbrev rows : List (String × Notification)
rows = map (λ n. ("n-1", n)) (Notification.list "member@parkwatch.test" told.notifications)

same-rows : map (λ r. r.1) rows ≡ Notification.list "member@parkwatch.test" told.notifications
unfolding Notification.list Notification.handle_payment_completed settle_violation open_invoice
same-rows = refl

no_issuer : IsNoIssuer in_quarters member told.violation.violations
unfolding settle_violation open_invoice Violation.mark_paid Violation.create valid_violation_type
    calculate default_ruleset time_for repeat_for
no_issuer = (inl (ground (arith, eq_iff "officer@parkwatch.test" "member@parkwatch.test")), tt)

abbrev js : Js
js = reads (notifications_body in_quarters encoder rows) ""

abbrev result : Option (List Types.Notification)
result =
    data_of (
      notifications_outcome js
        (sent write (notifications_body in_quarters encoder) (json 200 rows)))

bell-Offers_open : Offers (open_notification (some "v-1")) (bell sample_host result)
unfolding Notification.list Notification.handle_payment_completed settle_violation open_invoice
bell-Offers_open = (bell-Offers sample_host result (some "v-1")).1 (
    subst (Arrived (λ ns. Any (λ n. n.violation_id ≡ some "v-1") (take 15 ns)))
      (sym (
        bell_data in_quarters sample_host js write encoder lib texts config "m" member rows
          (reads-Carries (notifications_body in_quarters encoder rows) "")))
      (inl refl))

bell-Opens_example :
    Opens in_quarters sample_host js write encoder lib texts config "m" member "v-1" told.violation
bell-Opens_example =
    bell-Opens in_quarters sample_host js write encoder lib texts config "m" member "v-1" rows
      result empty-Linked told-Reach refl refl no_issuer same-rows
      (reads-Carries (notifications_body in_quarters encoder rows) "") refl bell-Offers_open
      (ground (arith, eq_iff "v-1" "")) refl
