-- ===== src/Web/Page/Home/Bell.antt =====
-- web/src/components/notification-bell.tsx: the notifications that the menu opens.
use swiftmind_parking_portal.Common.{
  ◌≡◌, ◌↔◌, Option, none, some, List, [], ◌∷◌, Any, Any-iff, take, arith,
}
use swiftmind_parking_portal.Common.{String}
use swiftmind_parking_portal.Web.Host.{Host}
use swiftmind_parking_portal.Web.Types.{Notification}
use swiftmind_parking_portal.Web.Markup.{Offers, each, Offers-each}
use swiftmind_parking_portal.Web.Effect.{Arrived}
use swiftmind_parking_portal.Web.Page.Home.{open_notification, notification_row, bell}

module _ (host : Host) where
  row-Offers :
      (v : Option String) (n : Notification)
      → Offers (open_notification v) (notification_row host n) ↔ (n.violation_id ≡ v)
  row-Offers v n = ground arith

  rows-Offers :
      (v : Option String) (ns : List Notification)
      → Offers (open_notification v) (each (notification_row host) ns)
        ↔ Any (λ n. n.violation_id ≡ v) ns
  rows-Offers v ns =
      let e = Offers-each (open_notification v) (notification_row host) ns in
      let f = Any-iff ns (row-Offers v) in ((λ h. f.0 (e.0 h)), λ h. e.1 (f.1 h))

  -- The menu leads to a violation exactly when one of the first fifteen notifications names it.
  pub bell-Offers :
      (result : Option (List Notification)) (v : Option String)
      → Offers (open_notification v) (bell host result)
        ↔ Arrived (λ ns. Any (λ n. n.violation_id ≡ v) (take 15 ns)) result
  unfolding bell
  bell-Offers none v = ground arith
  bell-Offers (some []) v = ground arith
  bell-Offers (some (n ∷ ns)) v = ground (arith, rows-Offers v (take 15 (n ∷ ns)))
