-- ===== src/Web/Page/Detail/Snapshot.antt =====
-- web/src/app/violations/[id]/page.tsx: the page shows the fine that was issued.
use swiftmind_parking_portal.Common.{String, refl, true, false, some, inl, inr, ◌+t◌}
use swiftmind_parking_portal.Web.Host.{Host}
use swiftmind_parking_portal.Web.Types.{User, Violation}
use swiftmind_parking_portal.Web.Format.{format_idr}
use swiftmind_parking_portal.Web.Markup.{Shows}
use swiftmind_parking_portal.Web.Page.Detail.{calculation, view}

module _ (host : Host) where
  open host use {Num, show_num}

  -- The place of the calculation in the page.
  page-Shows :
      (u : User) (v : Violation Num) (t : String)
      → Shows t (calculation host v)
      → Shows t (view host true (some u) false false (some v))
  unfolding view
  page-Shows u v t h = inr (inr (inr (inr (inr (inr (inr (inl h)))))))

  -- Once the violation has arrived, the page shows each part of its snapshot: the rule version, the
  -- base amount, both multipliers, the number of prior unpaid violations and the final fine.
  pub view-Shows_snapshot :
      (u : User) (v : Violation Num)
      → let page = view host true (some u) false false (some v) in
        Shows ("Applied rule version: v" +t show_num v.rule_version) page
        × Shows (format_idr host v.base_amount) page
        × Shows ("× " +t show_num v.time_multiplier) page
        × Shows ("× " +t show_num v.repeat_multiplier) page
        × Shows ("Repeat multiplier (" +t (show_num v.prior_unpaid_count +t " prior unpaid)")) page
        × Shows (format_idr host v.final_amount) page
  unfolding calculation
  view-Shows_snapshot u v = (
    page-Shows u v _ (inr (inr (inr (inr (inr (inr (inr refl))))))),
    page-Shows u v _ (inr (inr (inl (inr refl)))),
    page-Shows u v _ (inr (inr (inr (inl (inr refl))))),
    page-Shows u v _ (inr (inr (inr (inr (inl (inr refl)))))),
    page-Shows u v _ (inr (inr (inr (inr (inl (inl refl)))))),
    page-Shows u v _ (inr (inr (inr (inr (inr (inr (inl refl))))))),
  )
