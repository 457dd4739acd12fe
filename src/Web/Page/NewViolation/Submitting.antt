-- ===== src/Web/Page/NewViolation/Submitting.antt =====
-- web/src/app/violations/new/page.tsx: what the form submits.
use mathlib.Core.List.{Memᴰ}
use swiftmind_parking_portal.Common.{
  String, ◌≡◌, refl, true, List, [], ◌∷◌, ◌⊎◌, inl, inr, All, arith,
}
use swiftmind_parking_portal.Domain.{valid_violation_type}
use swiftmind_parking_portal.Web.Host.{Host}
use swiftmind_parking_portal.Web.Types.{violation_types}
use swiftmind_parking_portal.Web.Page.NewViolation.{
  Form, Action, view_all, submit, set_plate, set_type, set_location, set_occurred_at, set_photo,
  initial_form, submitted, handle,
}

-- A select gives one of its values, or nothing.
abbrev pub IsOffered : Action → Type 0
IsOffered (set_type v) = (v ≡ "") ⊎ Memᴰ v violation_types
IsOffered _ = Unit

-- Each type that the form lists is one that the backend accepts.
offered-valid : (v : String) → Memᴰ v violation_types → valid_violation_type v ≡ true
unfolding violation_types valid_violation_type
offered-valid v (Memᴰ.head e) = rw e
offered-valid v (Memᴰ.tail (Memᴰ.head e)) = rw e
offered-valid v (Memᴰ.tail (Memᴰ.tail (Memᴰ.head e))) = rw e
offered-valid v (Memᴰ.tail (Memᴰ.tail (Memᴰ.tail (Memᴰ.head e)))) = rw e
offered-valid v (Memᴰ.tail (Memᴰ.tail (Memᴰ.tail (Memᴰ.tail m)))) = elim m [ ]

module _ (host : Host) where
  -- The form after a sequence of actions.
  abbrev pub after : List Action → Form → Form
  after [] f = f
  after (a ∷ as_) f = after as_ (handle host a f).0

  after-valid :
      (actions : List Action) (f : Form)
      → All IsOffered actions
      → valid_violation_type f.violation_type ≡ true
      → valid_violation_type (after actions f).violation_type ≡ true
  unfolding handle
  after-valid [] f h v = v
  after-valid (view_all ∷ as_) f h v = after-valid as_ f h.1 v
  after-valid (submit ∷ as_) f h v = after-valid as_ f h.1 v
  after-valid (set_plate p ∷ as_) f h v = after-valid as_ _ h.1 v
  after-valid (set_type t ∷ as_) f (inl e, hs) v = after-valid as_ _ hs (rw e v)
  after-valid (set_type t ∷ as_) f (inr m, hs) v =
      after-valid as_ _ hs (ground (arith, offered-valid t m))
  after-valid (set_location l ∷ as_) f h v = after-valid as_ _ h.1 v
  after-valid (set_occurred_at t ∷ as_) f h v = after-valid as_ _ h.1 v
  after-valid (set_photo p ∷ as_) f h v = after-valid as_ _ h.1 v

  -- Whatever is typed and chosen on the page, the violation type that it submits is one that the
  -- backend accepts.
  pub submitted-valid :
      (actions : List Action)
      → All IsOffered actions
      → valid_violation_type (submitted host (after actions (initial_form host))).violation_type
        ≡ true
  unfolding submitted initial_form valid_violation_type
  submitted-valid actions h = after-valid actions (initial_form host) h refl
