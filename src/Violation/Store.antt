-- ===== src/Violation/Store.antt =====
-- internal/violation/store.go: the plates and the violations as tables, where the queries work.
use swiftmind_parking_portal.Common.{
  ℕ, ◌+◌, String, Bool, not, ◌&&◌, Option, none, some, List, [], ◌∷◌, map, find?, select, lookup,
  ◌=t◌, if◌then◌else◌,
}
use swiftmind_parking_portal.Fine.Platform.{Runtime}
use swiftmind_parking_portal.Violation.Data.{Library, Violation, World}

module _ (rt : Runtime) where
  open rt use {Time}

  -- `Store.SeedPlate`.
  unfoldable pub seed_plate : (plate owner : String) → World rt → World rt
  seed_plate plate owner w = elim (lookup plate w.plates) [
    | none ↦ record w { plates = (plate, owner) ∷ w.plates }
    | some _ ↦ w
  ]

  -- `Store.OwnerOfPlate`, where the query works.
  unfoldable pub owner_of_plate : String → World rt → String
  owner_of_plate plate w = elim (lookup plate w.plates) [ none ↦ "" | some owner ↦ owner ]

  -- `Store.MarkPaid`.
  unfoldable pub mark_paid : String → World rt → World rt
  mark_paid id w = record w {
    violations =
        map (λ v. if v.id =t id then record v { payment_status = "paid" } else v) w.violations;
  }

  -- `Store.Get`, where the query works.
  unfoldable pub stored : String → World rt → Option (Violation rt)
  stored id w = find? (λ v. v.id =t id) w.violations

  -- `Store.List`, where the query works.
  unfoldable pub list_violations : String → World rt → List (Violation rt)
  list_violations owner w =
      if owner =t "" then w.violations else select (λ v. v.owner_email =t owner) w.violations

  module _ (lib : Library rt) where
    -- An unpaid violation of the plate, in the time from `since` up to `until`.
    abbrev pub is_prior_unpaid : (plate : String) (since until : Time) → Violation rt → Bool
    is_prior_unpaid plate since until v =
        v.plate =t plate
        && v.payment_status =t "unpaid"
        && not (lib.before v.occurred_at since)
        && lib.before v.occurred_at until

    abbrev pub count_if : (Violation rt → Bool) → List (Violation rt) → ℕ
    count_if test [] = 0
    count_if test (v ∷ vs) = if test v then count_if test vs + 1 else count_if test vs

    -- `Store.CountPriorUnpaid`, where the query works.
    unfoldable pub count_prior_unpaid : (plate : String) (since until : Time) → World rt → ℕ
    count_prior_unpaid plate since until w =
        count_if (is_prior_unpaid plate since until) w.violations
