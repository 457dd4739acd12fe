-- ===== src/Violation/Pricing.antt =====
-- internal/violation/{store,service}.go: when a request to issue a violation succeeds, and what a
-- payment does to the price of the next one.
use swiftmind_parking_portal.Common.{
  ℕ, ◌≤◌, String, ◌≡◌, refl, inl, inr, Bool, true, false, Bool-cases, ◌||◌, Option, none, some,
  List, [], ◌∷◌, map, arith, eq_iff, ltb, ◌+t◌, ◌=t◌, if◌then◌else◌,
}
use swiftmind_parking_portal.Common.Int.{pos, ◌≤ℤ◌}
use swiftmind_parking_portal.Domain.{valid_violation_type}
use swiftmind_parking_portal.Fine.{Ruleset, Breakdown, calculate, validate}
use swiftmind_parking_portal.Fine.Platform.{Runtime, RuntimeLaws}
use swiftmind_parking_portal.Fine.Pricing.{IsRising, IsInRange, calculate_total, calculate_mono}
use swiftmind_parking_portal.Violation.{
  Photo, Library, CreateInput, ActiveRuleset, Violation, World, Env, ok, err, invalid_input,
  attach_photo_url, store_photo, persist, owner_of_plate, row_of, mark_paid, repeat_window,
  is_prior_unpaid, count_if, count_prior_unpaid, fine_input, issue, price, is_valid_input, create,
}

pos_le : (m n : ℕ) → m ≤ n → pos m ≤ℤ pos n
pos_le m n h = omega arith

module _ (rt : Runtime) where
  -- No call of the request fails.
  pub record Works (env : Env rt) : Type 0 where
    pub counts : env.count_fails ≡ false
    pub puts : env.put_fails ≡ false
    pub finds_owner : env.owner_fails ≡ false
    pub inserts : env.insert_fails ≡ false

  module _ (lib : Library rt) where
    persist_total :
        (env : Env rt) (i : CreateInput rt) (active : ActiveRuleset rt) (b : Breakdown rt.Float)
        (key : String) (w : World rt)
        → Works env
        → (v : Violation rt) × ((persist rt env i active b key w).0 ≡ ok v)
    unfolding persist
    persist_total env i active b key w works =
        let none_fails : (env.owner_fails || env.insert_fails) ≡ false =
          rw (works.finds_owner, works.inserts) refl in
        (
          attach_photo_url rt (row_of rt env i active b key (owner_of_plate rt i.plate w)),
          rw (none_fails, persist) refl,
        )

    issue_total :
        (env : Env rt) (i : CreateInput rt) (photo : Option Photo) (active : ActiveRuleset rt)
        (b : Breakdown rt.Float) (w : World rt)
        → Works env
        → (v : Violation rt) × ((issue rt lib env i photo active b w).0 ≡ ok v)
    unfolding issue store_photo
    issue_total env i none active b w works = persist_total env i active b "" w works
    issue_total env i (some p) active b w works = elim (Bool-cases (ltb 0 p.size)) [
      | inl e ↦
          let key = "violations/" +t (env.photo_uuid +t lib.ext p.filename) in
          let object = record p { content_type = lib.stored_type p.content_type } in
          let w' : World rt = record w { photos = (key, object) ∷ w.photos } in
          let (v, h) = persist_total env i active b key w' works in
          (v, rw (e, works.puts, store_photo, issue) h)
      | inr e ↦
          let (v, h) = persist_total env i active b "" w works in (v, rw (e, store_photo, issue) h)
    ]

    is_valid_input-type :
        (i : CreateInput rt)
        → is_valid_input rt lib i ≡ true
        → valid_violation_type i.violation_type ≡ true
    is_valid_input-type i h = ground arith

    module _ (laws : RuntimeLaws rt) where
      price_total :
          (env : Env rt) (i : CreateInput rt) (photo : Option Photo) (active : ActiveRuleset rt)
          (w : World rt)
          → Works env
          → validate rt active.rules ≡ none
          → valid_violation_type i.violation_type ≡ true
          → (v : Violation rt) × ((price rt lib env i photo (some active) w).0 ≡ ok v)
      unfolding price
      price_total env i photo active w works r t =
          let (b, priced, _, _, _) =
            calculate_total rt laws active.rules (fine_input rt lib i w) r t in
          let (v, h) = issue_total env i photo active b w works in
          (v, rw (works.counts, price, priced) h)

      gate :
          (env : Env rt) (i : CreateInput rt) (photo : Option Photo) (active : ActiveRuleset rt)
          (w : World rt) (v : Violation rt) (valid : Bool) (o : Option (ActiveRuleset rt))
          → valid ≡ true
          → o ≡ some active
          → (price rt lib env i photo (some active) w).0 ≡ ok v
          → (if valid then price rt lib env i photo o w else (err invalid_input, w)).0 ≡ ok v
      gate env i photo active w v valid o h k p = rw (h, k) p

      -- With a complete input of a known type, an active ruleset that passes validation, and no call
      -- that fails, a violation is issued.
      pub create_total :
          (env : Env rt) (i : CreateInput rt) (photo : Option Photo) (active : ActiveRuleset rt)
          (w : World rt)
          → Works env
          → env.active ≡ some active
          → validate rt active.rules ≡ none
          → is_valid_input rt lib i ≡ true
          → (v : Violation rt) × ((create rt lib env i photo w).0 ≡ ok v)
      unfolding create
      create_total env i photo active w works a r valid =
          let (v, h) = price_total env i photo active w works r (is_valid_input-type i valid) in
          (v, gate env i photo active w v (is_valid_input rt lib i) env.active valid a h)

    count_if-map :
        (test : Violation rt → Bool) (f : Violation rt → Violation rt) (vs : List (Violation rt))
        → ((v : Violation rt) → test (f v) ≡ true → test v ≡ true)
        → count_if rt lib test (map f vs) ≤ count_if rt lib test vs
    count_if-map test f [] h = omega arith
    count_if-map test f (v ∷ vs) h =
        let rest = count_if-map test f vs h in
        elim (Bool-cases (test (f v))) [
          | inl e ↦ rw (e, h v e) (omega arith)
          | inr e ↦ rw e (ground (arith, rest))
        ]

    -- A violation that is marked paid is not counted.
    marked-unpaid :
        (here : Bool) (plate : String) (since until : rt.Time) (v : Violation rt)
        → let test = is_prior_unpaid rt lib plate since until in
          test (if here then record v { payment_status = "paid" } else v) ≡ true → test v ≡ true
    marked-unpaid true plate since until v h = ground (arith, eq_iff "paid" "unpaid")
    marked-unpaid false plate since until v h = h

    count_prior_unpaid-mark_paid :
        (id plate : String) (since until : rt.Time) (w : World rt)
        → count_prior_unpaid rt lib plate since until (mark_paid rt id w)
          ≤ count_prior_unpaid rt lib plate since until w
    unfolding count_prior_unpaid mark_paid
    count_prior_unpaid-mark_paid id plate since until w =
        count_if-map (is_prior_unpaid rt lib plate since until) _ w.violations
          (λ v h. marked-unpaid (v.id =t id) plate since until v h)

    -- Whoever pays a fine, of whatever plate, is priced no higher for the next one: on a ruleset that
    -- passes validation and whose multipliers do not fall along the tiers, starting from 1.0, the
    -- same input of a valid violation type is priced no higher after a violation is marked paid,
    -- provided that the product of the price before is at most 2 ^ 62.
    pub mark_paid_mono :
        (laws : RuntimeLaws rt) (r : Ruleset rt.Float) (id : String) (i : CreateInput rt)
        (w : World rt)
        → validate rt r ≡ none
        → valid_violation_type i.violation_type ≡ true
        → IsRising rt laws (rt.tenths 10) r.tiers
        → ((b : Breakdown rt.Float)
            → calculate rt r (fine_input rt lib i w) ≡ some b
            → IsInRange rt laws b)
        → (b b' : Breakdown rt.Float) × (calculate rt r (fine_input rt lib i (mark_paid rt id w))
            ≡ some b)
          × (calculate rt r (fine_input rt lib i w) ≡ some b')
          × (b.final_amount ≤ℤ b'.final_amount)
    mark_paid_mono laws r id i w h v rising bounded =
        calculate_mono rt laws r (fine_input rt lib i (mark_paid rt id w))
          (fine_input rt lib i w).prior_unpaid_count h v rising
          (pos_le _ _ (
            count_prior_unpaid-mark_paid id i.plate (lib.sub_hours repeat_window i.occurred_at)
              i.occurred_at w))
          bounded
