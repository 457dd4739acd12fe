-- ===== src/Web/Page/Rules/Draft.antt =====
-- web/src/app/rules/page.tsx: what editing does to the draft, and when it can be published.
use swiftmind_parking_portal.Common.{
  ℕ, zero, suc, String, ◌≡◌, ◌≢◌, ◌↔◌, refl, Bool, true, false, Option, none, some, List, [], ◌∷◌,
  arith, length, get_elem?, ◌==◌, lookup, lookup-insert, if◌then◌else◌, ◌=t◌,
}
use mathlib.Core.Option
use swiftmind_parking_portal.Web.Host.{Host}
use swiftmind_parking_portal.Web.Types.{Tier, Ruleset, RuleVersion, violation_types, or_else}
use swiftmind_parking_portal.Web.Markup.{Offers, not-Offers-each}
use swiftmind_parking_portal.Web.Page.Rules.{
  TierField, Action, to_dashboard, publish, reset, set_base, set_time, set_tier, map_at, Draft,
  with_tier, set_base_amount, set_time_field, set_tier_field, load_draft, handle, form, base_field,
  tier_fields, version_row, view,
}

length-map_at {ℓ} :
    {A : Type ℓ} (i : ℕ) (f : A → A) (xs : List A) → length (map_at i f xs) ≡ length xs
length-map_at i f [] = refl
length-map_at zero f (x ∷ xs) = refl
length-map_at (suc i) f (x ∷ xs) = omega (arith, length-map_at i f xs)

get_elem?-map_at {ℓ} :
    {A : Type ℓ} (i j : ℕ) (f : A → A) (xs : List A)
    → get_elem? (map_at i f xs) j
      ≡ (if i == j then Option.map f (get_elem? xs j) else get_elem? xs j)
get_elem?-map_at i j f [] = ground arith
get_elem?-map_at zero zero f (x ∷ xs) = refl
get_elem?-map_at zero (suc j) f (x ∷ xs) = ground arith
get_elem?-map_at (suc i) zero f (x ∷ xs) = ground arith
get_elem?-map_at (suc i) (suc j) f (x ∷ xs) = ground (arith, get_elem?-map_at i j f xs)

module _ (host : Host) where
  open host use {Num, number_of}

  -- The draft after a sequence of actions.
  abbrev pub after : RuleVersion Num → List Action → Ruleset Num → Draft host
  after v [] d = some d
  after v (a ∷ as_) d = elim (handle host (some v) a (some d)).0 [
    | none ↦ none
    | some d' ↦ after v as_ d'
  ]

  abbrev pub HasTiers : ℕ → Draft host → Type 0
  HasTiers n none = ⊥
  HasTiers n (some d) = length d.tiers ≡ n

  -- Whatever is typed and however often the draft is reset, it stays there and keeps as many tiers as
  -- the active ruleset has.
  pub after-HasTiers :
      (v : RuleVersion Num) (actions : List Action) (d : Ruleset Num)
      → length d.tiers ≡ length v.rules.tiers
      → HasTiers (length v.rules.tiers) (after v actions d)
  unfolding handle set_base_amount set_time_field set_tier_field load_draft
  after-HasTiers v [] d h = h
  after-HasTiers v (to_dashboard ∷ as_) d h = after-HasTiers v as_ d h
  after-HasTiers v (publish ∷ as_) d h = after-HasTiers v as_ d h
  after-HasTiers v (reset ∷ as_) d h = after-HasTiers v as_ v.rules refl
  after-HasTiers v (set_base type value ∷ as_) d h = after-HasTiers v as_ _ h
  after-HasTiers v (set_time field value ∷ as_) d h = after-HasTiers v as_ _ h
  after-HasTiers v (set_tier index field value ∷ as_) d h =
      after-HasTiers v as_ _
        (omega (arith, length-map_at index (with_tier host field (number_of value)) d.tiers))

  -- Typing into a tier's field changes that field of that tier alone: no other tier, no base amount
  -- and no time rule.
  pub handle-set_tier :
      (active : Option (RuleVersion Num)) (index : ℕ) (field : TierField) (value : String)
      (d : Ruleset Num)
      → (d' : Ruleset Num) × (handle host active (set_tier index field value) (some d)
          ≡ (some d', []))
        × ((j : ℕ)
            → get_elem? d'.tiers j ≡ (
                if index == j
                then Option.map (with_tier host field (number_of value)) (get_elem? d.tiers j)
                else get_elem? d.tiers j))
        × (d'.base_amounts ≡ d.base_amounts)
        × (d'.time_multiplier ≡ d.time_multiplier)
  unfolding handle set_tier_field
  handle-set_tier active index field value d = (
    record d { tiers = map_at index (with_tier host field (number_of value)) d.tiers },
    refl,
    λ j. get_elem?-map_at index j _ d.tiers,
    refl,
    refl,
  )

  -- Typing a base amount sets that of its type alone: those of the other types, the time rule and the
  -- tiers stay.
  pub handle-set_base :
      (active : Option (RuleVersion Num)) (type value : String) (d : Ruleset Num)
      → (d' : Ruleset Num) × (handle host active (set_base type value) (some d) ≡ (some d', []))
        × ((other : String)
            → lookup other d'.base_amounts
              ≡ (if type =t other then some (number_of value) else lookup other d.base_amounts))
        × (d'.time_multiplier ≡ d.time_multiplier)
        × (d'.tiers ≡ d.tiers)
  unfolding handle set_base_amount
  handle-set_base active type value d =
      (_, refl, λ other. lookup-insert type other (number_of value) d.base_amounts, refl, refl)

  not-Offers-tier_fields : (i : ℕ) (ts : List (Tier Num)) → ¬ Offers publish (tier_fields host i ts)
  not-Offers-tier_fields i [] o = o
  not-Offers-tier_fields i (t ∷ ts) o = ground (arith, not-Offers-tier_fields (suc i) ts)

  not-Offers-base_field :
      (d : Ruleset Num) (type : String) → ¬ Offers publish (base_field host d type)
  not-Offers-base_field d type = ground arith

  not-Offers-version_row : (v : RuleVersion Num) → ¬ Offers publish (version_row host v)
  unfolding violation_types
  not-Offers-version_row v = ground arith

  form-Offers-publish :
      (publishing : Bool) (draft : Draft host)
      → Offers publish (form host publishing draft) ↔ ((publishing ≡ false) × (draft ≢ none))
  unfolding form
  form-Offers-publish publishing none = ground arith
  form-Offers-publish publishing (some d) = ground (
    arith,
    not-Offers-tier_fields 0 d.tiers,
    not-Offers-each publish (base_field host d) violation_types (not-Offers-base_field d),
  )

  -- The page offers to publish exactly when it may be shown, a draft is loaded and no publication is
  -- under way.
  pub view-Offers-publish :
      (ready : Bool) (active : Option (RuleVersion Num))
      (versions : Option (List (RuleVersion Num))) (publishing : Bool) (draft : Draft host)
      → Offers publish (view host ready active versions publishing draft)
        ↔ ((ready ≡ true) × (publishing ≡ false) × (draft ≢ none))
  unfolding view
  view-Offers-publish false active versions publishing draft = ground arith
  view-Offers-publish true active versions publishing draft = ground (
    arith,
    form-Offers-publish publishing draft,
    not-Offers-each publish (version_row host) (or_else versions []) not-Offers-version_row,
  )
