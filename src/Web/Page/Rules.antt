-- ===== src/Web/Page/Rules.antt =====
-- web/src/app/rules/page.tsx: the draft of a ruleset, its publication, and the version history.
pub mod Draft
mod Tests
use swiftmind_parking_portal.Common.{
  ℕ, suc, zero, String, Bool, true, false, Option, none, some, List, [], ◌∷◌, lookup, insert,
  length, ◌=t◌, ◌+t◌, if◌then◌else◌,
}
use swiftmind_parking_portal.Web.Host.{Host}
use swiftmind_parking_portal.Web.Types.{
  TimeRule, Tier, Ruleset, RuleVersion, violation_types, violation_type_labels, label_for_type,
  or_else,
}
use swiftmind_parking_portal.Web.Format.{format_idr, format_date_time}
use swiftmind_parking_portal.Web.Markup.{
  Markup, nothing, text, ◌<>◌, element, component, button, input, when, each,
}
use swiftmind_parking_portal.Web.Effect.{
  Effect, push, toast_success, toast_error, invalidate, mutate, Query,
}
use swiftmind_parking_portal.Web.Http.{Outcome, ok, api_error, other_error}

-- `keyof Ruleset["time_multiplier"]`
pub data TimeField : Type 0 where
  day_start_hour night_start_hour day_multiplier night_multiplier : TimeField

pub data TierField : Type 0 where
  min_prior_unpaid multiplier : TierField

-- What the page's handlers do; the values are the texts of the inputs.
pub data Action : Type 0 where
  to_dashboard publish reset : Action
  set_base : (type value : String) → Action
  set_time : TimeField → (value : String) → Action
  set_tier : ℕ → TierField → (value : String) → Action

-- `tiers.map((t, i) => i === index ? f(t) : t)`
abbrev pub map_at {ℓ} : {A : Type ℓ} → ℕ → (A → A) → List A → List A
map_at i f [] = []
map_at zero f (x ∷ xs) = f x ∷ xs
map_at (suc i) f (x ∷ xs) = x ∷ map_at i f xs

module _ (host : Host) where
  open host use {Num, number_of, show_num, of_ℕ}

  -- The state `draft`.
  abbrev pub Draft : Type 0
  Draft = Option (Ruleset Num)

  -- `setBase`.
  unfoldable pub set_base_amount : String → Num → Draft → Draft
  set_base_amount type value none = none
  set_base_amount type value (some d) =
      some (record d { base_amounts = insert type value d.base_amounts })

  abbrev with_time : TimeField → Num → TimeRule Num → TimeRule Num
  with_time day_start_hour v t = record t { day_start_hour = v }
  with_time night_start_hour v t = record t { night_start_hour = v }
  with_time day_multiplier v t = record t { day_multiplier = v }
  with_time night_multiplier v t = record t { night_multiplier = v }

  -- `setTime`.
  unfoldable pub set_time_field : TimeField → Num → Draft → Draft
  set_time_field field value none = none
  set_time_field field value (some d) =
      some (record d { time_multiplier = with_time field value d.time_multiplier })

  abbrev with_tier : TierField → Num → Tier Num → Tier Num
  with_tier min_prior_unpaid v t = record t { min_prior_unpaid = v }
  with_tier multiplier v t = record t { multiplier = v }

  -- `setTier`.
  unfoldable pub set_tier_field : ℕ → TierField → Num → Draft → Draft
  set_tier_field index field value none = none
  set_tier_field index field value (some d) =
      some (record d { tiers = map_at index (with_tier field value) d.tiers })

  -- The effect that copies the active ruleset into the draft when it arrives.
  unfoldable pub load_draft : Option (RuleVersion Num) → Draft → Draft
  load_draft none draft = draft
  load_draft (some v) draft = some v.rules

  -- The handlers, over the active version; `publish` stands behind the form, which is there only
  -- with a draft.
  unfoldable pub handle :
      Option (RuleVersion Num) → Action → Draft → Draft × List (Effect (Ruleset Num))
  handle active to_dashboard draft = (draft, push "/" ∷ [])
  handle active publish none = (none, [])
  handle active publish (some d) = (some d, mutate d ∷ [])
  handle active reset draft = (load_draft active draft, [])
  handle active (set_base type value) draft = (set_base_amount type (number_of value) draft, [])
  handle active (set_time field value) draft = (set_time_field field (number_of value) draft, [])
  handle active (set_tier index field value) draft =
      (set_tier_field index field (number_of value) draft, [])

  -- `onSuccess` and `onError` of the mutation `publish`.
  unfoldable pub published : Outcome (RuleVersion Num) → List (Effect (Ruleset Num))
  published (ok v) =
      toast_success ("Published version " +t show_num v.version) ∷ invalidate ("rules" ∷ []) ∷ []
  published (api_error status message) = toast_error message ∷ []
  published (other_error message) = toast_error message ∷ []

  abbrev number_input : List (String × String) → Num → (String → Action) → Markup Action
  number_input attributes value change =
      input (("type", "number") ∷ attributes) (show_num value) change

  -- `Field`.
  abbrev labelled : String → Markup Action → Markup Action
  labelled label m = element "div" (element "Label" (text label) <> m)

  abbrev base_field : Ruleset Num → String → Markup Action
  base_field d type = labelled (label_for_type type) (
      number_input (("min", "0") ∷ []) (or_else (lookup type d.base_amounts) (of_ℕ 0))
        (set_base type))

  abbrev hours : List (String × String)
  hours = ("min", "0") ∷ ("max", "23") ∷ []

  abbrev factor : List (String × String)
  factor = ("step", "0.1") ∷ ("min", "0") ∷ []

  abbrev time_fields : TimeRule Num → Markup Action
  time_fields t =
      labelled "Day start hour" (number_input hours t.day_start_hour (set_time day_start_hour))
      <> labelled "Night start hour"
          (number_input hours t.night_start_hour (set_time night_start_hour))
      <> labelled "Day multiplier" (number_input factor t.day_multiplier (set_time day_multiplier))
      <> labelled "Night multiplier"
          (number_input factor t.night_multiplier (set_time night_multiplier))

  abbrev tier_fields : ℕ → List (Tier Num) → Markup Action
  tier_fields i [] = nothing
  tier_fields i (t ∷ ts) =
      element "div" (
        labelled "Prior unpaid ≥"
          (number_input (("min", "0") ∷ []) t.min_prior_unpaid (set_tier i min_prior_unpaid))
        <> labelled "Multiplier" (number_input factor t.multiplier (set_tier i multiplier)))
      <> tier_fields (suc i) ts

  -- A card with its title and description.
  abbrev titled : String → String → Markup Action → Markup Action
  titled title description m =
      element "Card"
        (element "CardTitle" (text title) <> element "CardDescription" (text description) <> m)

  -- The tab "Edit & publish".
  unfoldable pub form : (publishing : Bool) → Draft → Markup Action
  form publishing none = text "Loading…"
  form publishing (some d) =
      titled "Base amounts (IDR)" "Per violation type." (each (base_field d) violation_types)
      <> titled "Time multiplier"
          "Day window is [day start, night start); outside it uses the night multiplier."
          (time_fields d.time_multiplier)
      <> titled "Repeat multiplier"
          "Based on prior unpaid violations on the same plate in the last 90 days."
          (tier_fields 0 d.tiers)
      <> button publishing publish
          (text (if publishing then "Publishing…" else "Publish new version"))
      <> button false reset (text "Reset")

  abbrev version_row : RuleVersion Num → Markup Action
  version_row v = element "TableRow" (
      element "TableCell" (text ("v" +t show_num v.version))
      <> element "TableCell"
          (element "Badge" (text (if v.is_active then "Active" else "Superseded")))
      <> element "TableCell" (
          each
            (λ t. element "div" (
              text (label_for_type t)
              <> text ": "
              <> text (format_idr host (or_else (lookup t v.rules.base_amounts) (of_ℕ 0)))))
            violation_types)
      <> element "TableCell" (text v.created_by)
      <> element "TableCell" (text (format_date_time host v.created_at)))

  abbrev history_columns : List String
  history_columns = "Version" ∷ "Status" ∷ "Base amounts" ∷ "Published by" ∷ "When" ∷ []

  -- The tab "Version history".
  unfoldable pub history : List (RuleVersion Num) → Markup Action
  history versions = element "Table" (
      element "TableHeader" (each (λ c. element "TableHead" (text c)) history_columns)
      <> element "TableBody" (each version_row versions))

  abbrev heading : Option (RuleVersion Num) → String
  heading none = "Loading active ruleset…"
  heading (some v) =
      "Active version "
      +t (show_num v.version +t ". Publishing a new version never changes fines already issued.")

  abbrev version_count : Option (List (RuleVersion Num)) → String
  version_count none = ""
  version_count (some vs) = " (" +t (show_num (of_ℕ (length vs)) +t ")")

  -- `RulesPage`, on the results of its two queries, the state of its mutation and the draft.
  unfoldable pub view :
      (ready : Bool)
      → Option (RuleVersion Num)
      → Option (List (RuleVersion Num))
      → (publishing : Bool) → Draft
      → Markup Action
  unfolding form history
  view false active versions publishing draft = component "PageLoader"
  view true active versions publishing draft =
      component "AppHeader"
      <> element "main" (
          element "h1" (text "Fine rules")
          <> element "p" (text (heading active))
          <> button false to_dashboard (text "← Dashboard")
          <> element "TabsTrigger" (text "Edit & publish")
          <> element "TabsTrigger" (text ("Version history" +t version_count versions))
          <> element "TabsContent" (form publishing draft)
          <> element "TabsContent" (history (or_else versions [])))
