-- ===== src/Web/Markup.antt =====
-- The JSX that a component returns, over the actions that its handlers name. Styling (`className`,
-- sizes, variants) is left out.
use swiftmind_parking_portal.Common.{
  Option, ◌≡◌, String, Bool, true, false, List, [], ◌∷◌, ◌⊎◌, ◌↔◌, Any, ⊎_iff_right, inl, inr,
}

infixr 60 ◌<>◌
pub data Markup (A : Type 0) : Type 0 where
  -- `null`, `false` or ""
  nothing : Markup A
  text : String → Markup A
  -- two children, one after the other
  ◌<>◌ : Markup A → Markup A → Markup A
  element : (tag : String) → Markup A → Markup A
  -- another component of the application
  component : (name : String) → Markup A
  -- something with an `onClick` or a form with an `onSubmit`
  button : (is_disabled : Bool) → A → Markup A → Markup A
  -- an input with its attributes and its `onChange`, applied to `e.target.value`
  input : (attributes : List (String × String)) (value : String) → (String → A) → Markup A
  -- an input of type "file": its `onChange` has the name and the content of the first file
  upload : (attributes : List (String × String)) → (Option (String × String) → A) → Markup A
  -- a `Select` with its items (value and label) and its `onValueChange`
  choice : (value : String) (items : List (String × String)) → (String → A) → Markup A

module _ {A : Type 0} where
  -- `condition && markup`
  abbrev pub when : Bool → Markup A → Markup A
  when true m = m
  when false m = nothing

  -- `items.map((x) => markup)`
  abbrev pub each : {B : Type 0} → (B → Markup A) → List B → Markup A
  each f [] = nothing
  each f (x ∷ xs) = f x <> each f xs

  -- The action stands behind a button that can be pressed.
  abbrev pub Offers : A → Markup A → Type 0
  Offers a nothing = ⊥
  Offers a (text s) = ⊥
  Offers a (m <> n) = Offers a m ⊎ Offers a n
  Offers a (element tag m) = Offers a m
  Offers a (component name) = ⊥
  Offers a (button false b m) = (b ≡ a) ⊎ Offers a m
  Offers a (button true b m) = Offers a m
  Offers a (input attributes value change) = ⊥
  Offers a (upload attributes change) = ⊥
  Offers a (choice value items change) = ⊥

  -- The text is shown.
  abbrev pub Shows : String → Markup A → Type 0
  Shows s nothing = ⊥
  Shows s (text t) = t ≡ s
  Shows s (m <> n) = Shows s m ⊎ Shows s n
  Shows s (element tag m) = Shows s m
  Shows s (component name) = ⊥
  Shows s (button is_disabled b m) = Shows s m
  Shows s (input attributes value change) = value ≡ s
  Shows s (upload attributes change) = ⊥
  Shows s (choice value items change) = ⊥

  pub Offers-each :
      {B : Type 0} (a : A) (f : B → Markup A) (xs : List B)
      → Offers a (each f xs) ↔ Any (λ x. Offers a (f x)) xs
  Offers-each a f [] = ((λ h. h), λ h. h)
  Offers-each a f (x ∷ xs) = ⊎_iff_right (Offers-each a f xs)

  pub not-Offers-each :
      {B : Type 0} (a : A) (f : B → Markup A) (xs : List B)
      → ((x : B) → ¬ Offers a (f x))
      → ¬ Offers a (each f xs)
  not-Offers-each a f [] h o = o
  not-Offers-each a f (x ∷ xs) h (inl o) = h x o
  not-Offers-each a f (x ∷ xs) h (inr o) = not-Offers-each a f xs h o
