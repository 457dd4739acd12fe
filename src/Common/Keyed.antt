-- ===== src/Common/Keyed.antt =====
-- Tables: lists whose rows are found by a key.
use mathlib.Core.Path.{◌≡◌, refl, sym, ap, ◌∙◌}
use mathlib.Core.Logic.{inl, inr}
use mathlib.Core.List.{List, ◌∷◌, map}
use mathlib.Core.Option
use mathlib.Core.Option.{Option, none, some}
use text.Mathlib.TextEquality.{eq_iff}
use Prim.Native.String.{String}
use swiftmind_parking_portal.Common.Tests.{Bool-cases}
use swiftmind_parking_portal.Common.Lists.{find?, All, All-map, All-imp}
use swiftmind_parking_portal.Common.Finding.{find?-map}
use swiftmind_parking_portal.Common.Text.{◌=t◌, =t_refl}

module _ {A : Type 0} (key : A → String) where
  -- The row with a key.
  abbrev pub by_key : String → List A → Option A
  by_key k xs = find? (λ x. key x =t k) xs

  -- Every row is the one that its key finds.
  abbrev pub IsKeyedBy : List A → Type 0
  IsKeyedBy xs = All (λ x. by_key (key x) xs ≡ some x) xs

  none-some : (y : A) → ◌≡◌ {A = Option A} none (some y) → ⊥
  none-some y h = cc

  by_key-other :
      (x y : A) (xs : List A)
      → by_key (key x) xs ≡ none
      → by_key (key y) xs ≡ some y
      → by_key (key y) (x ∷ xs) ≡ some y
  by_key-other x y xs n h = elim (Bool-cases (key x =t key y)) [
    | inl e ↦ absurd (none-some y (sym (rw ((eq_iff (key x) (key y)).0 e) at n) ∙ h))
    | inr e ↦ rw (e, find?) h
  ]

  -- A row with a key that no row has.
  pub IsKeyedBy-insert :
      (x : A) (xs : List A) → by_key (key x) xs ≡ none → IsKeyedBy xs → IsKeyedBy (x ∷ xs)
  IsKeyedBy-insert x xs n k =
      (rw (=t_refl (key x), find?) refl, All-imp xs (λ y h. by_key-other x y xs n h) k)

  -- A change of the rows that keeps their keys.
  pub IsKeyedBy-map :
      (f : A → A) (xs : List A)
      → ((x : A) → key (f x) ≡ key x)
      → IsKeyedBy xs
      → IsKeyedBy (map f xs)
  IsKeyedBy-map f xs same k = All-map _ f xs (
      All-imp xs
        (λ x h.
          ap (λ i. by_key i (map f xs)) (same x)
          ∙ find?-map (λ y. key y =t key x) f xs (λ y. ap (λ i. i =t key x) (same y))
          ∙ ap (Option.map f) h)
        k)
