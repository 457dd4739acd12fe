-- ===== src/Common/Text.antt =====
-- Equality of texts as a Boolean test, and dictionaries keyed by text as association lists.
use Prim.Native.String
use Prim.Native.String.{String}
use mathlib.Core.Path.{◌≡◌, refl}
use mathlib.Core.Bool.{Bool, true}
use mathlib.Core.Option.{Option, none, some}
use mathlib.Core.List.{List, [], ◌∷◌}
use native.Mathlib.Omega.{arith}
use text.Mathlib.Text.{◌==◌ as text_eq}
use text.Mathlib.TextEquality.{eq_iff}
use text.Mathlib.TextPositions.{eq_refl}
use swiftmind_parking_portal.Common.Tests.{if◌then◌else◌}

-- `===` on strings.
infix 50 ◌=t◌
abbrev pub ◌=t◌ : String → String → Bool
s =t t = text_eq s t

infixr 65 ◌+t◌
abbrev pub ◌+t◌ : String → String → String
s +t t = String.◌++◌ s t

-- `m[k]`: the value of the first entry with the key.
abbrev pub lookup {ℓ} : {V : Type ℓ} → String → List (String × V) → Option V
lookup k [] = none
lookup k ((j, v) ∷ m) = if j =t k then some v else lookup k m

-- `{ ...m, [k]: v }`: the key keeps its place, or comes last.
abbrev pub insert {ℓ} : {V : Type ℓ} → String → V → List (String × V) → List (String × V)
insert k v [] = (k, v) ∷ []
insert k v ((j, w) ∷ m) = if j =t k then (j, v) ∷ m else (j, w) ∷ insert k v m

pub lookup-insert {ℓ} :
    {V : Type ℓ} (k j : String) (v : V) (m : List (String × V))
    → lookup j (insert k v m) ≡ (if k =t j then some v else lookup j m)
lookup-insert k j v [] = refl
lookup-insert k j v ((i, w) ∷ m) =
    ground (arith, eq_iff k j, eq_iff i k, eq_iff i j, lookup-insert k j v m)

pub =t_refl : (s : String) → (s =t s) ≡ true
=t_refl s = eq_refl s
