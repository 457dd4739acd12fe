-- ===== src/Common/Lists.antt =====
-- Lists measured by native numbers, and predicates over lists by recursion.
use Prim.Native.Nat.{ℕ, zero, suc}
use mathlib.Core.Bool.{Bool, true, false}
use mathlib.Core.List.{List, [], ◌∷◌, ◌++◌, map}
use mathlib.Core.Logic.{◌⊎◌, inl, inr, ◌↔◌}
use mathlib.Core.Option.{Option, none, some}

module _ {ℓ} {A : Type ℓ} where
  abbrev pub length : List A → ℕ
  length [] = 0
  length (x ∷ xs) = suc (length xs)

  abbrev pub get_elem? : List A → ℕ → Option A
  get_elem? [] i = none
  get_elem? (x ∷ xs) zero = some x
  get_elem? (x ∷ xs) (suc i) = get_elem? xs i

  abbrev pub take : ℕ → List A → List A
  take zero xs = []
  take (suc n) [] = []
  take (suc n) (x ∷ xs) = x ∷ take n xs

  -- The first element that passes the test.
  abbrev pub find? : (A → Bool) → List A → Option A
  find? test [] = none
  find? test (x ∷ xs) = elim (test x) [ true ↦ some x | false ↦ find? test xs ]

  -- The elements that pass the test, in order.
  abbrev pub select : (A → Bool) → List A → List A
  select test [] = []
  select test (x ∷ xs) = elim (test x) [ true ↦ x ∷ select test xs | false ↦ select test xs ]

abbrev pub All {ℓ κ} : {A : Type ℓ} → (A → Type κ) → List A → Type κ
All P [] = Unit
All P (x ∷ xs) = P x × All P xs

abbrev pub Any {ℓ} : {A : Type ℓ} → (A → Type 0) → List A → Type 0
Any P [] = ⊥
Any P (x ∷ xs) = P x ⊎ Any P xs

pub All-append {ℓ κ} :
    {A : Type ℓ} (P : A → Type κ) (xs ys : List A) → All P xs → All P ys → All P (xs ++ ys)
All-append P [] ys h k = k
All-append P (x ∷ xs) ys h k = (h.0, All-append P xs ys h.1 k)

pub All-map {ℓ κ μ} :
    {A : Type ℓ} {B : Type μ} (P : B → Type κ) (f : A → B) (xs : List A)
    → All (λ a. P (f a)) xs
    → All P (map f xs)
All-map P f [] h = tt
All-map P f (x ∷ xs) h = (h.0, All-map P f xs h.1)

⊎_right : {A B C : Type 0} → (B → C) → A ⊎ B → A ⊎ C
⊎_right f (inl a) = inl a
⊎_right f (inr b) = inr (f b)

⊎_both : {A B C D : Type 0} → (A → C) → (B → D) → A ⊎ B → C ⊎ D
⊎_both f g (inl a) = inl (f a)
⊎_both f g (inr b) = inr (g b)

pub ⊎_iff : {A B C D : Type 0} → A ↔ C → B ↔ D → (A ⊎ B) ↔ (C ⊎ D)
⊎_iff e f = (⊎_both e.0 f.0, ⊎_both e.1 f.1)

pub ⊎_iff_right : {A B C : Type 0} → B ↔ C → (A ⊎ B) ↔ (A ⊎ C)
⊎_iff_right e = (⊎_right e.0, ⊎_right e.1)

pub Any-iff {ℓ} :
    {A : Type ℓ} {P Q : A → Type 0} (xs : List A) → ((x : A) → P x ↔ Q x) → Any P xs ↔ Any Q xs
Any-iff [] e = ((λ h. h), λ h. h)
Any-iff (x ∷ xs) e = ⊎_iff (e x) (Any-iff xs e)

pub All-imp {ℓ κ μ} :
    {A : Type ℓ} {P : A → Type κ} {Q : A → Type μ} (xs : List A)
    → ((x : A) → P x → Q x)
    → All P xs
    → All Q xs
All-imp [] f h = tt
All-imp (x ∷ xs) f h = (f x h.0, All-imp xs f h.1)

pub Any-imp {ℓ} :
    {A : Type ℓ} {P Q : A → Type 0} (xs : List A) → ((x : A) → P x → Q x) → Any P xs → Any Q xs
Any-imp [] f h = h
Any-imp (x ∷ xs) f (inl h) = inl (f x h)
Any-imp (x ∷ xs) f (inr h) = inr (Any-imp xs f h)

pub Any-map {ℓ μ} :
    {A : Type ℓ} {B : Type μ} (P : B → Type 0) (f : A → B) (xs : List A)
    → Any (λ a. P (f a)) xs
    → Any P (map f xs)
Any-map P f [] h = h
Any-map P f (x ∷ xs) (inl h) = inl h
Any-map P f (x ∷ xs) (inr h) = inr (Any-map P f xs h)

pub Any-All {ℓ} :
    {A : Type ℓ} (P Q : A → Type 0) (xs : List A) → Any P xs → All Q xs → Any (λ x. P x × Q x) xs
Any-All P Q [] h k = h
Any-All P Q (x ∷ xs) (inl h) k = inl (h, k.0)
Any-All P Q (x ∷ xs) (inr h) k = inr (Any-All P Q xs h k.1)

-- What one element gives.
pub Any-gives {ℓ μ} :
    {A : Type ℓ} {C : Type μ} (P : A → Type 0) (xs : List A) → ((x : A) → P x → C) → Any P xs → C
Any-gives P [] f h = absurd h
Any-gives P (x ∷ xs) f (inl h) = f x h
Any-gives P (x ∷ xs) f (inr h) = Any-gives P xs f h

-- Each element of a list is in it, as the images are in the list of images.
pub All-Any-map :
    {A B : Type 0} (R : A → B → Type 0) (f : A → B) (xs : List A)
    → ((x : A) → R x (f x))
    → All (λ x. Any (R x) (map f xs)) xs
All-Any-map R f [] h = tt
All-Any-map R f (x ∷ xs) h = (inl (h x), All-imp xs (λ y k. inr k) (All-Any-map R f xs h))

pub All-Any_refl :
    {A : Type 0} (R : A → A → Type 0) (xs : List A) → ((x : A) → R x x) → All (λ x. Any (R x) xs) xs
All-Any_refl R [] h = tt
All-Any_refl R (x ∷ xs) h = (inl (h x), All-imp xs (λ y k. inr k) (All-Any_refl R xs h))

-- What holds of an image, and of what is selected, holds of an element.
pub Any-of_map {ℓ μ} :
    {A : Type ℓ} {B : Type μ} (P : B → Type 0) (f : A → B) (xs : List A)
    → Any P (map f xs)
    → Any (λ a. P (f a)) xs
Any-of_map P f [] h = h
Any-of_map P f (x ∷ xs) (inl h) = inl h
Any-of_map P f (x ∷ xs) (inr h) = inr (Any-of_map P f xs h)

pub All-of_map {ℓ κ μ} :
    {A : Type ℓ} {B : Type μ} (P : B → Type κ) (f : A → B) (xs : List A)
    → All P (map f xs)
    → All (λ a. P (f a)) xs
All-of_map P f [] h = tt
All-of_map P f (x ∷ xs) (h, k) = (h, All-of_map P f xs k)

pub All-take {ℓ κ} :
    {A : Type ℓ} (P : A → Type κ) (n : ℕ) (xs : List A) → All P xs → All P (take n xs)
All-take P zero xs h = tt
All-take P (suc n) [] h = tt
All-take P (suc n) (x ∷ xs) (h, k) = (h, All-take P n xs k)

pub Any-of_take {ℓ} :
    {A : Type ℓ} (P : A → Type 0) (n : ℕ) (xs : List A) → Any P (take n xs) → Any P xs
Any-of_take P zero xs h = absurd h
Any-of_take P (suc n) [] h = h
Any-of_take P (suc n) (x ∷ xs) (inl h) = inl h
Any-of_take P (suc n) (x ∷ xs) (inr h) = inr (Any-of_take P n xs h)
