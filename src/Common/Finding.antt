-- ===== src/Common/Finding.antt =====
-- What is found in a list, and what is selected of it.
use mathlib.Core.Bool.{Bool, true}
use mathlib.Core.Path.{◌≡◌, refl, sym, subst}
use mathlib.Core.List.{List, [], ◌∷◌, map}
use mathlib.Core.Logic.{inl, inr}
use mathlib.Core.Option
use mathlib.Core.Option.{Option, none, some, some-injective}
use swiftmind_parking_portal.Common.Tests.{Bool-cases}
use swiftmind_parking_portal.Common.Lists.{find?, select, All, Any}

-- What `find?` finds passes the test, and has what holds of every element.
pub find?-All {ℓ} :
    {A : Type ℓ} (P : A → Type 0) (test : A → Bool) (xs : List A) (x : A)
    → find? test xs ≡ some x
    → All P xs
    → (test x ≡ true) × P x
find?-All P test [] x h k = cc
find?-All P test (y ∷ xs) x h k = elim (Bool-cases (test y)) [
  | inl e ↦
      let same : y ≡ x = some-injective y x (rw (e, find?) at h) in (rw same at e, subst P same k.0)
  | inr e ↦ find?-All P test xs x (rw (e, find?) at h) k.1
]

pub find?-test {ℓ} :
    {A : Type ℓ} (test : A → Bool) (xs : List A) (x : A) → find? test xs ≡ some x → test x ≡ true
find?-test test [] x h = cc
find?-test test (y ∷ xs) x h = elim (Bool-cases (test y)) [
  | inl e ↦ rw (some-injective y x (rw (e, find?) at h)) at e
  | inr e ↦ find?-test test xs x (rw (e, find?) at h)
]

-- What `find?` finds stands in the list.
pub Any-find? {ℓ} :
    {A : Type ℓ} (P : A → Type 0) (test : A → Bool) (xs : List A) (x : A)
    → find? test xs ≡ some x
    → P x
    → Any P xs
Any-find? P test [] x h p = cc
Any-find? P test (y ∷ xs) x h p = elim (Bool-cases (test y)) [
  | inl e ↦ inl (subst P (sym (some-injective y x (rw (e, find?) at h))) p)
  | inr e ↦ inr (Any-find? P test xs x (rw (e, find?) at h) p)
]

-- What is selected has what holds of every element, and passes the test.
pub All-select {ℓ κ} :
    {A : Type ℓ} (P : A → Type κ) (test : A → Bool) (xs : List A)
    → All P xs
    → All (λ x. P x × (test x ≡ true)) (select test xs)
All-select P test [] h = tt
All-select P test (x ∷ xs) h = elim (Bool-cases (test x)) [
  | inl e ↦ rw (e, select) ((h.0, e), All-select P test xs h.1)
  | inr e ↦ rw (e, select) (All-select P test xs h.1)
]

pub Any-select {ℓ} :
    {A : Type ℓ} (P : A → Type 0) (test : A → Bool) (xs : List A)
    → Any (λ x. P x × (test x ≡ true)) xs
    → Any P (select test xs)
Any-select P test [] h = h
Any-select P test (x ∷ xs) (inl (h, e)) = rw (e, select) (inl h)
Any-select P test (x ∷ xs) (inr h) = elim (Bool-cases (test x)) [
  | inl e ↦ rw (e, select) (inr (Any-select P test xs h))
  | inr e ↦ rw (e, select) (Any-select P test xs h)
]

-- A change of the elements that the test does not see.
pub find?-map {ℓ} :
    {A : Type ℓ} (test : A → Bool) (f : A → A) (xs : List A)
    → ((x : A) → test (f x) ≡ test x)
    → find? test (map f xs) ≡ Option.map f (find? test xs)
find?-map test f [] h = refl
find?-map test f (x ∷ xs) h = elim (Bool-cases (test x)) [
  | inl e ↦ rw (h x, e, find?) refl
  | inr e ↦ rw (h x, e, find?) (find?-map test f xs h)
]

-- What is found has what holds of every element.
pub find?-holds {ℓ} :
    {A : Type ℓ} (P : A → Type 0) (test : A → Bool) (xs : List A) (x : A)
    → find? test xs ≡ some x
    → All P xs
    → P x
find?-holds P test xs x h k = (find?-All P test xs x h k).1

pub Any-of_select {ℓ} :
    {A : Type ℓ} (P : A → Type 0) (test : A → Bool) (xs : List A)
    → Any P (select test xs)
    → Any (λ x. P x × (test x ≡ true)) xs
Any-of_select P test [] h = h
Any-of_select P test (x ∷ xs) h = elim (Bool-cases (test x)) [
  | inl e ↦ elim (rw (e, select) at h) [
    | inl p ↦ inl (p, e)
    | inr q ↦ inr (Any-of_select P test xs q)
  ]
  | inr e ↦ inr (Any-of_select P test xs (rw (e, select) at h))
]

-- What is found and selected is the first of what is selected.
pub find?-select {ℓ} :
    {A : Type ℓ} (test keep : A → Bool) (xs : List A) (x : A)
    → find? test xs ≡ some x
    → keep x ≡ true
    → find? test (select keep xs) ≡ some x
find?-select test keep [] x h k = cc
find?-select test keep (y ∷ xs) x h k = elim (Bool-cases (test y)) [
  | inl e ↦
      let same : y ≡ x = some-injective y x (rw (e, find?) at h) in
      let kept : keep y ≡ true = rw (← same) at k in
      rw (kept, select) (rw (e, find?) (rw same refl))
  | inr e ↦ elim (Bool-cases (keep y)) [
    | inl f ↦ rw (f, select) (rw (e, find?) (find?-select test keep xs x (rw (e, find?) at h) k))
    | inr f ↦ rw (f, select) (find?-select test keep xs x (rw (e, find?) at h) k)
  ]
]
