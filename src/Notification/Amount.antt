-- ===== src/Notification/Amount.antt =====
-- internal/notification/service.go, `idr`: the amounts in the messages.
use Prim.Native.Char.{Char, code}
use swiftmind_parking_portal.Common.{
  ℕ, zero, suc, ◌+◌, ◌-◌, ◌≤◌, ◌≡◌, refl, sym, ap, ◌∙◌, Bool, false, Bool-cases, List, [], ◌∷◌,
  ◌++◌, All, length, take, ltb, ltb→lt, ◌<◌, arith, inl, inr, ◌==◌, select, not,
}
use swiftmind_parking_portal.Common.Int.{ℤ}
use swiftmind_parking_portal.Notification.{Library, drop, idr_parts, join, idr}

-- A reader: without the prefix "Rp " and the points.
abbrev pub is_point : Char → Bool
is_point c = code c == 46

abbrev pub without_points : List Char → List Char
without_points s = select (λ c. not (is_point c)) s

abbrev pub concat : List (List Char) → List Char
concat [] = []
concat (p ∷ ps) = p ++ concat ps

append_nil : (xs : List Char) → xs ++ [] ≡ xs
append_nil [] = refl
append_nil (x ∷ xs) = ap (λ s. x ∷ s) (append_nil xs)

append_assoc : (xs ys zs : List Char) → (xs ++ ys) ++ zs ≡ xs ++ (ys ++ zs)
append_assoc [] ys zs = refl
append_assoc (x ∷ xs) ys zs = ap (λ s. x ∷ s) (append_assoc xs ys zs)

take-drop : (n : ℕ) (xs : List Char) → take n xs ++ drop n xs ≡ xs
take-drop zero xs = refl
take-drop (suc n) [] = refl
take-drop (suc n) (x ∷ xs) = ap (λ s. x ∷ s) (take-drop n xs)

without_points-append :
    (xs ys : List Char) → without_points (xs ++ ys) ≡ without_points xs ++ without_points ys
without_points-append [] ys = refl
without_points-append (x ∷ xs) ys = elim (Bool-cases (not (is_point x))) [
  | inl e ↦ rw (e, select) (ap (λ s. x ∷ s) (without_points-append xs ys))
  | inr e ↦ rw (e, select) (without_points-append xs ys)
]

-- The parts are the text, whatever the fuel.
concat-idr_parts :
    (fuel : ℕ) (s : List Char) (parts : List (List Char))
    → concat (idr_parts fuel s parts) ≡ s ++ concat parts
unfolding idr_parts
concat-idr_parts zero s parts = refl
concat-idr_parts (suc fuel) s parts = elim (Bool-cases (ltb 3 (length s))) [
  | inl e ↦
      rw (e, idr_parts)
        (concat-idr_parts fuel (take (length s - 3) s) (drop (length s - 3) s ∷ parts)
          ∙ sym (append_assoc (take (length s - 3) s) (drop (length s - 3) s) (concat parts))
          ∙ ap (λ t. t ++ concat parts) (take-drop (length s - 3) s))
  | inr e ↦ rw (e, idr_parts) refl
]

without_points-join :
    (ps : List (List Char)) → without_points (join ps) ≡ without_points (concat ps)
without_points-join [] = refl
without_points-join (p ∷ []) = ap without_points (sym (append_nil p))
without_points-join (p ∷ (q ∷ ps)) =
    without_points-append p ("." ∷ join (q ∷ ps))
    ∙ ap (λ s. without_points p ++ s) (without_points-join (q ∷ ps))
    ∙ sym (without_points-append p (concat (q ∷ ps)))

without_points_same : (s : List Char) → All (λ c. is_point c ≡ false) s → without_points s ≡ s
without_points_same [] h = refl
without_points_same (c ∷ s) h = rw (h.0, select) (ap (λ t. c ∷ t) (without_points_same s h.1))

-- An amount as a message shows it reads back: without the prefix and the points it is the decimal
-- number, provided that this has no points itself.
pub read-idr :
    (lib : Library) (amount : ℤ)
    → All (λ c. is_point c ≡ false) (lib.format_int amount)
    → without_points (drop 3 (idr lib amount)) ≡ lib.format_int amount
unfolding idr
read-idr lib amount h =
    let s = lib.format_int amount in
    without_points-join (idr_parts (length s) s [])
    ∙ ap without_points (concat-idr_parts (length s) s [] ∙ append_nil s)
    ∙ without_points_same s h

abbrev pub IsGrouped : List (List Char) → Type 0
IsGrouped [] = ⊥
IsGrouped (p ∷ ps) = (0 < length p) × (length p ≤ 3) × All (λ q. length q ≡ 3) ps

length-take : (n : ℕ) (xs : List Char) → n ≤ length xs → length (take n xs) ≡ n
length-take zero xs h = refl
length-take (suc n) [] h = omega arith
length-take (suc n) (x ∷ xs) h = ap suc (length-take n xs (omega arith))

length-drop : (n : ℕ) (xs : List Char) → length (drop n xs) ≡ length xs - n
length-drop zero xs = omega arith
length-drop (suc n) [] = omega arith
length-drop (suc n) (x ∷ xs) = length-drop n xs ∙ omega arith

idr_parts-IsGrouped :
    (fuel : ℕ) (s : List Char) (parts : List (List Char))
    → 0 < length s
    → length s ≤ fuel + 3
    → All (λ q. length q ≡ 3) parts
    → IsGrouped (idr_parts fuel s parts)
unfolding idr_parts
idr_parts-IsGrouped zero s parts filled h k = (filled, h, k)
idr_parts-IsGrouped (suc fuel) s parts filled h k = elim (Bool-cases (ltb 3 (length s))) [
  | inl e ↦
      let long : 3 < length s = ltb→lt 3 (length s) e in
      let n = length s - 3 in
      let first : length (take n s) ≡ n = length-take n s (omega arith) in
      let last : length (drop n s) ≡ length s - n = length-drop n s in
      rw (e, idr_parts)
        (idr_parts-IsGrouped fuel (take n s) (drop n s ∷ parts) (omega arith) (omega arith)
          (omega arith, k))
  | inr e ↦ rw (e, idr_parts) (filled, ground arith, k)
]

-- An amount is shown as "Rp " and the decimal number, whose characters are cut by points into groups
-- of three from the right, the first group having at least one and at most three. The number is written
-- with at least one character.
pub idr-IsGrouped :
    (lib : Library) (amount : ℤ)
    → 0 < length (lib.format_int amount)
    → (parts : List (List Char)) × (idr lib amount ≡ "R" ∷ "p" ∷ " " ∷ join parts)
      × IsGrouped parts
      × (concat parts ≡ lib.format_int amount)
unfolding idr
idr-IsGrouped lib amount filled =
    let s = lib.format_int amount in
    (
      idr_parts (length s) s [],
      refl,
      idr_parts-IsGrouped (length s) s [] filled (omega arith) tt,
      concat-idr_parts (length s) s [] ∙ append_nil s,
    )
