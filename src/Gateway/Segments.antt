-- ===== src/Gateway/Segments.antt =====
-- The segments of a path that is written as a text.
use Prim.Native.Char.{Char, code}
use text.Mathlib.TextLemmas.{nil-append, cons-append}
use swiftmind_parking_portal.Common.{
  String, ◌≡◌, refl, ap, ◌∙◌, Bool, Bool-cases, inl, inr, List, [], ◌∷◌, ◌++◌, ◌==◌, ◌+t◌,
  if◌then◌else◌,
}

abbrev is_slash : Char → Bool
is_slash c = code c == 47

-- A character before the first of the segments.
abbrev before : Char → List String → List String
before c [] = String.◌∷◌ c String.[] ∷ []
before c (w ∷ ws) = String.◌∷◌ c w ∷ ws

-- What stands between the slashes.
abbrev pub words : String → List String
words String.[] = "" ∷ []
words (String.◌∷◌ c s) = if is_slash c then "" ∷ words s else before c (words s)

-- The segments of a path, without the empty one before its first slash.
abbrev pub rest : List String → List String
rest [] = []
rest (w ∷ ws) = ws

abbrev pub segments : String → List String
segments s = rest (words s)

words_some : (s : String) → (w : String) × (ws : List String) × (words s ≡ w ∷ ws)
words_some String.[] = ("", [], refl)
words_some (String.◌∷◌ c s) = elim (Bool-cases (is_slash c)) [
  | inl e ↦ ("", words s, rw (e, words) refl)
  | inr e ↦ let (w, ws, h) = words_some s in (String.◌∷◌ c w, ws, rw (e, words) (ap (before c) h))
]

before-append :
    (c : Char) (s : String) (ws : List String) → before c (words s ++ ws) ≡ before c (words s) ++ ws
before-append c s ws = let (v, vs, h) = words_some s in rw (h, before) refl

slash-words : (t : String) → words ("/" +t t) ≡ "" ∷ words t
slash-words t = ap words (cons-append "/" "" t) ∙ ap (λ s. "" ∷ words s) (nil-append t)

-- A slash parts two texts.
pub words-append : (s t : String) → words (s +t ("/" +t t)) ≡ words s ++ words t
words-append String.[] t = ap words (nil-append ("/" +t t)) ∙ slash-words t
words-append (String.◌∷◌ c s) t =
    ap words (cons-append c s ("/" +t t)) ∙ (elim (Bool-cases (is_slash c)) [
      | inl e ↦ rw (e, words) (ap (λ ws. "" ∷ ws) (words-append s t))
      | inr e ↦ rw (e, words) (ap (before c) (words-append s t) ∙ before-append c s (words t))
    ])
