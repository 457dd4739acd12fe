-- ===== src/Fine/Tiers.antt =====
-- pkg/fine/fine.go, `RepeatMultiplier.For`: which tier sets the repeat multiplier.
use mathlib.Core.List.{Memᴰ}
use swiftmind_parking_portal.Common.{
  ◌≡◌, refl, sym, ◌∙◌, ◌⊎◌, inl, inr, Bool-cases, List, [], ◌∷◌, ◌++◌, All, arith, if◌then◌else◌,
}
use swiftmind_parking_portal.Common.Int.{ℤ, ◌≤ℤ◌, ◌<ℤ◌, leb_ℤ}
use swiftmind_parking_portal.Fine.Platform.{Runtime}
use swiftmind_parking_portal.Fine.{RepeatTier, repeat_from, repeat_for}

module _ {Float : Type 0} where
  abbrev pub IsSatisfied : ℤ → RepeatTier Float → Type 0
  IsSatisfied prior t = t.min_prior_unpaid ≤ℤ prior

  -- Thresholds rise along the list, weakly.
  abbrev pub IsSorted : List (RepeatTier Float) → Type 0
  IsSorted [] = Unit
  IsSorted (t ∷ ts) = All (λ u. t.min_prior_unpaid ≤ℤ u.min_prior_unpaid) ts × IsSorted ts

  -- `m` is the multiplier of a satisfied tier, and no satisfied tier has a higher threshold.
  pub record IsTopTier (ts : List (RepeatTier Float)) (prior : ℤ) (m : Float) : Type 0 where
    pub tier : RepeatTier Float
    pub listed : Memᴰ tier ts
    pub satisfied : IsSatisfied prior tier
    pub sets : tier.multiplier ≡ m
    pub top : All (λ u. IsSatisfied prior u → u.min_prior_unpaid ≤ℤ tier.min_prior_unpaid) ts

  abbrev pub NoneSatisfied : ℤ → List (RepeatTier Float) → Type 0
  NoneSatisfied prior ts = All (λ t. ¬ IsSatisfied prior t) ts

  -- What `RepeatMultiplier.For` promises, over the multiplier that it starts from.
  abbrev pub Chooses : List (RepeatTier Float) → ℤ → Float → Float → Type 0
  Chooses ts prior m result = NoneSatisfied prior ts × (result ≡ m) ⊎ IsTopTier ts prior result

  All-mem :
      (P : RepeatTier Float → Type 0) {t : RepeatTier Float} (ts : List (RepeatTier Float))
      → All P ts
      → Memᴰ t ts
      → P t
  All-mem P [] h m = elim m [ ]
  All-mem P (u ∷ ts) h (Memᴰ.head e) = rw e h.0
  All-mem P (u ∷ ts) h (Memᴰ.tail m) = All-mem P ts h.1 m

  none_above :
      (prior : ℤ) (bound : ℤ) (ts : List (RepeatTier Float))
      → NoneSatisfied prior ts
      → All (λ u. IsSatisfied prior u → u.min_prior_unpaid ≤ℤ bound) ts
  none_above prior bound [] h = tt
  none_above prior bound (t ∷ ts) h = (λ s. absurd (h.0 s), none_above prior bound ts h.1)

  -- A satisfied tier in front of the list that chose.
  satisfied-Chooses :
      (t : RepeatTier Float) (ts : List (RepeatTier Float)) (prior : ℤ) (m result : Float)
      → IsSatisfied prior t
      → All (λ u. t.min_prior_unpaid ≤ℤ u.min_prior_unpaid) ts
      → Chooses ts prior t.multiplier result
      → Chooses (t ∷ ts) prior m result
  satisfied-Chooses t ts prior m result s low (inl (unmet, e)) = inr (record {
    tier = t;
    listed = Memᴰ.head refl;
    satisfied = s;
    sets = sym e;
    top = (λ _. omega arith, none_above prior t.min_prior_unpaid ts unmet);
  })
  satisfied-Chooses t ts prior m result s low (inr c) = inr (record {
    tier = c.tier;
    listed = Memᴰ.tail c.listed;
    satisfied = c.satisfied;
    sets = c.sets;
    top = (λ _. All-mem (λ u. t.min_prior_unpaid ≤ℤ u.min_prior_unpaid) ts low c.listed, c.top);
  })

  -- One that is not satisfied.
  unsatisfied-Chooses :
      (t : RepeatTier Float) (ts : List (RepeatTier Float)) (prior : ℤ) (m result : Float)
      → ¬ IsSatisfied prior t
      → Chooses ts prior m result
      → Chooses (t ∷ ts) prior m result
  unsatisfied-Chooses t ts prior m result s (inl (unmet, e)) = inl ((s, unmet), e)
  unsatisfied-Chooses t ts prior m result s (inr c) = inr (record {
    tier = c.tier;
    listed = Memᴰ.tail c.listed;
    satisfied = c.satisfied;
    sets = c.sets;
    top = (λ h. absurd (s h), c.top);
  })

module _ (rt : Runtime) where
  open rt use {Float, tenths}

  repeat_from-append :
      (xs : List (RepeatTier Float)) (m : Float) (ys : List (RepeatTier Float)) (prior : ℤ)
      → repeat_from rt m (xs ++ ys) prior ≡ repeat_from rt (repeat_from rt m xs prior) ys prior
  unfolding repeat_from
  repeat_from-append [] m ys prior = refl
  repeat_from-append (x ∷ xs) m ys prior = repeat_from-append xs _ ys prior

  -- The last satisfied tier of the list sets the multiplier, whatever its threshold: a satisfied
  -- tier at the end of the list replaces any other, and one that is not satisfied changes nothing.
  pub repeat_for-append :
      (xs : List (RepeatTier Float)) (t : RepeatTier Float) (prior : ℤ)
      → repeat_for rt (xs ++ t ∷ []) prior
        ≡ (if leb_ℤ t.min_prior_unpaid prior then t.multiplier else repeat_for rt xs prior)
  unfolding repeat_for
  repeat_for-append xs t prior = repeat_from-append xs (tenths 10) (t ∷ []) prior

  repeat_from-Chooses :
      (ts : List (RepeatTier Float)) (m : Float) (prior : ℤ)
      → IsSorted ts
      → Chooses ts prior m (repeat_from rt m ts prior)
  unfolding repeat_from
  repeat_from-Chooses [] m prior s = inl (tt, refl)
  repeat_from-Chooses (t ∷ ts) m prior s = elim (Bool-cases (leb_ℤ t.min_prior_unpaid prior)) [
    | inl met ↦ rw met (
        satisfied-Chooses t ts prior m _ (ground arith) s.0
          (repeat_from-Chooses ts t.multiplier prior s.1))
    | inr unmet ↦
        rw unmet
          (unsatisfied-Chooses t ts prior m _ (ground arith) (repeat_from-Chooses ts m prior s.1))
  ]

  -- With thresholds that rise along the list, the multiplier is that of a satisfied tier with the
  -- highest threshold among the satisfied ones, or 1.0 where no tier is satisfied.
  pub repeat_for-Chooses :
      (ts : List (RepeatTier Float)) (prior : ℤ)
      → IsSorted ts
      → Chooses ts prior (tenths 10) (repeat_for rt ts prior)
  unfolding repeat_for
  repeat_for-Chooses ts prior s = repeat_from-Chooses ts (tenths 10) prior s

  -- Where the thresholds do not rise, the promise breaks: a satisfied tier with a higher threshold
  -- loses to a satisfied one at the end of the list, if no tier with a threshold that high has the
  -- multiplier of the last one.
  pub repeat_for_unsorted :
      (xs : List (RepeatTier Float)) (high low : RepeatTier Float) (prior : ℤ)
      → Memᴰ high (xs ++ low ∷ [])
      → IsSatisfied prior high
      → IsSatisfied prior low
      → low.min_prior_unpaid <ℤ high.min_prior_unpaid
      → All
          (λ u. high.min_prior_unpaid ≤ℤ u.min_prior_unpaid → ¬ (u.multiplier ≡ low.multiplier))
          (xs ++ low ∷ [])
      → ¬ Chooses (xs ++ low ∷ []) prior (tenths 10) (repeat_for rt (xs ++ low ∷ []) prior)
  repeat_for_unsorted xs high low prior m sh sl lt distinct (inl (unmet, _)) =
      All-mem (λ t. ¬ IsSatisfied prior t) (xs ++ low ∷ []) unmet m sh
  repeat_for_unsorted xs high low prior m sh sl lt distinct (inr c) =
      let last_wins : repeat_for rt (xs ++ low ∷ []) prior ≡ low.multiplier =
        ground (arith, repeat_for-append xs low prior) in
      All-mem (λ u. high.min_prior_unpaid ≤ℤ u.min_prior_unpaid → ¬ (u.multiplier ≡ low.multiplier))
        (xs ++ low ∷ []) distinct c.listed
        (All-mem (λ u. IsSatisfied prior u → u.min_prior_unpaid ≤ℤ c.tier.min_prior_unpaid)
          (xs ++ low ∷ []) c.top m sh)
        (c.sets ∙ last_wins)
