-- ===== src/Checking/Throttling/Best.antt =====
-- The fastest and the slowest rate that the loop of verifyThrottled finds.
use norma.Base.{
  ℕ, ◌≡◌, ◌⊎◌, inl, inr, ap, ◌∙◌, Bool, true, false, Option, none, some, [], ◌∷◌, nat_comparable,
  if◌then◌else◌, Bool-cases, Option-cases, All, Some, some_injective, arith, subst,
}
use norma.Base.Map.{Map}
use norma.Checking.Throttling.{RateArithmetic, better}

-- The best entry among those that pass a test, as one of the two variables of the loop holds it.
module _ {F : Type 0} (arithmetic : RateArithmetic F) (yields : F → F → Bool)
    (test : ℕ → Bool) where
  unfoldable pub best : Option F → Map ℕ F → Option F
  best found [] = found
  best found ((id, r) ∷ rates) =
      best (if test id then better arithmetic yields found r else found) rates

  abbrev NotBeaten : Option F → F → Type 0
  NotBeaten none m = Unit
  NotBeaten (some k) m = yields m k ≡ false

  abbrev pub IsOneOf : F → Map ℕ F → Type 0
  IsOneOf m = Some (λ entry. (test entry.0 ≡ true) × (entry.1 ≡ m))

  abbrev pub IsUnbeaten : F → Map ℕ F → Type 0
  IsUnbeaten m = All (λ entry. test entry.0 ≡ true → yields m entry.1 ≡ false)

  abbrev IsBest : Option F → Map ℕ F → Option F → Type 0
  IsBest found rates none = (found ≡ none) × All (λ entry. test entry.0 ≡ false) rates
  IsBest found rates (some m) =
      ((found ≡ some m) ⊎ IsOneOf m rates) × NotBeaten found m × IsUnbeaten m rates

  irreflexive : ((a b : F) → yields a b ≡ true → yields b a ≡ false) → (m : F) → yields m m ≡ false
  irreflexive asym m = elim (Bool-cases (yields m m)) [
    | inl h ↦ absurd (ground (arith, h, asym m m h))
    | inr h ↦ h
  ]

  IsBest-other :
      (id : ℕ) (r : F) (rates : Map ℕ F) (found out : Option F)
      → test id ≡ false
      → IsBest found rates out
      → IsBest found ((id, r) ∷ rates) out
  IsBest-other id r rates found none other b = (b.0, (other, b.1))
  IsBest-other id r rates found (some m) other b = (
    elim b.0 [ inl h ↦ inl h | inr h ↦ inr (inr h) ],
    b.1,
    (λ own. absurd (ground (arith, own, other)), b.2),
  )

  -- An entry that takes the place of what was found.
  IsBest-taken :
      ((a b c : F) → yields a b ≡ false → yields b c ≡ false → yields a c ≡ false)
      → (id : ℕ) (r : F) (rates : Map ℕ F) (found out : Option F) → test id ≡ true
      → NotBeaten found r
      → IsBest (some r) rates out
      → IsBest found ((id, r) ∷ rates) out
  IsBest-taken trans id r rates found none own n b = absurd (let e = b.0 in cc)
  IsBest-taken trans id r rates none (some m) own n b = (
    inr (elim b.0 [ inl h ↦ inl (own, some_injective r m h) | inr h ↦ inr h ]),
    tt,
    (λ x. b.1, b.2),
  )
  IsBest-taken trans id r rates (some k) (some m) own n b = (
    inr (elim b.0 [ inl h ↦ inl (own, some_injective r m h) | inr h ↦ inr h ]),
    trans m r k b.1 n,
    (λ x. b.1, b.2),
  )

  -- An entry that does not.
  IsBest-passed :
      ((a b c : F) → yields a b ≡ false → yields b c ≡ false → yields a c ≡ false)
      → (id : ℕ) (r k : F) (rates : Map ℕ F) (out : Option F) → yields k r ≡ false
      → IsBest (some k) rates out
      → IsBest (some k) ((id, r) ∷ rates) out
  IsBest-passed trans id r k rates none less b = absurd (let e = b.0 in cc)
  IsBest-passed trans id r k rates (some m) less b =
      (elim b.0 [ inl h ↦ inl h | inr h ↦ inr (inr h) ], b.1, (λ x. trans m k r b.1 less, b.2))

  best-IsBest :
      ((a b : F) → yields a b ≡ true → yields b a ≡ false)
      → ((a b c : F) → yields a b ≡ false → yields b c ≡ false → yields a c ≡ false)
      → (rates : Map ℕ F) (found out : Option F) → best found rates ≡ out
      → IsBest found rates out
  unfolding best
  best-IsBest asym trans [] found none h = (h, tt)
  best-IsBest asym trans [] none (some m) h = absurd cc
  best-IsBest asym trans [] (some k) (some m) h =
      let same = some_injective k m h in
      (inl h, subst (λ x. yields x k ≡ false) same (irreflexive asym k), tt)
  best-IsBest asym trans ((id, r) ∷ rates) none out h = elim (Bool-cases (test id)) [
    | inr other ↦
        IsBest-other id r rates none out other
          (best-IsBest asym trans rates none out (rw (best, other) at h))
    | inl own ↦
        IsBest-taken trans id r rates none out own tt
          (best-IsBest asym trans rates (some r) out (rw (best, own) at h))
  ]
  best-IsBest asym trans ((id, r) ∷ rates) (some k) out h = elim (Bool-cases (test id)) [
    | inr other ↦
        IsBest-other id r rates (some k) out other
          (best-IsBest asym trans rates (some k) out (rw (best, other) at h))
    | inl own ↦ elim (Bool-cases (yields k r)) [
      | inl wins ↦
          IsBest-taken trans id r rates (some k) out own (asym k r wins)
            (best-IsBest asym trans rates (some r) out (rw (own, wins) at h))
      | inr loses ↦
          IsBest-passed trans id r k rates out loses
            (best-IsBest asym trans rates (some k) out (rw (own, loses) at h))
    ]
  ]

  -- An entry that passes is not beaten by one that yields all.
  unbeaten_by :
      (m k : F) (rates : Map ℕ F) → IsOneOf k rates → IsUnbeaten m rates → yields m k ≡ false
  unbeaten_by m k [] one all_of = absurd one
  unbeaten_by m k ((id, r) ∷ rates) (inl (own, e)) (first, rest) =
      subst (λ x. yields m x ≡ false) e (first own)
  unbeaten_by m k ((id, r) ∷ rates) (inr one) (first, rest) = unbeaten_by m k rates one rest

  none_passes :
      (m : F) (rates : Map ℕ F) → IsOneOf m rates → All (λ entry. test entry.0 ≡ false) rates → ⊥
  none_passes m [] one others = one
  none_passes m ((id, r) ∷ rates) (inl (own, e)) (other, others) = ground (arith, own, other)
  none_passes m ((id, r) ∷ rates) (inr one) (other, others) = none_passes m rates one others

  -- What the loop finds is the best entry, where there is one.
  pub best_unique :
      ((a b : F) → yields a b ≡ true → yields b a ≡ false)
      → ((a b c : F) → yields a b ≡ false → yields b c ≡ false → yields a c ≡ false)
      → ((a b : F) → yields a b ≡ false → yields b a ≡ false → a ≡ b)
      → (rates : Map ℕ F) (m : F) → IsOneOf m rates
      → IsUnbeaten m rates
      → best none rates ≡ some m
  best_unique asym trans antisym rates m one unbeaten = elim (Option-cases (best none rates)) [
    | inl e ↦ absurd (none_passes m rates one (best-IsBest asym trans rates none none e).1)
    | inr (k, e) ↦
        let (origin, free, all_of) = best-IsBest asym trans rates none (some k) e in
        elim origin [
          | inl none_found ↦ absurd cc
          | inr other ↦
              e
              ∙ ap some (
                  antisym k m (unbeaten_by k m rates one all_of)
                    (unbeaten_by m k rates other unbeaten))
        ]
  ]

  pub best_found :
      ((a b : F) → yields a b ≡ true → yields b a ≡ false)
      → ((a b c : F) → yields a b ≡ false → yields b c ≡ false → yields a c ≡ false)
      → (rates : Map ℕ F) (m : F) → best none rates ≡ some m
      → IsOneOf m rates × IsUnbeaten m rates
  best_found asym trans rates m e =
      let (origin, free, all_of) = best-IsBest asym trans rates none (some m) e in
      elim origin [ inl none_found ↦ absurd cc | inr one ↦ (one, all_of) ]
