-- ===== src/Checking/GasRate/Ceiling.antt =====
-- Which blocks a check of the gas rate judges.
use norma.Base.{
  ℕ, ◌+◌, ◌%◌, ◌^◌, ◌-◌, ◌≤◌, ◌<◌, ◌≡◌, ◌↔◌, refl, inl, inr, subst, Bool, Option, true, false, none,
  some, List, [], ◌∷◌, All, keep, last?, leb, ltb, arith, Bool-cases, Option-cases,
}
use norma.Base.Int.{ℤ}
use norma.Base.Results.{ok}
use norma.Series.{DataPoint, SyncedSeries, as_series, get_latest}
use norma.Series.Order.{IsSorted}
use norma.Series.Range.{get_range-in_range, last-highest, in_range-below}
use norma.Checking.Timing.{observation_window}
use norma.Checking.GasRate.{GasConfig, first_block, within_ceiling, judge, check_gas_rate}

module _ {F : Type 0} (less : F → F → Bool) where
  -- No block of the list is above the ceiling.
  abbrev pub IsWithin : F → List (DataPoint F) → Type 0
  IsWithin ceiling = All (λ p. less ceiling p.value ≡ false)

  within_ceiling_iff :
      (ceiling : F) (ps : List (DataPoint F))
      → (within_ceiling less ceiling ps ≡ ok tt) ↔ IsWithin ceiling ps
  unfolding within_ceiling
  within_ceiling_iff ceiling [] = (λ h. tt, λ h. refl)
  within_ceiling_iff ceiling (p ∷ ps) = ground (arith, within_ceiling_iff ceiling ps)

  kept_above :
      (first top : ℕ) (ps : List (DataPoint F))
      → top < first
      → All (λ p. p.position ≤ top) ps
      → keep (λ p. leb first p.position) ps ≡ []
  kept_above first top [] h a = refl
  kept_above first top (p ∷ ps) h a = ground (arith, kept_above first top ps h a.1)

  last_none : (ps : List (DataPoint F)) → last? ps ≡ none → ps ≡ []
  last_none [] h = refl
  last_none (p ∷ []) h = absurd cc
  last_none (p ∷ r ∷ ps) h = absurd (ground (arith, last_none (r ∷ ps) h))

  judge_iff :
      (ceiling : F) (first : ℕ) (s : SyncedSeries F)
      → IsSorted s.points
      → ((q : DataPoint F) → last? s.points ≡ some q → q.position < 2 ^ 64 - 1)
      → (judge less ceiling first (as_series s) ≡ ok tt)
        ↔ IsWithin ceiling (keep (λ p. leb first p.position) s.points)
  unfolding judge get_latest
  judge_iff ceiling first s sorted small = elim (Option-cases (last? s.points)) [
    | inl e ↦ rw (judge, get_latest, e, last_none s.points e) (λ h. tt, λ h. refl)
    | inr (q, e) ↦
        let highest = last-highest s.points q sorted e in
        elim (Bool-cases (ltb q.position first)) [
          | inl old ↦
              rw
                (
                  judge,
                  get_latest,
                  e,
                  old,
                  kept_above first q.position s.points (ground (arith, old)) highest,
                )
                (λ h. tt, λ h. refl)
          | inr new ↦
              let word : (q.position + 1) % 2 ^ 64 ≡ q.position + 1 = omega (arith, small q e) in
              rw
                (
                  judge,
                  get_latest,
                  e,
                  new,
                  word,
                  get_range-in_range s first (q.position + 1) sorted,
                  in_range-below first q.position s.points highest,
                )
                (within_ceiling_iff ceiling (keep (λ p. leb first p.position) s.points))
        ]
  ]

  -- A block was produced after the head of a series, or the series was empty.
  abbrev pub is_newer : Option (DataPoint F) → DataPoint F → Bool
  is_newer none p = true
  is_newer (some head) p = ltb head.position p.position

  keep_all : (ps : List (DataPoint F)) → keep (λ p. leb 0 p.position) ps ≡ keep (is_newer none) ps
  keep_all [] = refl
  keep_all (p ∷ ps) = ground (arith, keep_all ps)

  keep_newer :
      (head : DataPoint F) (ps : List (DataPoint F))
      → keep (λ p. leb (head.position + 1) p.position) ps ≡ keep (is_newer (some head)) ps
  keep_newer head [] = refl
  keep_newer head (p ∷ ps) = ground (arith, keep_newer head ps)

  keep_first :
      (o : SyncedSeries F) (ps : List (DataPoint F))
      → ((q : DataPoint F) → last? o.points ≡ some q → q.position < 2 ^ 64 - 1)
      → keep (λ p. leb (first_block (as_series o)) p.position) ps
        ≡ keep (is_newer (last? o.points)) ps
  unfolding get_latest
  keep_first o ps small = elim (Option-cases (last? o.points)) [
    | inl e ↦ rw e (keep_all ps)
    | inr (q, e) ↦
        let word : (q.position + 1) % 2 ^ 64 ≡ q.position + 1 = omega (arith, small q e) in
        rw (e, word) (keep_newer q ps)
  ]

  -- A check whose window is granted and whose wait is not interrupted passes exactly when no block
  -- above the head at its start is above the ceiling; that head and earlier blocks do not count.
  -- Both series end below the greatest 64-bit word, and the later one is sorted, as appending keeps it.
  pub check_gas_rate_iff :
      (c : GasConfig F) (before s : SyncedSeries F) (window : ℤ)
      → observation_window c.duration c.tolerance_samples ≡ ok window
      → IsSorted s.points
      → ((q : DataPoint F) → last? before.points ≡ some q → q.position < 2 ^ 64 - 1)
      → ((q : DataPoint F) → last? s.points ≡ some q → q.position < 2 ^ 64 - 1)
      → (check_gas_rate less c (as_series before) true (as_series s) ≡ ok tt)
        ↔ IsWithin c.ceiling (keep (is_newer (last? before.points)) s.points)
  unfolding check_gas_rate
  check_gas_rate_iff c before s window granted sorted early small =
      let judged : (check_gas_rate less c (as_series before) true (as_series s) ≡ ok tt)
          ↔ IsWithin c.ceiling
              (keep (λ p. leb (first_block (as_series before)) p.position) s.points) =
        rw (check_gas_rate, granted)
          (judge_iff c.ceiling (first_block (as_series before)) s sorted small) in
      subst
        (λ ps.
          (check_gas_rate less c (as_series before) true (as_series s) ≡ ok tt)
          ↔ IsWithin c.ceiling ps)
        (keep_first before s.points early) judged
