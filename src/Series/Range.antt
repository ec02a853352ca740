-- ===== src/Series/Range.antt =====
-- `GetRange` by binary search, against its documented meaning: the points of a half-open interval.
use norma.Base.{
  ℕ, zero, suc, ◌+◌, last?, none, some, ◌-◌, ◌≤◌, ◌<◌, ◌≡◌, refl, sym, ◌∙◌, ap, inl, inr, true,
  false, ◌&&◌, List, [], ◌∷◌, All, length, take, drop, keep, ltb, leb, ◌==◌, nat_comparable, arith,
  if◌then◌else◌, Bool-cases,
}
use norma.Series.{DataPoint, SyncedSeries, reached, get_range}
use norma.Series.Search.{search, search_lem}
use norma.Series.Order.{IsSorted}

sub_self : (n : ℕ) → n - n ≡ 0
sub_self n = omega arith

sub_zero : (n : ℕ) → n - 0 ≡ n
sub_zero n = omega arith

module _ {ℓ} {T : Type ℓ} where
  -- The points of the half-open interval [from, to).
  abbrev pub in_range : ℕ → ℕ → List (DataPoint T) → List (DataPoint T)
  in_range from to = keep (λ p. leb from p.position && ltb p.position to)

  -- The index of the first point at or above `k`.
  first_at : ℕ → List (DataPoint T) → ℕ
  first_at k [] = 0
  first_at k (p ∷ ps) = let rest = first_at k ps in if leb k p.position then 0 else suc rest

  first_at-le : (k : ℕ) (ps : List (DataPoint T)) → first_at k ps ≤ length ps
  unfolding first_at
  first_at-le k [] = omega arith
  first_at-le k (p ∷ ps) = ground (arith, first_at-le k ps)

  reached_above :
      (k j : ℕ) (ps : List (DataPoint T)) (i : ℕ)
      → k ≤ j
      → All (λ q. j < q.position) ps
      → reached k ps i ≡ true
  reached_above k j [] i h a = refl
  reached_above k j (p ∷ ps) zero h a = ground arith
  reached_above k j (p ∷ ps) (suc i) h a = reached_above k j ps i h a.1

  reached_steps :
      (k : ℕ) (ps : List (DataPoint T))
      → IsSorted ps
      → (i : ℕ) → i < length ps
      → reached k ps i ≡ leb (first_at k ps) i
  unfolding first_at
  reached_steps k [] s i h = absurd (omega arith)
  reached_steps k (p ∷ ps) s zero h = ground arith
  reached_steps k (p ∷ ps) s (suc i) h = elim (Bool-cases (leb k p.position)) [
    | inl at ↦ rw at (reached_above k p.position ps i (ground arith) s.0 ∙ ground arith)
    | inr below ↦ rw below (reached_steps k ps s.1 i (omega arith) ∙ ground arith)
  ]

  search-first_at :
      (k : ℕ) (ps : List (DataPoint T))
      → IsSorted ps
      → search (length ps) (reached k ps) ≡ first_at k ps
  search-first_at k ps s =
      search_lem (reached k ps) (length ps) (first_at k ps) (reached_steps k ps s)
        (first_at-le k ps)

  in_range_above :
      (from to j : ℕ) (ps : List (DataPoint T))
      → to ≤ j
      → All (λ q. j < q.position) ps
      → in_range from to ps ≡ []
  in_range_above from to j [] h a = refl
  in_range_above from to j (p ∷ ps) h a = ground (arith, in_range_above from to j ps h a.1)

  first_at_above :
      (k j : ℕ) (ps : List (DataPoint T)) → k ≤ j → All (λ q. j < q.position) ps → first_at k ps ≡ 0
  unfolding first_at
  first_at_above k j [] h a = refl
  first_at_above k j (p ∷ ps) h a = ground arith

  -- The slice between the two indices.
  slice-in_range :
      (from to : ℕ) (ps : List (DataPoint T))
      → from ≤ to
      → IsSorted ps
      → take (first_at to ps - first_at from ps) (drop (first_at from ps) ps) ≡ in_range from to ps
  unfolding first_at
  slice-in_range from to [] h s = refl
  slice-in_range from to (p ∷ ps) h s = elim (Bool-cases (leb from p.position)) [
    | inr below ↦
        let past : leb to p.position ≡ false = ground arith in
        let shift : suc (first_at to ps) - suc (first_at from ps)
            ≡ first_at to ps - first_at from ps =
          omega arith in
        rw (below, past, shift) (slice-in_range from to ps h s.1)
    | inl at ↦ elim (Bool-cases (leb to p.position)) [
      | inl past ↦
          let out : ltb p.position to ≡ false = ground arith in
          rw (at, past, out) (sym (in_range_above from to p.position ps (ground arith) s.0))
      | inr before ↦
          let within : ltb p.position to ≡ true = ground arith in
          let start = first_at_above from p.position ps (ground arith) s.0 in
          rw (at, before, within, sub_zero (suc (first_at to ps)))
            (ap (◌∷◌ p)
              (rw (start, sub_zero (first_at to ps)) at (slice-in_range from to ps h s.1)))
    ]
  ]

  in_range_inverted : (from to : ℕ) (ps : List (DataPoint T)) → to < from → in_range from to ps ≡ []
  in_range_inverted from to [] h = refl
  in_range_inverted from to (p ∷ ps) h = ground (arith, in_range_inverted from to ps h)

  same_index :
      (from to : ℕ) (ps : List (DataPoint T))
      → first_at from ps ≡ first_at to ps
      → take (first_at to ps - first_at from ps) (drop (first_at from ps) ps) ≡ []
  same_index from to ps e = rw (← e, sub_self (first_at from ps))

  -- A snapshot of a sorted series holds the points of the half-open interval, and no other.
  pub get_range-in_range :
      (s : SyncedSeries T) (from to : ℕ)
      → IsSorted s.points
      → get_range s from to ≡ in_range from to s.points
  unfolding get_range
  get_range-in_range s from to sorted =
      rw (search-first_at from s.points sorted, search-first_at to s.points sorted)
        (elim (Bool-cases (ltb to from)) [
          | inl wrong ↦ rw wrong (sym (in_range_inverted from to s.points (ground arith)))
          | inr right ↦
              let slice = slice-in_range from to s.points (ground arith) sorted in
              elim (Bool-cases (first_at from s.points == first_at to s.points)) [
                | inl equal ↦
                    rw (right, equal) (sym (same_index from to s.points (ground arith)) ∙ slice)
                | inr different ↦ rw (right, different) slice
              ]
        ])

  -- The last point of a sorted series has the highest position.
  pub last-highest :
      (ps : List (DataPoint T)) (q : DataPoint T)
      → IsSorted ps
      → last? ps ≡ some q
      → All (λ p. p.position ≤ q.position) ps
  last-highest [] q s e = tt
  last-highest (p ∷ []) q s e =
      let same = ap {B = ℕ} (λ o. elim o [ none ↦ p.position | some r ↦ r.position ]) e in
      (ground (arith, same), tt)
  last-highest (p ∷ r ∷ ps) q s e =
      let ih = last-highest (r ∷ ps) q s.1 e in (omega (arith, ih.0, s.0.0), ih)

  -- Up to just above the highest position, only the lower bound counts.
  pub in_range-below :
      (from top : ℕ) (ps : List (DataPoint T))
      → All (λ p. p.position ≤ top) ps
      → in_range from (top + 1) ps ≡ keep (λ p. leb from p.position) ps
  in_range-below from top [] a = refl
  in_range-below from top (p ∷ ps) a = ground (arith, in_range-below from top ps a.1)
