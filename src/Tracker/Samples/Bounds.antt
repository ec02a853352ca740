-- ===== src/Tracker/Samples/Bounds.antt =====
-- The bound and the spread of the retained samples.
use native.Mathlib.Nat.{mul-mod_right}
use norma.Base.{
  ℕ, ◌+◌, ◌*◌, ◌%◌, ◌≤◌, ◌<◌, ◌≡◌, ◌≢◌, ◌∙◌, inl, inr, List, [], ◌∷◌, ◌++◌, length, length-append,
  ltb, arith, Bool-cases, ◌==◌, nat_comparable, ltb→lt, not_ltb,
}
use norma.Tracker.Samples.{
  Sample, SampleSet, max_samples_per_set, every_second, halve, accept, offered, add,
}

length-every_second : (xs : List Sample) → 2 * length (every_second xs) ≡ length xs + length xs % 2
unfolding every_second
length-every_second [] = omega arith
length-every_second (x ∷ []) = omega arith
length-every_second (x ∷ y ∷ ys) = omega (arith, length-every_second ys)

mod_wraps : (n d : ℕ) → 0 < d → (n + 1) % d ≡ 0 → n % d + 1 ≡ d
mod_wraps n d h e = grind arith

mod_steps : (n d : ℕ) → 0 < d → (n + 1) % d ≢ 0 → (n + 1) % d ≡ n % d + 1
mod_steps n d h e = grind arith

-- Below the limit, exactly one of `stride` offered samples is retained.
pub record IsExact (s : SampleSet) : Type 0 where
  pub room : length s.samples < max_samples_per_set
  pub exact : s.seen ≡ s.stride * length s.samples + s.seen % s.stride
  pub unset : s.stride ≡ 0 → (s.seen ≡ 0) × (length s.samples ≡ 0)

abbrev offer : List Sample → ℕ → ℕ → SampleSet
offer xs n d = record { samples = xs; seen = n + 1; stride = d }

abbrev longer : List Sample → ℕ → ℕ → List Sample
longer xs at duration = xs ++ record { at = at; duration = duration } ∷ []

module _ (xs : List Sample) (n d at duration : ℕ) (positive : 0 < d)
    (room : length xs < max_samples_per_set) (exact : n ≡ d * length xs + n % d) where
  skip-IsExact : (n + 1) % d ≢ 0 → IsExact (offer xs n d)
  skip-IsExact h = record {
    room = room;
    exact = omega (arith, mod_steps n d positive h);
    unset = λ e. absurd (omega arith);
  }

  total : (n + 1) % d ≡ 0 → n + 1 ≡ d * (length xs + 1)
  total e = omega (arith, mod_wraps n d positive e)

  grown : length (longer xs at duration) ≡ length xs + 1
  grown = omega (arith, length-append xs (record { at = at; duration = duration } ∷ []))

  store-IsExact :
      (n + 1) % d ≡ 0
      → length xs + 1 < max_samples_per_set
      → IsExact (record (offer xs n d) { samples = longer xs at duration })
  store-IsExact e small = record {
    room = omega (arith, grown);
    exact = rw (grown, e) (omega (arith, total e));
    unset = λ z. absurd (omega arith);
  }

  halve-IsExact :
      (n + 1) % d ≡ 0
      → max_samples_per_set ≤ length xs + 1
      → IsExact
          (record (offer xs n d) { samples = every_second (longer xs at duration); stride = d * 2 })
  halve-IsExact e full =
      let half : length (every_second (longer xs at duration)) ≡ 5000 =
        omega (arith, grown, length-every_second (longer xs at duration)) in
      let count : length xs + 1 ≡ 10_000 = omega arith in
      let sum : n + 1 ≡ d * 2 * 5000 = total e ∙ (rw count (omega arith)) in
      record {
        room = omega arith;
        exact = rw (half, sum, mul-mod_right (d * 2) 5000) (omega arith);
        unset = λ z. absurd (omega arith);
      }

accept-IsExact :
    (xs : List Sample) (n d at duration : ℕ)
    → 0 < d
    → length xs < max_samples_per_set
    → n ≡ d * length xs + n % d
    → IsExact (accept (offer xs n d) at duration)
unfolding accept halve
accept-IsExact xs n d at duration positive room exact = elim (Bool-cases ((n + 1) % d == 0)) [
  | inr skip ↦ rw skip (skip-IsExact xs n d at duration positive room exact (ground arith))
  | inl hit ↦
      let e : (n + 1) % d ≡ 0 = ground arith in
      rw hit (elim (Bool-cases (ltb (length (longer xs at duration)) max_samples_per_set)) [
        | inl small ↦ rw small (
            store-IsExact xs n d at duration positive room exact e
              (omega (arith, grown xs n d at duration positive room exact, ltb→lt _ _ small)))
        | inr full ↦ rw full (
            halve-IsExact xs n d at duration positive room exact e
              (omega (arith, grown xs n d at duration positive room exact, not_ltb _ _ full)))
      ])
]

accept_seen : (s : SampleSet) (at duration : ℕ) → (accept s at duration).seen ≡ s.seen
unfolding accept halve
accept_seen s at duration = ground arith

accept_stride : (s : SampleSet) (at duration : ℕ) → s.stride ≤ (accept s at duration).stride
unfolding accept halve
accept_stride s at duration = ground arith

-- From a set in which exactly one of `stride` offers is retained, an offer leads to such a set
-- below the limit; it is counted, and the selection never becomes denser.
pub add-IsExact :
    (s : SampleSet) (at duration : ℕ)
    → IsExact s
    → IsExact (add s at duration)
      × ((add s at duration).seen ≡ s.seen + 1)
      × (s.stride ≤ (add s at duration).stride)
unfolding add
add-IsExact s at duration b =
    let o = offered s in
    let d = o.stride in
    let wider : s.stride ≤ d = ground arith in
    (
      accept-IsExact s.samples s.seen d at duration (ground arith) b.room (ground arith),
      accept_seen o at duration,
      omega (arith, wider, accept_stride o at duration),
    )
