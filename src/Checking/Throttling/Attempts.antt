-- ===== src/Checking/Throttling/Attempts.antt =====
-- Which attempt gives the rates that collectEmissionRates returns.
use norma.Base.{
  ℕ, zero, suc, ◌+◌, ◌-◌, ◌≡◌, ◌≤◌, ◌<◌, ◌↔◌, inl, inr, sym, ◌∙◌, Bool, true, false, Option, none,
  some, ltb, Bool-cases, arith, subst,
}
use norma.Base.Results.{Result, ok, err, Result-cases}
use norma.Checking.Snapshots.{ThrottleError}
use norma.Checking.Throttling.{max_sample_attempts, collect_from, collect_emission_rates}

module _ {R : Type 0} (sample : ℕ → Result ThrottleError R) (cancelled slept : ℕ → Bool) where
  -- Attempt `m` failed, and the next one followed.
  pub record IsDiscarded (m : ℕ) : Type 0 where
    pub failed : (e : ThrottleError) × (sample m ≡ err e)
    pub goes_on : cancelled m ≡ false
    pub pause : slept m ≡ true

  -- Attempt `n` is the first from `i` on that succeeds, and it was made.
  pub record IsSampled (i limit : ℕ) (rates : R) (n : ℕ) : Type 0 where
    pub later : i ≤ n
    pub within : n < limit
    pub sampled : sample n ≡ ok rates
    pub before : (m : ℕ) → i ≤ m → m < n → IsDiscarded m

  collected :
      (left i : ℕ) (last : Option ThrottleError) (rates : R)
      → i + left ≡ max_sample_attempts
      → collect_from sample cancelled slept left i last ≡ ok rates
      → (n : ℕ) × IsSampled i max_sample_attempts rates n
  unfolding collect_from
  collected zero i last rates s h = absurd cc
  collected (suc left) i last rates s h = elim (Result-cases (sample i)) [
    | inl (found, e) ↦ (
      i,
      record {
        later = omega arith;
        within = omega arith;
        sampled = e ∙ (rw (collect_from, e) at h);
        before = λ m lo hi. absurd (omega arith);
      },
    )
    | inr (x, e) ↦
        let live : cancelled i ≡ false = ground (arith, e) in
        elim (Bool-cases (ltb i (max_sample_attempts - 1))) [
          | inl more ↦
              let woken : slept i ≡ true = ground (arith, e, more) in
              let (n, found) =
                collected left (suc i) (some x) rates (omega arith)
                  (rw (collect_from, e, live, more, woken) at h) in
              (
                n,
                record {
                  later = omega (arith, found.later);
                  within = found.within;
                  sampled = found.sampled;
                  before = λ m lo hi. elim (Bool-cases (ltb i m)) [
                    | inl after ↦ found.before m (ground (arith, after)) hi
                    | inr here ↦
                        let same : i ≡ m = ground (arith, here) in
                        subst IsDiscarded same
                          (record { failed = (x, e); goes_on = live; pause = woken })
                  ];
                },
              )
          | inr over ↦
              let (n, found) =
                collected left (suc i) (some x) rates (omega arith)
                  (rw (collect_from, e, live, over) at h) in
              absurd (ground (arith, over, found.later, found.within))
        ]
  ]

  collects :
      (left i : ℕ) (last : Option ThrottleError) (rates : R) (n : ℕ)
      → i + left ≡ max_sample_attempts
      → IsSampled i max_sample_attempts rates n
      → collect_from sample cancelled slept left i last ≡ ok rates
  unfolding collect_from
  collects zero i last rates n s found = absurd (omega (arith, found.later, found.within))
  collects (suc left) i last rates n s found = elim (Result-cases (sample i)) [
    | inl (other, e) ↦ elim (Bool-cases (ltb i n)) [
      | inl after ↦
          let (x, f) = (found.before i (omega arith) (ground (arith, after))).failed in
          absurd (ground (arith, e, f))
      | inr here ↦
          let same : n ≡ i = ground (arith, here, found.later) in
          rw (collect_from, e) (sym e ∙ subst (λ k. sample k ≡ ok rates) same found.sampled)
    ]
    | inr (x, e) ↦ elim (Bool-cases (ltb i n)) [
      | inr here ↦
          let same : n ≡ i = ground (arith, here, found.later) in
          let f = subst (λ k. sample k ≡ ok rates) same found.sampled in
          absurd (ground (arith, e, f))
      | inl after ↦
          let d = found.before i (omega arith) (ground (arith, after)) in
          let more : ltb i (max_sample_attempts - 1) ≡ true = ground (arith, after, found.within) in
          rw (collect_from, e, d.goes_on, more, d.pause)
            (collects left (suc i) (some x) rates n (omega arith) (record {
              later = ground (arith, after);
              within = found.within;
              sampled = found.sampled;
              before = λ m lo hi. found.before m (omega arith) hi;
            }))
    ]
  ]

  -- The rates are those of the first attempt that succeeds, one of five: every attempt before it failed
  -- in a context that goes on, and the pause after it was not interrupted. Otherwise there are none.
  collect_emission_rates-IsSampled :
      (rates : R)
      → (collect_emission_rates sample cancelled slept ≡ ok rates)
        ↔ ((n : ℕ) × IsSampled 0 max_sample_attempts rates n)
  collect_emission_rates-IsSampled rates = (
    collected max_sample_attempts 0 none rates (omega arith),
    λ (n, found). collects max_sample_attempts 0 none rates n (omega arith) found,
  )
