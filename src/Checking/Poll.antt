-- ===== src/Checking/Poll.antt =====
-- The loop that block_height.go, network_rules.go and validators_active.go of driver/checking poll
-- the network in. Round `i` finds the outcome `attempt i`; the deadline has passed in the rounds of
-- `expired`, and `slept i` says that the wait after it was not cancelled.
use norma.Base.{
  ℕ, zero, suc, ◌+◌, ◌≡◌, ◌≤◌, ◌<◌, ◌↔◌, inl, inr, Bool, true, false, Option, none, some, arith,
  if◌then◌else◌, Bool-cases, ltb, subst,
}
use norma.Base.Results.{Result, ok, err, Result-cases}

pub record Rounds (E : Type 0) : Type 0 where
  pub attempt : ℕ → Result E (Unit {0})
  pub expired : ℕ → Bool
  pub slept : ℕ → Bool

-- `expire` wraps the last disagreement, `stopped` is the error of the context. Without fuel the loop
-- has not answered.
unfoldable pub poll_from :
    {E : Type 0} → (E → E) → E → Rounds E → ℕ → ℕ → Option (Result E (Unit {0}))
poll_from expire stopped r zero i = none
poll_from expire stopped r (suc fuel) i =
    let rest = poll_from expire stopped r fuel (suc i) in
    elim (r.attempt i) [
      | ok u ↦ some (ok tt)
      | err e ↦
          if r.expired i
          then some (err (expire e))
          else if r.slept i
          then rest
          else some (err stopped)
    ]

abbrev pub poll : {E : Type 0} → (E → E) → E → Rounds E → ℕ → Option (Result E (Unit {0}))
poll expire stopped r fuel = poll_from expire stopped r fuel 0

-- Round `i` is left for the next one.
pub record IsRetried {E : Type 0} (r : Rounds E) (i : ℕ) : Type 0 where
  pub disagrees : (e : E) × (r.attempt i ≡ err e)
  pub early : r.expired i ≡ false
  pub awake : r.slept i ≡ true

-- Round `n` agrees, and the loop reaches it.
pub record IsReached {E : Type 0} (r : Rounds E) (i n : ℕ) : Type 0 where
  pub later : i ≤ n
  pub agrees : r.attempt n ≡ ok tt
  pub before : (m : ℕ) → i ≤ m → m < n → IsRetried r m

module _ {E : Type 0} (expire : E → E) (stopped : E) (r : Rounds E) where
  poll_from_ends :
      (fuel i d : ℕ)
      → r.expired d ≡ true
      → i ≤ d
      → d < i + fuel
      → (res : Result E (Unit {0})) × (poll_from expire stopped r fuel i ≡ some res)
  unfolding poll_from
  poll_from_ends zero i d h lo hi = absurd (omega arith)
  poll_from_ends (suc fuel) i d h lo hi = elim (Result-cases (r.attempt i)) [
    | inl (u, e) ↦ (ok tt, rw (poll_from, e))
    | inr (x, e) ↦ elim (Bool-cases (r.expired i)) [
      | inl late ↦ (err (expire x), rw (poll_from, e, late))
      | inr early ↦ elim (Bool-cases (r.slept i)) [
        | inr woken ↦ (err stopped, rw (poll_from, e, early, woken))
        | inl awake ↦
            let other : i < d = ground arith in
            let (res, f) = poll_from_ends fuel (suc i) d h (omega arith) (omega arith) in
            (res, rw (poll_from, e, early, awake) f)
      ]
    ]
  ]

  poll_from-IsReached :
      (fuel i : ℕ)
      → poll_from expire stopped r fuel i ≡ some (ok tt)
      → (n : ℕ) × (n < i + fuel) × IsReached r i n
  unfolding poll_from
  poll_from-IsReached zero i h = absurd cc
  poll_from-IsReached (suc fuel) i h = elim (Result-cases (r.attempt i)) [
    | inl (u, e) ↦ (
      i,
      omega arith,
      record { later = omega arith; agrees = e; before = λ m lo hi. absurd (omega arith) },
    )
    | inr (x, e) ↦
        let early : r.expired i ≡ false = ground arith in
        let awake : r.slept i ≡ true = ground arith in
        let (n, lt, found) = poll_from-IsReached fuel (suc i) (ground arith) in
        (
          n,
          omega arith,
          record {
            later = omega (arith, found.later);
            agrees = found.agrees;
            before = λ m lo hi. elim (Bool-cases (ltb i m)) [
              | inl after ↦ found.before m (ground arith) hi
              | inr here ↦
                  let same : i ≡ m = ground arith in
                  subst (λ k. IsRetried r k) same
                    (record { disagrees = (x, e); early = early; awake = awake })
            ];
          },
        )
  ]

  poll_from_reaches :
      (fuel i n : ℕ)
      → n < i + fuel
      → IsReached r i n
      → poll_from expire stopped r fuel i ≡ some (ok tt)
  unfolding poll_from
  poll_from_reaches zero i n hi found = absurd (omega (arith, found.later))
  poll_from_reaches (suc fuel) i n hi found = elim (Result-cases (r.attempt i)) [
    | inl (u, e) ↦ rw (poll_from, e)
    | inr (x, e) ↦
        let later : i < n = ground (arith, found.later, found.agrees) in
        let retried = found.before i (omega arith) later in
        rw (poll_from, e, retried.early, retried.awake)
          (poll_from_reaches fuel (suc i) n (omega arith) (record {
            later = omega arith;
            agrees = found.agrees;
            before = λ m lo hi. found.before m (omega arith) hi;
          }))
  ]

  -- The loop answers once its deadline has passed in some round.
  pub poll_ends :
      (d : ℕ)
      → r.expired d ≡ true
      → (res : Result E (Unit {0})) × (poll expire stopped r (suc d) ≡ some res)
  poll_ends d h = poll_from_ends (suc d) 0 d h (omega arith) (omega arith)

  -- The loop passes exactly where some round agrees, and every round before it disagreed before the
  -- deadline and waited without being cancelled.
  pub poll-IsReached :
      (fuel : ℕ)
      → (poll expire stopped r fuel ≡ some (ok tt)) ↔ ((n : ℕ) × (n < fuel) × IsReached r 0 n)
  poll-IsReached fuel = (
    λ h. let (n, lt, found) = poll_from-IsReached fuel 0 h in (n, omega arith, found),
    λ (n, lt, found). poll_from_reaches fuel 0 n (omega arith) found,
  )
