-- ===== src/Executor/Activation/Joined.antt =====
-- When ensureValidatorsActive passes.
use norma.Base.{
  ℕ, suc, ◌≡◌, ◌≤◌, ◌⊎◌, inl, inr, refl, ap, ◌∙◌, true, Option, none, some, List, [], ◌∷◌, contains,
  nat_comparable, All, arith, Bool-cases, Option-cases,
}
use norma.Base.Results.{Result, ok, err, Result-cases}
use norma.Checking.Poll.{Rounds, poll_ends, poll-IsReached}
use norma.Executor.Run.Production.{
  Client, WaitError, wait_for_block_production, wait_for_block_production_answers,
}
use norma.Executor.Activation.{
  ActivationError, unconnected, stalled, unsealed, context_ended, Admission, missing_validators,
  lacking, reading, await_validators, seal_and_await, ensure_validators_active,
}

-- A validator set was read, and holds all of the validators.
abbrev pub IsActive : List ℕ → Option (List ℕ) → Type 0
IsActive want o = (active : List ℕ) × (o ≡ some active) × All (λ id. contains active id ≡ true) want

none_missing :
    (want active : List ℕ)
    → missing_validators want active ≡ []
    → All (λ id. contains active id ≡ true) want
unfolding missing_validators
none_missing [] active h = tt
none_missing (id ∷ ids) active h = ground (arith, none_missing ids active, h)

read-IsActive : (want : List ℕ) (o : Option (List ℕ)) → lacking want o ≡ none → IsActive want o
unfolding lacking
read-IsActive want none h = absurd cc
read-IsActive want (some active) h = (active, refl, none_missing want active (ground (arith, h)))

reading-IsActive : (want : List ℕ) (o : Option (List ℕ)) → reading want o ≡ ok tt → IsActive want o
reading-IsActive want o h = read-IsActive want o (ground (arith, h))

-- Why the call passed.
abbrev pub IsJoined : List ℕ → Admission → ℕ → Type 0
IsJoined want a d =
    (want ≡ [])
    ⊎ IsActive want a.before
    ⊎ ((a.sealing ≡ none) × ((n : ℕ) × (n ≤ d) × IsActive want (a.after n)))

module _ (a : Admission) (d : ℕ) (late : a.expired d ≡ true) where
  awaited :
      (want : List ℕ)
      → (r : Result ActivationError (Unit {0})) × (await_validators want a (suc d) ≡ some r)
        × (r ≡ ok tt → (n : ℕ) × (n ≤ d) × IsActive want (a.after n))
  awaited want =
      let rounds : Rounds ActivationError = record {
        attempt = λ i. reading want (a.after i);
        expired = a.expired;
        slept = a.slept;
      } in
      let (r, e) = poll_ends (λ e. e) context_ended rounds d late in
      (
        r,
        e,
        λ p.
            let (n, lt, found) =
              (poll-IsReached (λ e. e) context_ended rounds (suc d)).0 (e ∙ ap some p) in
            (n, omega arith, reading-IsActive want (a.after n) found.agrees),
      )

  sealed :
      (want : List ℕ)
      → (r : Result ActivationError (Unit {0})) × (seal_and_await want a (suc d) ≡ some r)
        × (r ≡ ok tt → IsJoined want a d)
  sealed want = elim (Option-cases a.sealing) [
    | inr (e, f) ↦ (err (unsealed e), ground (arith, f), λ p. absurd cc)
    | inl f ↦ let (r, e, g) = awaited want in (r, ground (arith, f, e), λ p. inr (inr (f, g p)))
  ]

  produced :
      ((c : Client) → a.producer ≡ some c → c.done d ≡ true)
      → (o : Option Client) → a.producer ≡ o
      → (r : Result WaitError (Unit {0})) × (wait_for_block_production o (suc d) ≡ some r)
  unfolding wait_for_block_production
  produced ended none h = (ok tt, refl)
  produced ended (some c) h =
      let (r, e, g) = wait_for_block_production_answers c d (ended c h) in (r, e)

  -- Once the deadline of the poll has passed in round `d`, and the context has ended in it for the node
  -- that is asked for new blocks, ensureValidatorsActive has answered. Where it passes, no validator was
  -- named, or a validator set that holds all of them was read at the start, or the epoch was sealed and
  -- a set that holds all of them was read in one of the rounds up to `d`.
  pub ensure_validators_active-IsJoined :
      (want : List ℕ)
      → ((c : Client) → a.producer ≡ some c → c.done d ≡ true)
      → (r : Result ActivationError (Unit {0})) × (ensure_validators_active want a (suc d) ≡ some r)
        × (r ≡ ok tt → IsJoined want a d)
  unfolding ensure_validators_active
  ensure_validators_active-IsJoined [] ended = (ok tt, refl, λ p. inl refl)
  ensure_validators_active-IsJoined (id ∷ ids) ended = elim (Bool-cases a.dials) [
    | inr f ↦ (err unconnected, rw (ensure_validators_active, f), λ p. absurd cc)
    | inl f ↦ elim (Option-cases (lacking (id ∷ ids) a.before)) [
      | inl g ↦ (
        ok tt,
        rw (ensure_validators_active, f, g),
        λ p. inr (inl (read-IsActive (id ∷ ids) a.before g)),
      )
      | inr (x, g) ↦
          let (w, e) = produced ended a.producer refl in
          elim (Result-cases w) [
            | inr (s, k) ↦
                (err (stalled s), rw (ensure_validators_active, f, g, e, k), λ p. absurd cc)
            | inl (u, k) ↦
                let (r, m, n) = sealed (id ∷ ids) in
                let sealing : ensure_validators_active (id ∷ ids) a (suc d)
                    ≡ seal_and_await (id ∷ ids) a (suc d) =
                  rw (ensure_validators_active, f, g, e, k) in
                (r, sealing ∙ m, n)
          ]
    ]
  ]
