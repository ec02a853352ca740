-- ===== src/Checking/Rules/Converged.antt =====
-- When the network rules check passes, with its polling.
use norma.Base.{
  ℕ, ◌≡◌, ◌<◌, ◌↔◌, ◌⊎◌, refl, inl, inr, Bool, true, false, none, some, List, arith, Bool-cases,
}
use norma.Base.Int.{pos, ltb_ℤ, ◌≤ℤ◌, ◌<ℤ◌}
use norma.Base.Results.{ok, Result-cases}
use norma.Genesis.RulesPatch.{Opera, sets_nothing}
use norma.Checking.Poll.{Rounds, IsRetried, poll, poll-IsReached}
use norma.Checking.Rules.{
  RulesNode, RulesConfig, RulesError, check_rules, check_rules_once, not_converged, interrupted,
}
use norma.Checking.Rules.Applied.{IsApplied, check_rules_once-IsApplied}

module _ {Rules : Type 0} (o : Opera Rules) (c : RulesConfig) (seen : ℕ → List (RulesNode Rules))
    (expired slept : ℕ → Bool) where
  -- The patch is applied on the nodes of round `i`.
  abbrev pub AppliedAt : ℕ → Type 0
  AppliedAt i = IsApplied o c.rules_patch (seen i)

  -- Round `i` is the first one with the rules, and no deadline or interrupt came before it.
  pub record IsConverged (fuel i : ℕ) : Type 0 where
    pub fuelled : i < fuel
    pub applied : AppliedAt i
    pub first : (m : ℕ) → m < i → ¬ AppliedAt m
    pub early : (m : ℕ) → m < i → expired m ≡ false
    pub awake : (m : ℕ) → m < i → slept m ≡ true

  abbrev rounds : Rounds RulesError
  rounds = record {
    attempt = λ i. check_rules_once o c.rules_patch (seen i);
    expired = expired;
    slept = slept;
  }

  once : (i : ℕ) → (rounds.attempt i ≡ ok tt) ↔ AppliedAt i
  once i = check_rules_once-IsApplied o c.rules_patch (seen i)

  refused : (i : ℕ) → IsRetried rounds i → ¬ AppliedAt i
  refused i r a =
      let (e, failed) = r.disagrees in
      let passed = (once i).1 a in absurd (ground (arith, failed, passed))

  retried : (i m : ℕ) (fuel : ℕ) → IsConverged fuel i → m < i → IsRetried rounds m
  retried i m fuel v lt = record {
    disagrees = elim (Result-cases (rounds.attempt m)) [
      | inl (u, e) ↦ absurd (v.first m lt ((once m).0 e))
      | inr found ↦ found
    ];
    early = v.early m lt;
    awake = v.awake m lt;
  }

  polled_iff :
      (fuel : ℕ)
      → (poll not_converged interrupted rounds fuel ≡ some (ok tt)) ↔ ((i : ℕ) × IsConverged fuel i)
  polled_iff fuel = (
    λ h.
        let (i, lt, found) = (poll-IsReached not_converged interrupted rounds fuel).0 h in
        (
          i,
          record {
            fuelled = lt;
            applied = (once i).0 found.agrees;
            first = λ m l. refused m (found.before m (omega arith) l);
            early = λ m l. (found.before m (omega arith) l).early;
            awake = λ m l. (found.before m (omega arith) l).awake;
          },
        ),
    λ (i, v). (poll-IsReached not_converged interrupted rounds fuel).1 (
      i,
      v.fuelled,
      record {
        later = omega arith;
        agrees = (once i).1 v.applied;
        before = λ m lo l. retried i m fuel v l;
      },
    ),
  )

  -- A check of a patch that sets something, configured without an error, passes exactly where: without
  -- a timeout, the patch is applied at once; with one, it is applied in some round that the fuel
  -- reaches, and every round before it missed it before the deadline and waited without an interrupt.
  pub check_rules-IsConverged :
      (fuel : ℕ)
      → c.configure_err ≡ none
      → sets_nothing c.rules_patch ≡ false
      → (check_rules o c seen expired slept fuel ≡ some (ok tt)) ↔ (
          (c.timeout ≤ℤ pos 0) × AppliedAt 0
          ⊎ (pos 0 <ℤ c.timeout) × ((i : ℕ) × IsConverged fuel i))
  unfolding check_rules
  check_rules-IsConverged fuel f g = elim (Bool-cases (ltb_ℤ (pos 0) c.timeout)) [
    | inr single ↦ (
      λ h. inl (ground (arith, single), (once 0).0 (ground (arith, f, g, single))),
      λ x. elim x [
        | inl (low, a) ↦ rw (check_rules, f, g, single, (once 0).1 a) refl
        | inr (high, a) ↦ absurd (ground (arith, single))
      ],
    )
    | inl polled ↦ (
      λ h. inr (ground (arith, polled), (polled_iff fuel).0 (rw (check_rules, f, g, polled) at h)),
      λ x. elim x [
        | inl (low, a) ↦ absurd (ground (arith, polled))
        | inr (high, found) ↦ rw (check_rules, f, g, polled) ((polled_iff fuel).1 found)
      ],
    )
  ]
