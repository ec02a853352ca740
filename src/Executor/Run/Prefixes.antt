-- ===== src/Executor/Run/Prefixes.antt =====
-- Which steps a run executes, and what it has established when it completes.
use norma.Base.{
  ℕ, zero, suc, ◌++◌, take, sym, String, Bool, append_assoc, append-nil, ◌+◌, ◌≡◌, ◌≤◌, refl, ap,
  subst, ◌∙◌, ◌↔◌, inl, inr, true, false, none, List, [], ◌∷◌, arith, length, Bool-cases,
  Option-cases,
}
use norma.Executor.Run.{
  StepFunction, stop_at, Step, Env, Outcome, completed, aborted, failed, unstable, Ending, run_from,
  run_steps, requires_block_production, observe,
}

-- The numbers from `n` on.
abbrev pub count_up : ℕ → ℕ → List ℕ
count_up n zero = []
count_up n (suc k) = n ∷ count_up (suc n) k

-- Where a run that executed `k` of `total` steps from step `n` on may end.
abbrev pub EndsAfter : ℕ → ℕ → ℕ → Outcome → Type 0
EndsAfter n total k completed = k ≡ total
EndsAfter n total k (aborted m) = (m ≡ n + k) × (suc k ≤ total)
EndsAfter n total k (failed m e) = (suc m ≡ n + k) × (k ≤ total)
EndsAfter n total k (unstable m e) = (suc m ≡ n + k) × (k ≤ total)

EndsAfter-suc :
    (n total k : ℕ) (o : Outcome) → EndsAfter (suc n) total k o → EndsAfter n (suc total) (suc k) o
EndsAfter-suc n total k completed h = omega arith
EndsAfter-suc n total k (aborted m) h = omega arith
EndsAfter-suc n total k (failed m e) h = omega arith
EndsAfter-suc n total k (unstable m e) h = omega arith

-- The steps after which the network has to produce a block.
pub data AwaitsBlock : Step → Type 0 where
  start_awaits :
      (step : Step)
      → step.function ≡ StepFunction.start_node
      → step.failing ≡ false
      → AwaitsBlock step
  app_awaits : (step : Step) → step.function ≡ StepFunction.run_app → AwaitsBlock step
  rules_await : (step : Step) → step.function ≡ StepFunction.update_rules → AwaitsBlock step
  epoch_awaits : (step : Step) → step.function ≡ StepFunction.advance_epoch → AwaitsBlock step

requires-AwaitsBlock :
    (f : StepFunction) (id : String) (failing : Bool)
    → let step : Step = record { function = f; identifier = id; failing = failing } in
      requires_block_production step ≡ true → AwaitsBlock step
requires-AwaitsBlock StepFunction.start_node id failing h = start_awaits _ refl (ground (arith, h))
requires-AwaitsBlock StepFunction.run_app id failing h = app_awaits _ refl
requires-AwaitsBlock StepFunction.update_rules id failing h = rules_await _ refl
requires-AwaitsBlock StepFunction.advance_epoch id failing h = epoch_awaits _ refl
requires-AwaitsBlock StepFunction.stop_node id failing h = absurd cc
requires-AwaitsBlock StepFunction.delegate id failing h = absurd cc
requires-AwaitsBlock StepFunction.undelegate id failing h = absurd cc
requires-AwaitsBlock StepFunction.verify_stakes id failing h = absurd cc
requires-AwaitsBlock StepFunction.wait_for_epoch id failing h = absurd cc
requires-AwaitsBlock StepFunction.stop_app id failing h = absurd cc
requires-AwaitsBlock StepFunction.checks id failing h = absurd cc
requires-AwaitsBlock StepFunction.wait_for id failing h = absurd cc
requires-AwaitsBlock StepFunction.kill_sonic id failing h = absurd cc
requires-AwaitsBlock StepFunction.heal_db id failing h = absurd cc

AwaitsBlock-requires : (step : Step) → AwaitsBlock step → requires_block_production step ≡ true
AwaitsBlock-requires step (start_awaits _ e live) = rw (e, live)
AwaitsBlock-requires step (app_awaits _ e) = rw e
AwaitsBlock-requires step (rules_await _ e) = rw e
AwaitsBlock-requires step (epoch_awaits _ e) = rw e

module _ {S : Type 0} (env : Env S) where
  -- The steps that were executed, as the state records them: each execution adds its step, and a
  -- wait for a block adds none.
  module _ (log : S → List Step)
      (executes : (step : Step) (s : S) → log (env.execute step s).0 ≡ log s ++ step ∷ [])
      (waits : (s : S) → log (env.await_block s).0 ≡ log s) where
    abbrev IsPrefix : ℕ → List Step → S → Ending S → Type 0
    IsPrefix n steps s e =
        (k : ℕ) × (e.observed ≡ count_up n k)
        × (log e.final ≡ log s ++ take k steps)
        × EndsAfter n (length steps) k e.outcome

    one-IsPrefix :
        (n : ℕ) (step : Step) (steps : List Step) (s s' : S) (o : Outcome)
        → log s' ≡ log s ++ step ∷ []
        → EndsAfter n (suc (length steps)) 1 o
        → IsPrefix n (step ∷ steps) s (observe n (stop_at o s'))
    one-IsPrefix n step steps s s' o h ends = (1, refl, h, ends)

    observe-IsPrefix :
        (n : ℕ) (step : Step) (steps : List Step) (s s' : S) (e : Ending S)
        → log s' ≡ log s ++ step ∷ []
        → IsPrefix (suc n) steps s' e
        → IsPrefix n (step ∷ steps) s (observe n e)
    observe-IsPrefix n step steps s s' e h (k, seen, ran, ends) = (
      suc k,
      ap (λ ns. n ∷ ns) seen,
      ran ∙ ap (λ l. l ++ take k steps) h ∙ append_assoc (log s) (step ∷ []) (take k steps),
      EndsAfter-suc n (length steps) k e.outcome ends,
    )

    run_from-IsPrefix :
        (n : ℕ) (steps : List Step) (s : S) → IsPrefix n steps s (run_from env n steps s)
    unfolding run_from
    run_from-IsPrefix n [] s = (0, refl, sym (append-nil (log s)), refl)
    run_from-IsPrefix n (step ∷ steps) s = elim (Bool-cases (env.cancelled s)) [
      | inl late ↦ rw late (0, refl, sym (append-nil (log s)), omega arith)
      | inr early ↦
          let (s', error) = env.execute step s in
          let s'' = (env.await_block s').0 in
          let logged = waits s' ∙ executes step s in
          elim (Option-cases error) [
            | inr (x, e) ↦
                rw (early, e)
                  (one-IsPrefix n step steps s s' (failed n x) (executes step s) (omega arith))
            | inl e ↦ elim (Bool-cases (requires_block_production step)) [
              | inr free ↦
                  rw (early, e, free)
                    (observe-IsPrefix n step steps s s' (run_from env (suc n) steps s')
                      (executes step s) (run_from-IsPrefix (suc n) steps s'))
              | inl needed ↦ elim (Option-cases (env.await_block s').1) [
                | inr (x, f) ↦
                    rw (early, e, needed, f)
                      (one-IsPrefix n step steps s s'' (unstable n x) logged (omega arith))
                | inl f ↦
                    rw (early, e, needed, f)
                      (observe-IsPrefix n step steps s s'' (run_from env (suc n) steps s'') logged
                        (run_from-IsPrefix (suc n) steps s''))
              ]
            ]
          ]
    ]

    -- Where the state records the steps that are executed: a run executes, and observes, the steps of
    -- a scenario in order from the first on, each once: all of them where it completes, the ones before
    -- the step it names where it was aborted, and the ones up to the step it names where that step
    -- failed or left the network unstable.
    pub run_steps-IsPrefix :
        (steps : List Step) (s : S) → IsPrefix 1 steps s (run_steps env steps s)
    run_steps-IsPrefix steps s = run_from-IsPrefix 1 steps s

  -- One step that a completed run has executed: it was started in time, it succeeded, and where its
  -- function asks for it the wait for a block after it passed.
  pub data Done (step : Step) : S → S → Type 0 where
    settled :
        (s : S)
        → env.cancelled s ≡ false
        → (env.execute step s).1 ≡ none
        → (AwaitsBlock step → ⊥)
        → Done step s (env.execute step s).0
    produced :
        (s : S)
        → env.cancelled s ≡ false
        → (env.execute step s).1 ≡ none
        → AwaitsBlock step
        → (env.await_block (env.execute step s).0).1 ≡ none
        → Done step s (env.await_block (env.execute step s).0).0

  pub data Chain : List Step → S → S → Type 0 where
    ends : (s : S) → Chain [] s s
    then_step :
        (step : Step) (steps : List Step) (s s' s'' : S)
        → Done step s s'
        → Chain steps s' s''
        → Chain (step ∷ steps) s s''

  run_from-Chain :
      (n : ℕ) (steps : List Step) (s : S)
      → (run_from env n steps s).outcome ≡ completed
      → Chain steps s (run_from env n steps s).final
  unfolding run_from
  run_from-Chain n [] s h = ends s
  run_from-Chain n (step ∷ steps) s h = elim (Bool-cases (env.cancelled s)) [
    | inl late ↦ absurd (ground arith)
    | inr early ↦
        let (s', error) = env.execute step s in
        elim (Option-cases error) [
          | inr (x, e) ↦ absurd (ground arith)
          | inl e ↦ elim (Bool-cases (requires_block_production step)) [
            | inr free ↦
                rw (early, e, free)
                  (then_step step steps s s' (run_from env (suc n) steps s').final
                    (settled s early e
                      (λ a. let b = AwaitsBlock-requires step a in ground (arith, b, free)))
                    (run_from-Chain (suc n) steps s' (ground arith)))
            | inl needed ↦
                let (s'', stalled) = env.await_block s' in
                elim (Option-cases stalled) [
                  | inr (x, f) ↦ absurd (ground arith)
                  | inl f ↦
                      rw (early, e, needed, f)
                        (then_step step steps s s'' (run_from env (suc n) steps s'').final
                          (produced s early e
                            (requires-AwaitsBlock step.function step.identifier step.failing needed)
                            f)
                          (run_from-Chain (suc n) steps s'' (ground arith)))
                ]
          ]
        ]
  ]

  Done-run_from :
      (n : ℕ) (step : Step) (steps : List Step) (s s' : S)
      → Done step s s'
      → ((run_from env n (step ∷ steps) s).outcome ≡ (run_from env (suc n) steps s').outcome)
        × ((run_from env n (step ∷ steps) s).final ≡ (run_from env (suc n) steps s').final)
  unfolding run_from
  Done-run_from n step steps s _ (settled _ early e free) =
      let skips : requires_block_production step ≡ false =
        elim (Bool-cases (requires_block_production step)) [
          | inr b ↦ b
          | inl b ↦
              absurd (free (requires-AwaitsBlock step.function step.identifier step.failing b))
        ] in
      rw (early, e, skips) (refl, refl)
  Done-run_from n step steps s _ (produced _ early e needed f) =
      rw (early, e, AwaitsBlock-requires step needed, f) (refl, refl)

  Chain-run_from :
      (n : ℕ) (steps : List Step) (s s' : S)
      → Chain steps s s'
      → ((run_from env n steps s).outcome ≡ completed) × ((run_from env n steps s).final ≡ s')
  unfolding run_from
  Chain-run_from n _ s _ (ends _) = (refl, refl)
  Chain-run_from n _ s s'' (then_step step steps _ s' _ d c) =
      let (o, f) = Done-run_from n step steps s s' d in
      let (o', f') = Chain-run_from (suc n) steps s' s'' c in (o ∙ o', f ∙ f')

  -- A run completes in a state exactly where its steps lead there one by one: each started before
  -- the context ended, each successful, and a start of a node that is not expected to fail, an
  -- application, new rules or an advanced epoch followed by a wait for a block, which passed, while no
  -- other step is followed by one.
  pub run_steps-Chain :
      (steps : List Step) (s s' : S)
      → (((run_steps env steps s).outcome ≡ completed) × ((run_steps env steps s).final ≡ s'))
        ↔ Chain steps s s'
  run_steps-Chain steps s s' = (
    λ (done, last). subst (λ z. Chain steps s z) last (run_from-Chain 1 steps s done),
    Chain-run_from 1 steps s s',
  )
