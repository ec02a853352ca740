-- ===== src/Executor/Run.antt =====
-- The loop over the steps of a scenario in driver/executor/run.go: `runWithObserver` with
-- `requiresBlockProductionCheck`, the checks of a `checks` step, and `waitForBlockProduction`.
pub mod Prefixes
pub mod Production
pub use norma.Parser.Functions.{StepFunction}
use norma.Base.{
  ℕ, zero, suc, ◌+◌, Bool, true, false, not, Option, none, some, List, [], ◌∷◌, String, ltb,
  if◌then◌else◌, ◌==◌, string_comparable,
}
use norma.Base.Map.{Map, lookup}
use norma.Base.Results.{Result, ok, err, ◌>>=◌}

-- What the loop reads of a step.
pub record Step : Type 0 where
  pub function : StepFunction
  pub identifier : String
  pub failing : Bool

-- requiresBlockProductionCheck
abbrev by_function : StepFunction → Bool → Bool
by_function StepFunction.start_node failing = not failing
by_function StepFunction.run_app failing = true
by_function StepFunction.update_rules failing = true
by_function StepFunction.advance_epoch failing = true
by_function StepFunction.stop_node failing = false
by_function StepFunction.delegate failing = false
by_function StepFunction.undelegate failing = false
by_function StepFunction.verify_stakes failing = false
by_function StepFunction.wait_for_epoch failing = false
by_function StepFunction.stop_app failing = false
by_function StepFunction.checks failing = false
by_function StepFunction.wait_for failing = false
by_function StepFunction.kill_sonic failing = false
by_function StepFunction.heal_db failing = false

abbrev pub requires_block_production : Step → Bool
requires_block_production s = by_function s.function s.failing

-- What a run needs of its surroundings: whether the context has ended before a step, the handlers
-- of the steps, and waitForBlockProduction, on a state `S` of the executor and the network. That wait,
-- which Production models, passes where no node can be dialed.
pub record Env (S : Type 0) : Type 0 where
  pub cancelled : S → Bool
  pub execute : Step → S → S × Option String
  pub await_block : S → S × Option String

pub data Outcome : Type 0 where
  completed : Outcome
  aborted : ℕ → Outcome
  failed : ℕ → String → Outcome
  unstable : ℕ → String → Outcome

-- How a run ended, the steps whose execution was observed, in order, and the state it left.
pub record Ending (S : Type 0) : Type 0 where
  pub outcome : Outcome
  pub observed : List ℕ
  pub final : S

abbrev pub observe : {S : Type 0} → ℕ → Ending S → Ending S
observe n e = record e { observed = n ∷ e.observed }

abbrev pub stop_at : {S : Type 0} → Outcome → S → Ending S
stop_at o s = record { outcome = o; observed = []; final = s }

module _ {S : Type 0} (env : Env S) where
  -- The loop from step `n` on; steps are counted from 1.
  unfoldable pub run_from : ℕ → List Step → S → Ending S
  run_from n [] s = stop_at completed s
  run_from n (step ∷ steps) s =
      let (s', error) = env.execute step s in
      let (s'', stalled) = env.await_block s' in
      let next = run_from (suc n) steps s' in
      let next' = run_from (suc n) steps s'' in
      if env.cancelled s
      then stop_at (aborted n) s
      else observe n (elim error [
        | some e ↦ stop_at (failed n e) s'
        | none ↦
            if requires_block_production step
            then (elim stalled [ some e ↦ stop_at (unstable n e) s'' | none ↦ next' ])
            else next
      ])

  -- runWithObserver, after the scenario's own check passed.
  abbrev pub run_steps : List Step → S → Ending S
  run_steps steps s = run_from 1 steps s
