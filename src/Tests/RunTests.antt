-- ===== src/Tests/RunTests.antt =====
-- The step loop and the wait for a block at concrete runs.
use norma.Base.{
  ◌++◌, take, length, ℕ, ◌+◌, ◌≡◌, ◌↔◌, refl, false, none, some, List, [], ◌∷◌, leb, if◌then◌else◌,
  nat_comparable, ◌==◌,
}
use norma.Base.Results.{Result, ok}
use norma.Executor.Run.{StepFunction, Step, Env, completed, failed, run_from, run_steps}
use norma.Executor.Run.Prefixes.{count_up, EndsAfter, Chain, run_steps-IsPrefix, run_steps-Chain}
use norma.Executor.Run.Production.{
  Client, WaitError, Produced, wait_from, wait_for_block_production,
  wait_for_block_production_answers,
}

-- The state counts the steps executed; the third step fails.
abbrev counting : Env ℕ
counting = record {
  cancelled = λ s. leb 9 s;
  execute = λ step s. (s + 1, if s == 2 then some "stuck" else none);
  await_block = λ s. (s, none);
}

abbrev step : StepFunction → Step
step f = record { function = f; identifier = "A"; failing = false }

abbrev two_steps : List Step
two_steps = step StepFunction.start_node ∷ step StepFunction.stop_node ∷ []

abbrev four_steps : List Step
four_steps =
    step StepFunction.start_node
    ∷ step StepFunction.run_app
    ∷ step StepFunction.stop_app
    ∷ step StepFunction.stop_node
    ∷ []

third_fails :
    run_steps counting four_steps 0
    ≡ record { outcome = failed 3 "stuck"; observed = 1 ∷ 2 ∷ 3 ∷ []; final = 3 }
unfolding run_from
third_fails = refl

-- The state is the list of the steps executed, of which there may be two.
abbrev logging : Env (List Step)
logging = record {
  cancelled = λ s. leb 3 (length s);
  execute = λ step s. (s ++ step ∷ [], if length s == 1 then some "stuck" else none);
  await_block = λ s. (s, none);
}

run_steps-IsPrefix_example :
    (k : ℕ) × ((run_steps logging four_steps []).observed ≡ count_up 1 k)
    × ((run_steps logging four_steps []).final ≡ [] ++ take k four_steps)
    × EndsAfter 1 4 k (run_steps logging four_steps []).outcome
run_steps-IsPrefix_example =
    run_steps-IsPrefix logging (λ s. s) (λ step s. refl) (λ s. refl) four_steps []

run_steps-Chain_example :
    (((run_steps counting two_steps 0).outcome ≡ completed)
      × ((run_steps counting two_steps 0).final ≡ 2))
    ↔ Chain counting two_steps 0 2
run_steps-Chain_example = run_steps-Chain counting two_steps 0 2

-- A block above the first one is read in the fourth round.
abbrev client : Client
client = record { baseline = ok 7; block_number = λ i. ok (if leb 3 i then 8 else 7); done = leb 6 }

client_passes : wait_for_block_production (some client) 7 ≡ some (ok tt)
unfolding wait_for_block_production wait_from
client_passes = refl

wait_for_block_production_answers_example :
    (r : Result WaitError (Unit {0})) × (wait_for_block_production (some client) 7 ≡ some r)
    × (r ≡ ok tt → (baseline : ℕ) × (client.baseline ≡ ok baseline) × Produced client baseline 6)
wait_for_block_production_answers_example = wait_for_block_production_answers client 6 refl
