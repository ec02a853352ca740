-- ===== src/Tests/NodesTests.antt =====
-- The steps on nodes against a network that counts its validators.
use norma.Base.{
  ℕ, suc, ◌≡◌, refl, arith, true, false, none, some, List, [], ◌∷◌, String, string_comparable,
}
use norma.Base.Map.{lookup, insert, delete}
use norma.Base.Results.{ok, err}
use norma.Parser.Functions.{StepFunction}
use norma.Parser.Scenario.{Step, step_of}
use norma.Executor.State.{Node, RunState, new_run_state}
use norma.Executor.Names.{decimal, decimal_from, is_target, is_int}
use norma.Executor.Nodes.{
  Network, exec_start_node, start_new, settle_ids, settle_id, create_nodes, record_nodes,
  names_from, sync_nodes,
}
use norma.Executor.Stops.{exec_stop_node, targets_of, forget, stop_all}
use norma.Executor.Recorded.{IsRecorded}
use norma.Executor.Identity.{starts, stops, NodeStep, run_node_steps, validators_keep_ids}

three_digits : decimal 120 ≡ "120"
unfolding decimal_from
three_digits = refl

an_instance : is_target "val" "val-12" ≡ true
unfolding is_target is_int
an_instance = refl

another_node : is_target "val" "val-extra" ≡ false
unfolding is_target is_int
another_node = refl

-- The state counts the validators registered.
abbrev counting : Network ℕ ℕ
counting = record {
  block_height = λ w. ok 9;
  is_empty_network = λ e. false;
  register_new_validator = λ stake w. ok (suc w, suc w);
  ensure_validators_active = λ ids w. ok w;
  create_node = λ c w. ok (record { handle = w; validator_id = c.validator_id }, w);
  remove_node = λ n w. ok w;
  stop_node = λ n w. ok w;
  clean_up = λ n w. ok w;
  sync = λ n h w. (w, none);
  start_sonicd = λ n w. ok w;
  start_sonicd_as_observer = λ n w. ok w;
  wait_for_sync = λ n w. ok w;
  reconnect_node = λ n w. ok w;
  resume_node = λ n w. w;
  suspend_node = λ n w. w;
  force_stop_sonicd = λ n w. ok w;
  heal_sonicd = λ n w. ok w;
  create_application = λ c w. err "no applications";
  start_application = λ a w. ok w;
  stop_application = λ a w. ok w;
}

abbrev step : StepFunction → String → Step ℕ
step f name = record (step_of f) { identifier = name; node_type = "validator" }

abbrev restart : List (NodeStep counting)
restart =
    starts (step StepFunction.start_node "B")
    ∷ stops (step StepFunction.stop_node "A")
    ∷ starts (step StepFunction.start_node "A")
    ∷ []

abbrev first_node : Node
first_node = record { handle = 3; validator_id = some 3 }

-- A runs as validator 3.
abbrev one_running : RunState
one_running = record (new_run_state (("A", 3) ∷ [])) {
  nodes = ("A", first_node) ∷ [];
  node_history = ("A", true) ∷ [];
}

abbrev second_node : Node
second_node = record { handle = 4; validator_id = some 3 }

abbrev both_running : RunState
both_running = record (new_run_state (("A", 3) ∷ ("B", 4) ∷ [])) {
  nodes = ("B", record { handle = 4; validator_id = some 4 }) ∷ ("A", second_node) ∷ [];
  node_history = ("A", true) ∷ ("B", true) ∷ [];
}

restarted : run_node_steps counting restart (one_running, 3) ≡ ok (both_running, 4)
unfolding run_node_steps exec_start_node exec_stop_node start_new settle_ids settle_id create_nodes
    record_nodes names_from sync_nodes lookup insert delete targets_of forget stop_all is_target
    is_int
restarted = refl

first_node-IsRecorded : IsRecorded one_running
unfolding lookup
first_node-IsRecorded name n id h e = ground (arith, h, e)

validators_keep_ids_example : ◌≡◌ {A = ℕ} 3 3
unfolding lookup
validators_keep_ids_example =
    validators_keep_ids counting (λ c w w' n h. ground (arith, h)) restart one_running both_running
      3 4 restarted first_node-IsRecorded "A" first_node second_node 3 3 refl refl refl refl
