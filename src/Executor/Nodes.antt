-- ===== src/Executor/Nodes.antt =====
-- The steps on nodes and applications in driver/executor/run.go: execStartNode with
-- restartNodeInPlace, execStopNode, execKillSonic, execHealDb, execRunApp, execStopApp.
use norma.Base.{
  ℕ, zero, suc, ◌+◌, ◌%◌, ◌^◌, Bool, true, false, Option, none, some, List, [], ◌∷◌, ◌++◌, String,
  if◌then◌else◌, ◌==◌, string_comparable,
}
use norma.Base.Int.{ℤ, pos, pos_part}
use norma.Base.Map.{Map, lookup, insert}
use norma.Base.Results.{Result, ok, err, ◌>>=◌}
use norma.Parser.Scenario.{Step}
use norma.Parser.Names.{is_empty}
use norma.Parser.Rates.{Rate}
use norma.Executor.State.{Node, RunState}
use norma.Executor.Names.{instance_name}

-- driver.NodeConfig
pub record NodeConfig : Type 0 where
  pub name : String
  pub failing : Bool
  pub image : String
  pub validator : Bool
  pub validator_id : Option ℕ
  pub data_volume : Option String
  pub extra_arguments : String

-- driver.ApplicationConfig
pub record ApplicationConfig (F : Type 0) : Type 0 where
  pub name : String
  pub type : String
  pub rate : Option (Rate F)
  pub users : ℤ

-- The network that the steps act on, with the registration of validators, on a state `W`. Each
-- operation gives the new state, or the error that ends the step. `sync` is waitForNodeSync.
pub record Network (F W : Type 0) : Type 0 where
  pub block_height : W → Result String ℕ
  pub is_empty_network : String → Bool
  pub register_new_validator : ℕ → W → Result String (ℕ × W)
  pub ensure_validators_active : List ℕ → W → Result String W
  pub create_node : NodeConfig → W → Result String (Node × W)
  pub remove_node : Node → W → Result String W
  pub stop_node : Node → W → Result String W
  pub clean_up : Node → W → Result String W
  pub sync : Node → ℕ → W → W × Option String
  pub start_sonicd : Node → W → Result String W
  pub start_sonicd_as_observer : Node → W → Result String W
  pub wait_for_sync : Node → W → Result String W
  pub reconnect_node : Node → W → Result String W
  pub resume_node : Node → W → W
  pub suspend_node : Node → W → W
  pub force_stop_sonicd : Node → W → Result String W
  pub heal_sonicd : Node → W → Result String W
  pub create_application : ApplicationConfig F → W → Result String (ℕ × W)
  pub start_application : ℕ → W → Result String W
  pub stop_application : ℕ → W → Result String W

pub data NodeError : Type 0 where
  failed : String → NodeError
  no_preserved_id : String → NodeError
  not_found : String → NodeError
  no_sync_target : String → NodeError
  block_not_reached : String → NodeError

abbrev pub or_failed : {A : Type 0} → Result String A → Result NodeError A
or_failed (ok a) = ok a
or_failed (err e) = err (failed e)

abbrev wrapped : ℕ → ℕ
wrapped n = n % 2 ^ 64

abbrev pub default_image : String
default_image = "sonic:local"

abbrev if_empty : String → String → String
if_empty s default = if is_empty s then default else s

-- dataVolumePtr
abbrev data_volume_ptr : String → Option String
data_volume_ptr s = if is_empty s then none else some s

abbrev pub or_one : Option ℤ → ℤ
or_one none = pos 1
or_one (some n) = n

abbrev or_zero : Option ℕ → ℕ
or_zero none = 0
or_zero (some n) = n

-- The names of the instances from `i` on.
unfoldable pub names_from : String → ℕ → ℕ → ℕ → List String
names_from name instances i zero = []
names_from name instances i (suc left) =
    instance_name name instances i ∷ names_from name instances (suc i) left

abbrev pub instance_names : String → ℕ → List String
instance_names name n = names_from name n 0 n

-- A name with the validator id that is settled for it.
abbrev pub Assigned : Type 0
Assigned = String × Option ℕ

-- The ids of the instances, and those that must be active.
pub record Assignment : Type 0 where
  pub assigned : List Assigned
  pub must_be_active : List ℕ

abbrev pub assign : String → Option ℕ → List ℕ → Assignment → Assignment
assign name id active rest = record {
  assigned = (name, id) ∷ rest.assigned;
  must_be_active = active ++ rest.must_be_active;
}

abbrev record_id : String → Option ℕ → Map String ℕ → Map String ℕ
record_id name none ids = ids
record_id name (some id) ids = insert name id ids

abbrev pub record_node : Assigned × Node → RunState → RunState
record_node ((name, id), n) s = record s {
  nodes = insert name n s.nodes;
  node_history = insert name true s.node_history;
  validator_ids = record_id name id s.validator_ids;
}

unfoldable pub record_nodes : List (Assigned × Node) → RunState → RunState
record_nodes [] s = s
record_nodes (r ∷ rs) s = record_nodes rs (record_node r s)

abbrev pub mark_started : String → RunState → RunState
mark_started name s = record s { node_history = insert name true s.node_history }

abbrev has_started : String → RunState → Bool
has_started name s = elim (lookup name s.node_history) [ none ↦ false | some b ↦ b ]

abbrev pub node_config : {F : Type 0} → Step F → Assigned → NodeConfig
node_config step (name, id) = record {
  name = name;
  failing = step.failing;
  image = if_empty step.image_name default_image;
  validator = step.node_type == "validator";
  validator_id = id;
  data_volume = data_volume_ptr step.data_volume;
  extra_arguments = step.extra_arguments;
}

module _ {F W : Type 0} (net : Network F W) where
  open net use {
    block_height, is_empty_network, register_new_validator, ensure_validators_active, create_node,
    remove_node, stop_node, clean_up, sync, start_sonicd, start_sonicd_as_observer, wait_for_sync,
    reconnect_node, resume_node, suspend_node, force_stop_sonicd, heal_sonicd, create_application,
    start_application, stop_application,
  }

  -- The id of one instance: the one it had, or a new one.
  unfoldable pub settle_id : RunState → Bool → ℕ → String → W → Result NodeError (ℕ × List ℕ × W)
  settle_id s rejoins stake name w = elim (lookup name s.validator_ids) [
    | some id ↦ ok (id, if rejoins then id ∷ [] else [], w)
    | none ↦
        if rejoins
        then err (no_preserved_id name)
        else (do (id, w') ← or_failed (register_new_validator stake w); ok (id, id ∷ [], w'))
  ]

  -- The loop that registers validators, one instance after the other.
  unfoldable pub settle_ids :
      RunState → Bool → Bool → ℕ → List String → W → Result NodeError (Assignment × W)
  settle_ids s validator rejoins stake [] w = ok (record { assigned = []; must_be_active = [] }, w)
  settle_ids s validator rejoins stake (name ∷ names) w =
      if validator
      then (do
        (id, active, w') ← settle_id s rejoins stake name w
        (rest, w'') ← settle_ids s validator rejoins stake names w'
        ok (assign name (some id) active rest, w''))
      else (do
        (rest, w') ← settle_ids s validator rejoins stake names w
        ok (assign name none [] rest, w'))

  -- The nodes that the step creates. They are created at the same time; the order does not matter to
  -- the executor's state.
  unfoldable pub create_nodes :
      Step F → List Assigned → W → Result NodeError (List (Assigned × Node) × W)
  create_nodes step [] w = ok ([], w)
  create_nodes step (a ∷ others) w = do
    (n, w') ← or_failed (create_node (node_config step a) w)
    (rest, w'') ← create_nodes step others w'
    ok ((a, n) ∷ rest, w'')

  -- The wait for the new nodes; a wait that fails is only logged.
  unfoldable pub sync_nodes : List (Assigned × Node) → ℕ → W → W
  sync_nodes [] target w = w
  sync_nodes ((a, n) ∷ rs) target w = sync_nodes rs target (sync n target w).0

  abbrev activate : Bool → List ℕ → W → Result NodeError W
  activate failing [] w = ok w
  activate failing (id ∷ ids) w =
      if failing then ok w else or_failed (ensure_validators_active (id ∷ ids) w)

  -- getNetworkBlockHeight is 0 with an error.
  abbrev target_block : W → ℕ
  target_block w = elim (block_height w) [ ok h ↦ h | err e ↦ 0 ]

  -- execStartNode on a node that is not tracked.
  unfoldable pub start_new : Step F → RunState → W → Result NodeError (RunState × W)
  start_new step s w = do
    let name = step.identifier
    let names = instance_names name (pos_part (or_one step.instances))
    let rejoins = has_started name s
    let target = wrapped (target_block w + 1)
    (plan, w1) ← settle_ids s (step.node_type == "validator") rejoins (or_zero step.stake) names w
    (results, w2) ← create_nodes step plan.assigned w1
    let w3 = if step.failing then w2 else sync_nodes results target w2
    w4 ← activate step.failing plan.must_be_active w3
    ok (mark_started name (record_nodes results s), w4)

  -- The height that a restarted node has to reach, 0 where there is no network to ask.
  abbrev restart_target : W → Result NodeError ℕ
  restart_target w = elim (block_height w) [
    | ok h ↦ ok h
    | err e ↦ if is_empty_network e then ok 0 else err (no_sync_target e)
  ]

  abbrev reach : Node → ℕ → W → Result NodeError W
  reach n zero w = ok w
  reach n (suc h) w =
      let (w', error) = sync n (wrapped (suc h + 1)) w in
      elim error [ none ↦ ok w' | some e ↦ err (block_not_reached e) ]

  -- restartNodeInPlace
  unfoldable pub restart_node_in_place : Step F → Node → W → Result NodeError W
  restart_node_in_place step n w = do
    target ← restart_target w
    w1 ←
        or_failed
          (if step.node_type == "validator" then start_sonicd n w else start_sonicd_as_observer n w)
    w2 ← or_failed (wait_for_sync n w1)
    w3 ← or_failed (reconnect_node n w2)
    reach n target (resume_node n w3)

  -- execStartNode
  unfoldable pub exec_start_node : Step F → RunState → W → Result NodeError (RunState × W)
  exec_start_node step s w = elim (lookup step.identifier s.nodes) [
    | some n ↦ do w' ← restart_node_in_place step n w; ok (s, w')
    | none ↦ start_new step s w
  ]
