-- ===== src/Executor/Stops.antt =====
-- The steps that stop, kill and heal nodes, and those on applications, in driver/executor/run.go:
-- execStopNode, execKillSonic, execHealDb, execRunApp, execStopApp.
use norma.Base.{none, some, [], ◌∷◌, String, if◌then◌else◌, string_comparable}
use norma.Base.Map.{Map, lookup, insert, delete}
use norma.Base.Results.{Result, ok, err, ◌>>=◌}
use norma.Parser.Scenario.{Step}
use norma.Executor.State.{Node, RunState}
use norma.Executor.Names.{is_target}
use norma.Executor.Nodes.{Network, NodeError, not_found, or_failed, or_one}

-- The nodes that a name stands for.
unfoldable pub targets_of : String → Map String Node → Map String Node
targets_of base [] = []
targets_of base ((name, n) ∷ nodes) =
    let rest = targets_of base nodes in if is_target base name then (name, n) ∷ rest else rest

unfoldable pub forget : Map String Node → Map String Node → Map String Node
forget [] nodes = nodes
forget ((name, n) ∷ targets) nodes = forget targets (delete name nodes)

module _ {F W : Type 0} (net : Network F W) where
  open net use {
    remove_node, stop_node, clean_up, suspend_node, force_stop_sonicd, heal_sonicd,
    create_application, start_application, stop_application,
  }

  -- The stops, which run at the same time; the first error ends the step.
  unfoldable pub stop_all : Map String Node → W → Result NodeError W
  stop_all [] w = ok w
  stop_all ((name, n) ∷ targets) w = do
    w1 ← or_failed (remove_node n w)
    w2 ← or_failed (stop_node n w1)
    w3 ← or_failed (clean_up n w2)
    stop_all targets w3

  abbrev pub stop_targets :
      String → Map String Node → RunState → W → Result NodeError (RunState × W)
  stop_targets base [] s w = err (not_found base)
  stop_targets base (t ∷ ts) s w = do
    w' ← stop_all (t ∷ ts) w
    ok (record s { nodes = forget (t ∷ ts) s.nodes }, w')

  -- execStopNode
  unfoldable pub exec_stop_node : Step F → RunState → W → Result NodeError (RunState × W)
  exec_stop_node step s w = stop_targets step.identifier (targets_of step.identifier s.nodes) s w

  -- execKillSonic
  unfoldable pub exec_kill_sonic : Step F → RunState → W → Result NodeError (RunState × W)
  exec_kill_sonic step s w = elim (lookup step.identifier s.nodes) [
    | none ↦ err (not_found step.identifier)
    | some n ↦ do w' ← or_failed (force_stop_sonicd n (suspend_node n w)); ok (s, w')
  ]

  -- execHealDb
  unfoldable pub exec_heal_db : Step F → RunState → W → Result NodeError (RunState × W)
  exec_heal_db step s w = elim (lookup step.identifier s.nodes) [
    | none ↦ err (not_found step.identifier)
    | some n ↦ do w' ← or_failed (heal_sonicd n w); ok (s, w')
  ]

  -- execRunApp, on a context that has not ended.
  unfoldable pub exec_run_app : Step F → RunState → W → Result NodeError (RunState × W)
  exec_run_app step s w = do
    (app, w1) ← or_failed (
        create_application
          (record {
            name = step.identifier;
            type = step.app_type;
            rate = step.rate;
            users = or_one step.users;
          })
          w)
    w2 ← or_failed (start_application app w1)
    ok (record s { apps = insert step.identifier app s.apps }, w2)

  -- execStopApp
  unfoldable pub exec_stop_app : Step F → RunState → W → Result NodeError (RunState × W)
  exec_stop_app step s w = elim (lookup step.identifier s.apps) [
    | none ↦ err (not_found step.identifier)
    | some app ↦ do
      w' ← or_failed (stop_application app w)
      ok (record s { apps = delete step.identifier s.apps }, w')
  ]
