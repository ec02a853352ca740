-- ===== src/Tests/LifecycleTests.antt =====
-- Runs of a node's lifecycle.
use norma.Base.{arith, ◌⊎◌, inl, inr, ℕ, ◌+◌, ◌≤◌, ◌≡◌, ◌↔◌, refl, Bool, false, none, List, [], ◌∷◌}
use norma.Node.Lifecycle.{
  NodeState, uninitialized, initializing, ready, syncing, running, stopping, killed, healing,
  OperaNode, new_node, Phase, begin, resume, initialize, start_sonicd, force_stop_sonicd, preparing,
  start_scanning, launching, interrupting, killing, failed, replied,
}
use norma.Node.Lifecycle.Diagram.{Allowed, Walk}
use norma.Node.Lifecycle.Steps.{
  System, first, later, Step, called, answered, Reachable, created, moved, number, initializes,
  starts, stops, heals,
}
use norma.Node.Lifecycle.Followed.{follows_diagram, actions_are_exclusive}

abbrev node : NodeState → ℕ → OperaNode
node s gen = record { state = s; client_gen = gen; exit_was_unexpected = false; client = none }

abbrev system : OperaNode → List Phase → System
system n ps = record { node = n; phases = ps }

initialized_system : Reachable (system (node ready 0) [])
unfolding begin resume
initialized_system =
    moved
      (moved created
        (called {n = new_node} {m = node initializing 0} {p = preparing} {ps = []} initialize refl)
        tt)
      (answered {n = node initializing 0} preparing (replied 0) first) tt

start : Step (system (node ready 0) []) (system (node syncing 1) (start_scanning 1 ∷ []))
unfolding begin
start = called start_sonicd refl

started_system : Reachable (system (node syncing 1) (start_scanning 1 ∷ []))
unfolding number start
started_system = moved initialized_system start refl

abbrev no_client_found : System
no_client_found = system (node syncing 1) (launching 1 ∷ [])

scanned : Step (system (node syncing 1) (start_scanning 1 ∷ [])) no_client_found
unfolding resume
scanned = answered (start_scanning 1) (replied 0) first

follows_diagram_example : Allowed syncing syncing × Walk uninitialized syncing
unfolding scanned
follows_diagram_example = follows_diagram started_system scanned tt

actions_are_exclusive_example :
    let kinds : (Phase → Bool) → ℕ = λ k. number k (start_scanning 1 ∷ []) in
    (kinds initializes + kinds starts + kinds stops + kinds heals ≤ 1)
    × ((kinds initializes ≡ 1) ↔ (syncing ≡ initializing))
    × ((kinds heals ≡ 1) ↔ (syncing ≡ healing))
    × ((kinds starts ≡ 0) ⊎ (syncing ≡ syncing))
    × ((kinds stops ≡ 0) ⊎ (syncing ≡ stopping))
actions_are_exclusive_example = actions_are_exclusive started_system

-- A kill that is called while a stop is still sending its signal is undone when the signal fails:
-- the node is running again although its client was killed, which no arrow of the diagram allows.
kill_during_stop :
    Step
      (system (node stopping 1) (interrupting ∷ []))
      (system (node killed 1) (killing ∷ interrupting ∷ []))
unfolding begin
kill_during_stop = called force_stop_sonicd refl

kill_undone :
    Step
      (system (node killed 1) (killing ∷ interrupting ∷ []))
      (system (node running 1) (killing ∷ []))
unfolding resume
kill_undone = answered interrupting failed (later first)

kill_undone-disallowed : ¬ Allowed killed running
kill_undone-disallowed (inl e) = ground arith
kill_undone-disallowed (inr edge) = elim edge [ ]
