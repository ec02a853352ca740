-- ===== src/Node/Lifecycle/Diagram.antt =====
-- The diagram in the comment on NodeState in driver/node/node_state.go, read as a relation.
use norma.Base.{◌≡◌, ◌⊎◌}
use norma.Node.Lifecycle.{
  NodeState, uninitialized, initializing, ready, syncing, running, stopping, killed, healing,
}

-- The arrows of the diagram, the returns of a failed action to the state it started from, and the
-- exit of a client on its own.
pub data Edge : NodeState → NodeState → Type 0 where
  claimed_initialize : Edge uninitialized initializing
  initialized : Edge initializing ready
  initialize_failed : Edge initializing uninitialized
  claimed_start : Edge ready syncing
  start_failed : Edge syncing ready
  synced : Edge syncing running
  claimed_stop : Edge running stopping
  stopped : Edge stopping ready
  stop_failed : Edge stopping running
  force_stopped : Edge running killed
  escalated : Edge stopping killed
  exited_syncing : Edge syncing killed
  claimed_heal : Edge killed healing
  healed : Edge healing ready
  heal_failed : Edge healing killed

-- A walk along the diagram.
pub data Walk : NodeState → NodeState → Type 0 where
  here : {s : NodeState} → Walk s s
  further : {s t u : NodeState} → Walk s t → Edge t u → Walk s u

-- A change of state that the diagram has, or no change.
abbrev pub Allowed : NodeState → NodeState → Type 0
Allowed s t = (s ≡ t) ⊎ Edge s t
