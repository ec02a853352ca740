-- ===== src/Node/Lifecycle.antt =====
-- The lifecycle of a node: NodeState of driver/node/node_state.go, the guarded changes of state in
-- driver/node/opera.go (transition, beginClientStart, attachClient, forceSetState), and the actions
-- of driver/node/node_actions.go cut at the points where they give up the lock. Between two such
-- points an action waits for the container, whose answer is an argument.
pub mod Diagram
pub mod Steps
pub mod Claims
pub mod Answers
pub mod Followed
use norma.Base.{
  ℕ, zero, suc, Bool, true, false, ◌||◌, Option, none, some, List, [], ◌∷◌, if◌then◌else◌, ◌==◌,
  nat_comparable, any,
}

pub data NodeState : Type 0 where
  uninitialized initializing ready syncing running stopping killed healing : NodeState

abbrev rank : NodeState → ℕ
rank uninitialized = 0
rank initializing = 1
rank ready = 2
rank syncing = 3
rank running = 4
rank stopping = 5
rank killed = 6
rank healing = 7

-- `s == t` on states, which are numbered in the order of their declaration.
abbrev pub is : NodeState → NodeState → Bool
is s t = rank s == rank t

-- The fields of OperaNode that the lifecycle changes; `client` is the generation whose process was
-- attached last. The generation is a 64-bit counter of the starts of one node, left unbounded.
pub record OperaNode : Type 0 where
  pub state : NodeState
  pub client_gen : ℕ
  pub exit_was_unexpected : Bool
  pub client : Option ℕ

abbrev pub new_node : OperaNode
new_node = record {
  state = uninitialized;
  client_gen = 0;
  exit_was_unexpected = false;
  client = none;
}

abbrev pub force_set_state : NodeState → OperaNode → OperaNode
force_set_state s n = record n { state = s }

-- transitionFromAny; `none` is its error.
abbrev pub transition_from_any : NodeState → List NodeState → OperaNode → Option OperaNode
transition_from_any to from n = if any (is n.state) from then some (force_set_state to n) else none

abbrev pub transition : NodeState → NodeState → OperaNode → Option OperaNode
transition from to n = transition_from_any to (from ∷ []) n

-- beginClientStart; the new generation is the node's.
abbrev pub begin_client_start : OperaNode → Option OperaNode
begin_client_start n =
    if is n.state ready
    then some
        (record n { state = syncing; client_gen = suc n.client_gen; exit_was_unexpected = false })
    else none

abbrev pub attach_client : ℕ → OperaNode → OperaNode
attach_client gen n = if n.client_gen == gen then record n { client = some gen } else n

-- recordUnexpectedClientExit
abbrev pub record_unexpected_client_exit : ℕ → OperaNode → OperaNode
record_unexpected_client_exit gen n =
    if n.client_gen == gen
    then if is n.state syncing || is n.state running
      then record n { state = killed; exit_was_unexpected = true }
      else n
    else n

pub data Action : Type 0 where
  initialize start_sonicd wait_for_sync stop_sonicd force_stop_sonicd heal_sonicd : Action

-- What an action, or the watcher of a client, is waiting for.
pub data Phase : Type 0 where
  preparing : Phase
  start_scanning : ℕ → Phase
  launching : ℕ → Phase
  connecting : Phase
  interrupting : Phase
  exit_awaited : Phase
  killing : Phase
  heal_scanning : Phase
  repairing : Phase
  watching : ℕ → Phase

-- What the container answered: an error, or success with the number of clients that a scan found,
-- which is 0 for other commands.
pub data Answer : Type 0 where
  failed : Answer
  replied : ℕ → Answer

abbrev then_wait : Phase → Option OperaNode → Option (OperaNode × Phase)
then_wait p none = none
then_wait p (some n) = some (n, p)

-- An action up to its first wait: the claim of its state, or the error of a node that is elsewhere.
unfoldable pub begin : Action → OperaNode → Option (OperaNode × Phase)
begin initialize n = then_wait preparing (transition uninitialized initializing n)
begin start_sonicd n = then_wait (start_scanning (suc n.client_gen)) (begin_client_start n)
begin wait_for_sync n = if is n.state syncing then some (n, connecting) else none
begin stop_sonicd n = then_wait interrupting (transition running stopping n)
begin force_stop_sonicd n =
    then_wait killing (transition_from_any killed (running ∷ stopping ∷ []) n)
begin heal_sonicd n = then_wait heal_scanning (transition killed healing n)

abbrev pub or_keep : OperaNode → Option OperaNode → OperaNode
or_keep n none = n
or_keep n (some m) = m

-- Initialize, when its files are written or have failed to be.
abbrev resume_preparing : Answer → OperaNode → OperaNode × List Phase
resume_preparing failed n = (force_set_state uninitialized n, [])
resume_preparing (replied k) n =
    (or_keep (force_set_state uninitialized n) (transition initializing ready n), [])

-- startSonicd, when requireNoClientRunning has counted the clients.
abbrev resume_start_scanning : ℕ → Answer → OperaNode → OperaNode × List Phase
resume_start_scanning g failed n = (force_set_state ready n, [])
resume_start_scanning g (replied zero) n = (n, launching g ∷ [])
resume_start_scanning g (replied (suc k)) n = (force_set_state ready n, [])

-- startSonicd, when the client was launched; it is watched from then on.
abbrev resume_launching : ℕ → Answer → OperaNode → OperaNode × List Phase
resume_launching g failed n = (force_set_state ready n, [])
resume_launching g (replied k) n = (attach_client g n, watching g ∷ [])

-- WaitForSync, when its tries have ended.
abbrev resume_connecting : Answer → OperaNode → OperaNode × List Phase
resume_connecting failed n = (n, [])
resume_connecting (replied k) n = (or_keep n (transition syncing running n), [])

-- StopSonicd, when its signal was sent to a number of clients.
abbrev resume_interrupting : Answer → OperaNode → OperaNode × List Phase
resume_interrupting failed n = (force_set_state running n, [])
resume_interrupting (replied zero) n = (force_set_state killed n, [])
resume_interrupting (replied (suc k)) n = (n, exit_awaited ∷ [])

-- StopSonicd, when waitForSonicdExit has ended.
abbrev resume_exit_awaited : Answer → OperaNode → OperaNode × List Phase
resume_exit_awaited failed n = (n, [])
resume_exit_awaited (replied k) n = (or_keep n (transition stopping ready n), [])

-- HealSonicd, when requireNoClientRunning has counted the clients.
abbrev resume_heal_scanning : Answer → OperaNode → OperaNode × List Phase
resume_heal_scanning failed n = (force_set_state killed n, [])
resume_heal_scanning (replied zero) n = (n, repairing ∷ [])
resume_heal_scanning (replied (suc k)) n = (force_set_state killed n, [])

-- HealSonicd, when the tool has run.
abbrev resume_repairing : Answer → OperaNode → OperaNode × List Phase
resume_repairing failed n = (force_set_state killed n, [])
resume_repairing (replied k) n = (or_keep n (transition healing ready n), [])

-- An action from the answer on: the node, and what is waited for next. ForceStopSonicd leaves the
-- state alone after its claim.
unfoldable pub resume : Phase → Answer → OperaNode → OperaNode × List Phase
resume preparing a n = resume_preparing a n
resume (start_scanning g) a n = resume_start_scanning g a n
resume (launching g) a n = resume_launching g a n
resume connecting a n = resume_connecting a n
resume interrupting a n = resume_interrupting a n
resume exit_awaited a n = resume_exit_awaited a n
resume killing a n = (n, [])
resume heal_scanning a n = resume_heal_scanning a n
resume repairing a n = resume_repairing a n
resume (watching g) a n = (record_unexpected_client_exit g n, [])
