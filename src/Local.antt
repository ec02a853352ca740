-- ===== src/Local.antt =====
-- driver/network/local/local.go: which nodes the local network lists, which of them are suspended,
-- and what its listeners are told. A node is known by a number, as is the enode id that it answers.
pub mod Listed
pub mod Dialing
use norma.Base.{
  ℕ, zero, suc, ◌+◌, Bool, true, false, not, ◌&&◌, Option, none, some, List, [], ◌∷◌, ◌++◌, length,
  keep, any, all, if◌then◌else◌, ◌==◌, nat_comparable, ltb,
}
use norma.Base.Results.{Result, ok, err}
use norma.Base.Map.{Map, lookup, insert, delete, has}

pub data Notice : Type 0 where
  after_creation : ℕ → Notice
  before_removal : ℕ → Notice

-- The fields of LocalNetwork that change with its nodes, and the notices to every listener, the
-- latest first.
pub record LocalNetwork : Type 0 where
  pub nodes : Map ℕ ℕ
  pub suspended : Map ℕ Bool
  pub bootstrapped : Bool
  pub notices : List Notice

abbrev pub new_network : LocalNetwork
new_network = record { nodes = []; suspended = []; bootstrapped = false; notices = [] }

-- What the nodes answer at one moment: GetNodeID, AddPeer and RemovePeer.
pub record Answers : Type 0 where
  pub node_id : ℕ → Option ℕ
  pub adds_peer : ℕ → ℕ → Bool
  pub removes_peer : ℕ → ℕ → Bool

abbrev is_suspended : LocalNetwork → ℕ → Bool
is_suspended net node = has node net.suspended

unfoldable pub listed : Map ℕ ℕ → List ℕ
listed [] = []
listed ((id, node) ∷ nodes) = node ∷ listed nodes

-- The nodes that a change of the peers is told to: a suspended one is skipped.
abbrev pub reachable_peers : LocalNetwork → List ℕ
reachable_peers net = keep (λ node. not (is_suspended net node)) (listed net.nodes)

abbrev pub notify : Notice → LocalNetwork → LocalNetwork
notify e net = record net { notices = e ∷ net.notices }

abbrev pub enlist : ℕ → ℕ → LocalNetwork → LocalNetwork
enlist id node net = record net { nodes = insert id node net.nodes; bootstrapped = true }

abbrev pub is_nonempty : List ℕ → Bool
is_nonempty [] = false
is_nonempty (x ∷ xs) = true

-- addNodeIntoNetwork; `false` with a network that is left as it was is its error.
unfoldable pub add_node_into_network : Answers → ℕ → LocalNetwork → LocalNetwork × Bool
add_node_into_network a node net = elim (a.node_id node) [
  | none ↦ (net, false)
  | some id ↦
      let peers = reachable_peers net in
      if is_nonempty peers && not (any (λ other. a.adds_peer other id) peers)
      then (net, false)
      else (enlist id node net, true)
]

-- The loop of ReconnectNode that removes one entry of the node.
unfoldable pub drop_entry : ℕ → Map ℕ ℕ → Map ℕ ℕ
drop_entry node [] = []
drop_entry node ((id, other) ∷ nodes) =
    let rest = drop_entry node nodes in if other == node then nodes else (id, other) ∷ rest

-- ReconnectNode
unfoldable pub reconnect_node : Answers → ℕ → LocalNetwork → LocalNetwork × Bool
reconnect_node a node net =
    add_node_into_network a node (record net { nodes = drop_entry node net.nodes })

-- createNode, where a container is started for a node; whether the client is to bootstrap a network
-- is read before.
unfoldable pub create_node : (Bool → Option ℕ) → Answers → LocalNetwork → LocalNetwork × Option ℕ
create_node start a net = elim (start (not net.bootstrapped)) [
  | none ↦ (net, none)
  | some node ↦
      let (net', added) = add_node_into_network a node net in
      if added then (notify (after_creation node) net', some node) else (net', none)
]

-- RemoveNode: the listeners are told first.
unfoldable pub remove_node : Answers → ℕ → LocalNetwork → LocalNetwork × Bool
remove_node a node net =
    let told = notify (before_removal node) net in
    elim (a.node_id node) [
      | none ↦ (told, false)
      | some id ↦
          let left : LocalNetwork = record told {
            nodes = delete id net.nodes;
            suspended = delete node net.suspended;
          } in
          (left, all (λ other. a.removes_peer other id) (reachable_peers left))
    ]

abbrev pub suspend_node : ℕ → LocalNetwork → LocalNetwork
suspend_node node net =
    notify (before_removal node) (record net { suspended = insert node true net.suspended })

abbrev pub resume_node : ℕ → LocalNetwork → LocalNetwork
resume_node node net =
    notify (after_creation node) (record net { suspended = delete node net.suspended })

-- GetActiveNodes
abbrev pub get_active_nodes : (ℕ → Bool) → LocalNetwork → List ℕ
get_active_nodes is_running net = keep is_running (listed net.nodes)

pub data DialError : Type 0 where
  empty_network no_reachable_node : DialError

-- The loop over the shuffled nodes: the first that can be dialed and answers the probe.
unfoldable pub first_responding : (ℕ → Bool) → List ℕ → Result DialError ℕ
first_responding responds [] = err no_reachable_node
first_responding responds (node ∷ nodes) =
    let rest = first_responding responds nodes in if responds node then ok node else rest

-- The nodes to try: those that are not expected to fail, or else all.
abbrev pub candidates : (ℕ → Bool) → List ℕ → List ℕ
candidates is_failing active =
    let reliable = keep (λ node. not (is_failing node)) active in
    if is_nonempty reliable then reliable else active

-- DialRandomRpc; `shuffle` is the random permutation.
unfoldable pub dial_random_rpc :
    (List ℕ → List ℕ) → (ℕ → Bool) → (ℕ → Bool) → (ℕ → Bool) → LocalNetwork → Result DialError ℕ
dial_random_rpc shuffle is_running is_failing responds net =
    elim (get_active_nodes is_running net) [
      | [] ↦ err empty_network
      | node ∷ nodes ↦ first_responding responds (shuffle (candidates is_failing (node ∷ nodes)))
    ]
