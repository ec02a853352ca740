-- ===== src/Local/Listed.antt =====
-- That the local network lists no node twice.
use norma.Base.{
  ℕ, ◌+◌, ◌≤◌, ◌≡◌, ◌⊎◌, inl, inr, refl, Bool, true, false, not, Option, some, [], ◌∷◌, arith, ◌==◌,
  nat_comparable, Bool-cases, Option-cases, any, ◌&&◌,
}
use norma.Base.Map.{Map, insert, delete, one_if}
use norma.Local.{
  LocalNetwork, new_network, Answers, add_node_into_network, drop_entry, reconnect_node,
  create_node, remove_node, suspend_node, resume_node, is_nonempty, reachable_peers,
}

-- How often a node is listed.
unfoldable pub entries : ℕ → Map ℕ ℕ → ℕ
entries node [] = 0
entries node ((id, other) ∷ nodes) = one_if (other == node) + entries node nodes

entries-insert :
    (node id new : ℕ) (nodes : Map ℕ ℕ)
    → entries node (insert id new nodes) ≤ one_if (new == node) + entries node nodes
unfolding entries insert
entries-insert node id new [] = ground arith
entries-insert node id new ((i, other) ∷ nodes) = ground (arith, entries-insert node id new nodes)

entries-delete :
    (node id : ℕ) (nodes : Map ℕ ℕ) → entries node (delete id nodes) ≤ entries node nodes
unfolding entries delete
entries-delete node id [] = ground arith
entries-delete node id ((i, other) ∷ nodes) = ground (arith, entries-delete node id nodes)

entries-drop_entry :
    (node gone : ℕ) (nodes : Map ℕ ℕ) → entries node (drop_entry gone nodes) ≤ entries node nodes
unfolding entries drop_entry
entries-drop_entry node gone [] = ground arith
entries-drop_entry node gone ((i, other) ∷ nodes) =
    ground (arith, entries-drop_entry node gone nodes)

entries-drop_entry_self :
    (node : ℕ) (nodes : Map ℕ ℕ) → entries node nodes ≤ 1 → entries node (drop_entry node nodes) ≡ 0
unfolding entries drop_entry
entries-drop_entry_self node [] h = refl
entries-drop_entry_self node ((i, other) ∷ nodes) h =
    ground (arith, entries-drop_entry_self node nodes)

-- No node is listed twice, and a network that lists a node has been bootstrapped.
abbrev pub IsConsistent : LocalNetwork → Type 0
IsConsistent net =
    ((node : ℕ) → entries node net.nodes ≤ 1) × ((net.nodes ≡ []) ⊎ (net.bootstrapped ≡ true))

add_node-IsConsistent :
    (a : Answers) (node : ℕ) (net : LocalNetwork)
    → entries node net.nodes ≡ 0
    → IsConsistent net
    → IsConsistent (add_node_into_network a node net).0
unfolding add_node_into_network
add_node-IsConsistent a node net new (once, boot) = elim (Option-cases (a.node_id node)) [
  | inl silent ↦ rw (add_node_into_network, silent) (once, boot)
  | inr (id, answers) ↦
      elim (Bool-cases (
        is_nonempty (reachable_peers net)
        && not (any (λ other. a.adds_peer other id) (reachable_peers net)))) [
          | inl refused ↦ rw (add_node_into_network, answers, refused) (once, boot)
          | inr taken ↦
              rw (add_node_into_network, answers, taken)
                (
                  λ other. ground (
                    arith,
                    entries-insert other id node net.nodes,
                    once other,
                    new,
                    nat_comparable.same_iff node other,
                  ),
                  inr refl,
                )
        ]
]

delete-nil : (id : ℕ) (nodes : Map ℕ ℕ) → nodes ≡ [] → delete id nodes ≡ []
unfolding delete
delete-nil id nodes h = rw h refl

drop_entry-nil : (node : ℕ) (nodes : Map ℕ ℕ) → nodes ≡ [] → drop_entry node nodes ≡ []
unfolding drop_entry
drop_entry-nil node nodes h = rw h refl

-- The changes of a network; a container that is started is no node of the network yet.
pub data Change : LocalNetwork → LocalNetwork → Type 0 where
  creates :
      {net : LocalNetwork} (start : Bool → Option ℕ) (a : Answers)
      → ((b : Bool) (node : ℕ) → start b ≡ some node → entries node net.nodes ≡ 0)
      → Change net (create_node start a net).0
  reconnects :
      {net : LocalNetwork} (a : Answers) (node : ℕ) → Change net (reconnect_node a node net).0
  removes : {net : LocalNetwork} (a : Answers) (node : ℕ) → Change net (remove_node a node net).0
  suspends : {net : LocalNetwork} (node : ℕ) → Change net (suspend_node node net)
  resumes : {net : LocalNetwork} (node : ℕ) → Change net (resume_node node net)

pub data Reachable : LocalNetwork → Type 0 where
  fresh : Reachable new_network
  changed : {net net' : LocalNetwork} → Reachable net → Change net net' → Reachable net'

create_node-IsConsistent :
    (start : Bool → Option ℕ) (a : Answers) (net : LocalNetwork)
    → ((b : Bool) (node : ℕ) → start b ≡ some node → entries node net.nodes ≡ 0)
    → IsConsistent net
    → IsConsistent (create_node start a net).0
unfolding create_node
create_node-IsConsistent start a net new c = elim (Option-cases (start (not net.bootstrapped))) [
  | inl failed ↦ rw (create_node, failed) c
  | inr (node, started) ↦
      let c' = add_node-IsConsistent a node net (new (not net.bootstrapped) node started) c in
      elim (Bool-cases (add_node_into_network a node net).1) [
        | inl added ↦ rw (create_node, started, added) c'
        | inr refused ↦ rw (create_node, started, refused) c'
      ]
]

Change-IsConsistent :
    {net net' : LocalNetwork} → Change net net' → IsConsistent net → IsConsistent net'
unfolding reconnect_node remove_node
Change-IsConsistent (creates {net = net} start a new) c = create_node-IsConsistent start a net new c
Change-IsConsistent (reconnects {net = net} a node) (once, boot) =
    add_node-IsConsistent a node (record net { nodes = drop_entry node net.nodes })
      (entries-drop_entry_self node net.nodes (once node))
      (
        λ other. omega (arith, entries-drop_entry other node net.nodes, once other),
        elim boot [
          | inl none_listed ↦ inl (drop_entry-nil node net.nodes none_listed)
          | inr up ↦ inr up
        ],
      )
Change-IsConsistent (removes {net = net} a node) (once, boot) =
    elim (Option-cases (a.node_id node)) [
      | inl silent ↦ rw (remove_node, silent) (once, boot)
      | inr (id, answers) ↦
          rw (remove_node, answers)
            (
              λ other. omega (arith, entries-delete other id net.nodes, once other),
              elim boot [
                | inl none_listed ↦ inl (delete-nil id net.nodes none_listed)
                | inr up ↦ inr up
              ],
            )
    ]
Change-IsConsistent (suspends node) c = c
Change-IsConsistent (resumes node) c = c

reachable-IsConsistent : {net : LocalNetwork} → Reachable net → IsConsistent net
unfolding entries
reachable-IsConsistent fresh = (λ node. omega arith, inl refl)
reachable-IsConsistent (changed r c) = Change-IsConsistent c (reachable-IsConsistent r)

-- A node that is created does not bootstrap a network: nothing depends on what its start would be then.
abbrev pub Joins : LocalNetwork → Type 0
Joins net =
    (start : Bool → Option ℕ) (a : Answers)
    → create_node start a net ≡ create_node (λ bootstrap. start false) a net

bootstrapped-Joins : (net : LocalNetwork) → net.bootstrapped ≡ true → Joins net
unfolding create_node
bootstrapped-Joins net up start a = rw (create_node, up)

-- Whatever nodes are created, reconnected under another id, removed, suspended and resumed, with
-- failures of any of these: the network lists no node twice, and if it lists a node, a node that is
-- created next is started without bootstrapping a network of its own.
pub network_lists_once :
    {net : LocalNetwork}
    → Reachable net
    → (node : ℕ) → (entries node net.nodes ≤ 1) × ((net.nodes ≡ []) ⊎ Joins net)
network_lists_once {net} r node =
    let (once, boot) = reachable-IsConsistent r in
    (once node, elim boot [ inl e ↦ inl e | inr up ↦ inr (bootstrapped-Joins net up) ])
