-- ===== src/Tests/LocalTests.antt =====
-- The local network with two nodes.
use norma.Base.{◌≤◌, ◌+◌, ◌≡◌, ◌⊎◌, refl, true, not, some, [], ◌∷◌, ◌==◌, nat_comparable}
use norma.Base.Results.{ok}
use norma.Base.Map.{insert}
use norma.Local.{
  LocalNetwork, new_network, Answers, create_node, reconnect_node, add_node_into_network, listed,
  drop_entry, get_active_nodes, dial_random_rpc, first_responding,
}
use norma.Local.Listed.{
  entries, Reachable, fresh, changed, creates, reconnects, network_lists_once, Joins,
}
use norma.Local.Dialing.{Dialed, dial_random_rpc-Dialed}

-- Node n answers the id n + 10, and everyone adds a peer.
abbrev answers : Answers
answers = record {
  node_id = λ n. some (n + 10);
  adds_peer = λ other id. true;
  removes_peer = λ other id. true;
}

abbrev with_first : LocalNetwork
with_first = (create_node (λ b. some 1) answers new_network).0

first_listed : with_first.nodes ≡ (11, 1) ∷ []
unfolding create_node add_node_into_network insert listed
first_listed = refl

first_reached : Reachable with_first
unfolding entries
first_reached = changed fresh (creates (λ b. some 1) answers (λ b node e. refl))

-- The node comes back under another id.
abbrev moved : Answers
moved = record answers { node_id = λ n. some (n + 20) }

abbrev reconnected : LocalNetwork
reconnected = (reconnect_node moved 1 with_first).0

moved_once : reconnected.nodes ≡ (21, 1) ∷ []
unfolding reconnect_node create_node add_node_into_network insert listed drop_entry
moved_once = refl

network_lists_once_example :
    (entries 1 reconnected.nodes ≤ 1) × ((reconnected.nodes ≡ []) ⊎ Joins reconnected)
network_lists_once_example = network_lists_once (changed first_reached (reconnects moved 1)) 1

-- Of three running nodes the first is expected to fail, and the second does not answer.
abbrev three : LocalNetwork
three = record new_network { nodes = (11, 1) ∷ (12, 2) ∷ (13, 3) ∷ [] }

third_dialed : dial_random_rpc (λ xs. xs) (λ n. true) (λ n. n == 1) (λ n. not (n == 2)) three ≡ ok 3
unfolding dial_random_rpc listed first_responding
third_dialed = refl

dial_random_rpc-Dialed_example :
    Dialed
      (λ n. n == 1)
      (λ n. not (n == 2))
      (get_active_nodes (λ n. true) three)
      (dial_random_rpc (λ xs. xs) (λ n. true) (λ n. n == 1) (λ n. not (n == 2)) three)
dial_random_rpc-Dialed_example =
    dial_random_rpc-Dialed (λ xs. xs) (λ n. true) (λ n. n == 1) (λ n. not (n == 2)) three
      (λ xs x. (λ h. h, λ h. h))
