-- ===== src/Executor/Recorded.antt =====
-- What recording new nodes keeps of the validator ids of a run.
use norma.Base.{ℕ, ◌≡◌, ◌⊎◌, none, some, List, [], ◌∷◌, String, string_comparable, arith, All}
use norma.Base.Map.{lookup, lookup-insert}
use norma.Executor.State.{Node, RunState}
use norma.Executor.Nodes.{Assigned, record_node, record_nodes}

-- A node that has an id is known under it.
abbrev pub IsRecorded : RunState → Type 0
IsRecorded s =
    (name : String) (n : Node) (id : ℕ)
    → lookup name s.nodes ≡ some n
    → n.validator_id ≡ some id
    → lookup name s.validator_ids ≡ some id

-- An id that is known under a name stays so.
abbrev pub KeepsIds : RunState → RunState → Type 0
KeepsIds s t =
    (name : String) (id : ℕ)
    → lookup name s.validator_ids ≡ some id
    → lookup name t.validator_ids ≡ some id

-- What is settled for a name that has an id is this id, or nothing.
abbrev pub IsSettled : RunState → Assigned → Type 0
IsSettled s (name, settled) =
    (id : ℕ) → lookup name s.validator_ids ≡ some id → (settled ≡ none) ⊎ (settled ≡ some id)

record_node-KeepsIds :
    (s t : RunState) (a : Assigned) (n : Node)
    → IsSettled s a
    → KeepsIds s t
    → KeepsIds s (record_node (a, n) t)
record_node-KeepsIds s t (name, none) n settled keeps other id h = keeps other id h
record_node-KeepsIds s t (name, some new) n settled keeps other id h = ground (
  arith,
  lookup-insert name other new t.validator_ids,
  keeps other id h,
  settled id,
  string_comparable.same_iff name other,
)

record_node-IsRecorded :
    (s : RunState) (a : Assigned) (n : Node)
    → n.validator_id ≡ a.1
    → IsRecorded s
    → IsRecorded (record_node (a, n) s)
record_node-IsRecorded s (name, none) n same rec other m id h e =
    ground (arith, lookup-insert name other n s.nodes, rec other m id, same)
record_node-IsRecorded s (name, some new) n same rec other m id h e = ground (
  arith,
  lookup-insert name other n s.nodes,
  lookup-insert name other new s.validator_ids,
  rec other m id,
  same,
)

pub record_nodes-Keeps :
    (s t : RunState) (rs : List (Assigned × Node))
    → All (λ r. IsSettled s r.0 × (r.1.validator_id ≡ r.0.1)) rs
    → KeepsIds s t
    → (IsRecorded s → IsRecorded t)
    → KeepsIds s (record_nodes rs t) × (IsRecorded s → IsRecorded (record_nodes rs t))
unfolding record_nodes
record_nodes-Keeps s t [] h keeps rec = (keeps, rec)
record_nodes-Keeps s t ((a, n) ∷ rs) ((settled, same), h) keeps rec =
    record_nodes-Keeps s (record_node (a, n) t) rs h (record_node-KeepsIds s t a n settled keeps)
      (λ r. record_node-IsRecorded t a n same (rec r))
