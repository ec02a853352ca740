-- ===== src/Executor/Identity.antt =====
-- That a node keeps its validator id through any history of the steps on nodes.
use norma.Base.{
  ℕ, ◌≡◌, inl, inr, refl, ap, subst, Bool, true, false, some, List, [], ◌∷◌, String,
  string_comparable, arith, All, Option-cases,
}
use norma.Base.Map.{Map, lookup, delete, lookup-delete}
use norma.Base.Results.{Result, ok, err, ◌>>=◌, bind-ok, ok_injective}
use norma.Parser.Scenario.{Step}
use norma.Executor.State.{Node, RunState}
use norma.Executor.Nodes.{
  Network, NodeConfig, NodeError, Assigned, Assignment, or_failed, settle_id, settle_ids,
  create_nodes, mark_started, node_config, restart_node_in_place, record_nodes, start_new,
  exec_start_node,
}
use norma.Executor.Stops.{stop_targets, targets_of, forget, stop_all, exec_stop_node}
use norma.Executor.Recorded.{IsRecorded, KeepsIds, IsSettled, record_nodes-Keeps}

module _ {F W : Type 0} (net : Network F W) where
  open net use {create_node}

  settle_id-IsSettled :
      (s : RunState) (rejoins : Bool) (stake : ℕ) (name : String) (w w' : W) (id : ℕ)
      (active : List ℕ)
      → settle_id net s rejoins stake name w ≡ ok (id, active, w')
      → IsSettled s (name, some id)
  unfolding settle_id
  settle_id-IsSettled s rejoins stake name w w' id active h old known =
      ground (arith, rw (settle_id, known) at h)

  settle_ids-IsSettled :
      (s : RunState) (validator rejoins : Bool) (stake : ℕ) (names : List String) (w w' : W)
      (plan : Assignment)
      → settle_ids net s validator rejoins stake names w ≡ ok (plan, w')
      → All (IsSettled s) plan.assigned
  unfolding settle_ids
  settle_ids-IsSettled s validator rejoins stake [] w w' plan h =
      subst (λ r. All (IsSettled s) r.0.assigned) (ok_injective _ (plan, w') h) tt
  settle_ids-IsSettled s true rejoins stake (name ∷ names) w w' plan h =
      let ((id, active, w1), own, h1) =
        bind-ok (settle_id net s rejoins stake name w) _ (plan, w') h in
      let ((rest, w2), others, h2) =
        bind-ok (settle_ids net s true rejoins stake names w1) _ (plan, w') h1 in
      subst (λ r. All (IsSettled s) r.0.assigned) (ok_injective _ (plan, w') h2)
        (
          settle_id-IsSettled s rejoins stake name w w1 id active own,
          settle_ids-IsSettled s true rejoins stake names w1 w2 rest others,
        )
  settle_ids-IsSettled s false rejoins stake (name ∷ names) w w' plan h =
      let ((rest, w2), others, h2) =
        bind-ok (settle_ids net s false rejoins stake names w) _ (plan, w') h in
      subst (λ r. All (IsSettled s) r.0.assigned) (ok_injective _ (plan, w') h2)
        (λ id known. inl refl, settle_ids-IsSettled s false rejoins stake names w w2 rest others)

  -- A network that gives a node the id it was asked for.
  abbrev pub IsHonest : Type 0
  IsHonest =
      (c : NodeConfig) (w w' : W) (n : Node)
      → create_node c w ≡ ok (n, w')
      → n.validator_id ≡ c.validator_id

  or_failed-ok : {A : Type 0} (r : Result String A) (a : A) → or_failed r ≡ ok a → r ≡ ok a
  or_failed-ok (ok b) a h = ap ok (ok_injective b a h)
  or_failed-ok (err e) a h = absurd cc

  create_nodes-IsSettled :
      IsHonest
      → (s : RunState) (step : Step F) (plan : List Assigned) (w w' : W)
        (rs : List (Assigned × Node))
      → create_nodes net step plan w ≡ ok (rs, w')
      → All (IsSettled s) plan
      → All (λ r. IsSettled s r.0 × (r.1.validator_id ≡ r.0.1)) rs
  unfolding create_nodes
  create_nodes-IsSettled honest s step [] w w' rs h settled =
      subst (λ r. All (λ x. IsSettled s x.0 × (x.1.validator_id ≡ x.0.1)) r.0)
        (ok_injective _ (rs, w') h) tt
  create_nodes-IsSettled honest s step (a ∷ plan) w w' rs h (own, settled) =
      let ((n, w1), made, h1) =
        bind-ok (or_failed (create_node (node_config step a) w)) _ (rs, w') h in
      let ((rest, w2), others, h2) = bind-ok (create_nodes net step plan w1) _ (rs, w') h1 in
      let same = honest (node_config step a) w w1 n (or_failed-ok _ (n, w1) made) in
      subst (λ r. All (λ x. IsSettled s x.0 × (x.1.validator_id ≡ x.0.1)) r.0)
        (ok_injective _ (rs, w') h2)
        ((own, same), create_nodes-IsSettled honest s step plan w1 w2 rest others settled)

  -- What one step keeps.
  abbrev pub Keeps : RunState → RunState → Type 0
  Keeps s t = KeepsIds s t × (IsRecorded s → IsRecorded t)

  start_new-Keeps :
      IsHonest
      → (step : Step F) (s t : RunState) (w w' : W) → start_new net step s w ≡ ok (t, w')
      → Keeps s t
  unfolding start_new
  start_new-Keeps honest step s t w w' h =
      let ((plan, w1), planned, h1) = bind-ok (settle_ids net s _ _ _ _ w) _ (t, w') h in
      let ((rs, w2), made, h2) = bind-ok (create_nodes net step plan.assigned w1) _ (t, w') h1 in
      let finish : W → Result NodeError (RunState × W) =
        λ w4. ok (mark_started step.identifier (record_nodes rs s), w4) in
      let (w4, activated, h3) = bind-ok _ finish (t, w') h2 in
      let settled = settle_ids-IsSettled s _ _ _ _ w w1 plan planned in
      let results = create_nodes-IsSettled honest s step plan.assigned w1 w2 rs made settled in
      subst (λ r. Keeps s r.0) (ok_injective _ (t, w') h3)
        (record_nodes-Keeps s s rs results (λ name id k. k) (λ rec. rec))

  exec_start_node-Keeps :
      IsHonest
      → (step : Step F) (s t : RunState) (w w' : W) → exec_start_node net step s w ≡ ok (t, w')
      → Keeps s t
  unfolding exec_start_node
  exec_start_node-Keeps honest step s t w w' h =
      elim (Option-cases (lookup step.identifier s.nodes)) [
        | inl new ↦ start_new-Keeps honest step s t w w' (rw (exec_start_node, new) at h)
        | inr (n, tracked) ↦
            let (w1, restarted, h1) =
              bind-ok (restart_node_in_place net step n w) (λ w1. ok (s, w1)) (t, w')
                (rw (exec_start_node, tracked) at h) in
            subst (λ r. Keeps s r.0) (ok_injective (s, w1) (t, w') h1) (λ name id k. k, λ r. r)
      ]

  forget-IsRecorded :
      (targets nodes : Map String Node) (name : String) (n : Node)
      → lookup name (forget targets nodes) ≡ some n
      → lookup name nodes ≡ some n
  unfolding forget
  forget-IsRecorded [] nodes name n h = h
  forget-IsRecorded ((gone, m) ∷ targets) nodes name n h =
      ground (
        arith,
        forget-IsRecorded targets (delete gone nodes) name n h,
        lookup-delete gone name nodes,
      )

  exec_stop_node-Keeps :
      (step : Step F) (s t : RunState) (w w' : W)
      → exec_stop_node net step s w ≡ ok (t, w')
      → Keeps s t
  unfolding exec_stop_node
  exec_stop_node-Keeps step s t w w' h = stopped (targets_of step.identifier s.nodes) h
    where
      stopped :
          (targets : Map String Node)
          → stop_targets net step.identifier targets s w ≡ ok (t, w')
          → Keeps s t
      stopped [] h = absurd cc
      stopped (target ∷ targets) h =
          let finish : W → Result NodeError (RunState × W) =
            λ w1. ok (record s { nodes = forget (target ∷ targets) s.nodes }, w1) in
          let (w1, done, h1) = bind-ok (stop_all net (target ∷ targets) w) finish (t, w') h in
          subst (λ r. Keeps s r.0) (ok_injective _ (t, w') h1)
            (
              λ name id k. k,
              λ rec name n id k e.
                  rec name n id (forget-IsRecorded (target ∷ targets) s.nodes name n k) e,
            )

  -- The steps on nodes, and their runs.
  pub data NodeStep : Type 0 where
    starts : Step F → NodeStep
    stops : Step F → NodeStep

  unfoldable pub run_node_steps : List NodeStep → RunState × W → Result NodeError (RunState × W)
  run_node_steps [] r = ok r
  run_node_steps (starts step ∷ steps) (s, w) =
      exec_start_node net step s w >>= run_node_steps steps
  run_node_steps (stops step ∷ steps) (s, w) = exec_stop_node net step s w >>= run_node_steps steps

  Keeps-trans : (s t u : RunState) → Keeps s t → Keeps t u → Keeps s u
  Keeps-trans s t u (ids, rec) (ids', rec') =
      (λ name id k. ids' name id (ids name id k), λ r. rec' (rec r))

  run_node_steps-Keeps :
      IsHonest
      → (steps : List NodeStep) (s t : RunState) (w w' : W)
      → run_node_steps steps (s, w) ≡ ok (t, w')
      → Keeps s t
  unfolding run_node_steps
  run_node_steps-Keeps honest [] s t w w' h =
      subst (λ r. Keeps s r.0) (ok_injective (s, w) (t, w') h) (λ name id k. k, λ r. r)
  run_node_steps-Keeps honest (starts step ∷ steps) s t w w' h =
      let ((s1, w1), now, h1) =
        bind-ok (exec_start_node net step s w) (run_node_steps steps) (t, w') h in
      Keeps-trans s s1 t (exec_start_node-Keeps honest step s s1 w w1 now)
        (run_node_steps-Keeps honest steps s1 t w1 w' h1)
  run_node_steps-Keeps honest (stops step ∷ steps) s t w w' h =
      let ((s1, w1), now, h1) =
        bind-ok (exec_stop_node net step s w) (run_node_steps steps) (t, w') h in
      Keeps-trans s s1 t (exec_stop_node-Keeps step s s1 w w1 now)
        (run_node_steps-Keeps honest steps s1 t w1 w' h1)

  -- A validator keeps its identity: whatever nodes are started, stopped and started again in between,
  -- a node that runs under a name at the end has the id of the node that ran under it at the
  -- beginning, if both have one. The ids of the nodes at the beginning are recorded, and the network
  -- gives a node the id that it is asked for.
  pub validators_keep_ids :
      IsHonest
      → (steps : List NodeStep) (s t : RunState) (w w' : W)
      → run_node_steps steps (s, w) ≡ ok (t, w')
      → IsRecorded s
      → (name : String) (n m : Node) (i j : ℕ) → lookup name s.nodes ≡ some n
      → n.validator_id ≡ some i
      → lookup name t.nodes ≡ some m
      → m.validator_id ≡ some j
      → i ≡ j
  validators_keep_ids honest steps s t w w' h rec name n m i j at hi at' hj =
      let (ids, recorded) = run_node_steps-Keeps honest steps s t w w' h in
      let before = ids name i (rec name n i at hi) in
      let after = recorded rec name m j at' hj in cc (before, after)
