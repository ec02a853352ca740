-- ===== src/Node/Lifecycle/Followed.antt =====
-- That a node follows the diagram of driver/node/node_state.go while its actions overlap.
use norma.Base.{
  ℕ, suc, ◌+◌, ◌≤◌, ◌≡◌, ◌⊎◌, inl, inr, refl, ap, subst, ◌∙◌, Bool, true, false, some, List, ◌∷◌,
  arith, Bool-cases, ◌↔◌, All-imp,
}
use norma.Base.Map.{one_if}
use norma.Node.Lifecycle.{
  NodeState, uninitialized, initializing, ready, syncing, running, stopping, killed, healing, is,
  OperaNode, Action, Phase, begin, initialize, start_sonicd, wait_for_sync, stop_sonicd,
  force_stop_sonicd, heal_sonicd, preparing, start_scanning, connecting, interrupting, killing,
  heal_scanning, force_set_state,
}
use norma.Node.Lifecycle.Diagram.{
  Allowed, Walk, here, further, claimed_initialize, claimed_start, claimed_stop, force_stopped,
  escalated, claimed_heal,
}
use norma.Node.Lifecycle.Steps.{
  System, Step, called, answered, Reachable, created, moved, IsOrderly, number, initializes, starts,
  stops, heals, IsTimely,
}
use norma.Node.Lifecycle.Claims.{IsClaimed, Keeps, is-same, IsKnown-mono}
use norma.Node.Lifecycle.Answers.{resume-Keeps}

-- What a call that succeeded did: the node was in a state that the action starts from.
abbrev Started : Action → OperaNode → OperaNode → Phase → Type 0
Started initialize n m p =
    (n.state ≡ uninitialized) × (force_set_state initializing n ≡ m) × (preparing ≡ p)
Started start_sonicd n m p =
    (n.state ≡ ready)
    × (record n { state = syncing; client_gen = suc n.client_gen; exit_was_unexpected = false } ≡ m)
    × (start_scanning (suc n.client_gen) ≡ p)
Started wait_for_sync n m p = (n.state ≡ syncing) × (n ≡ m) × (connecting ≡ p)
Started stop_sonicd n m p =
    (n.state ≡ running) × (force_set_state stopping n ≡ m) × (interrupting ≡ p)
Started force_stop_sonicd n m p =
    ((n.state ≡ running) ⊎ (n.state ≡ stopping)) × (force_set_state killed n ≡ m) × (killing ≡ p)
Started heal_sonicd n m p =
    (n.state ≡ killed) × (force_set_state healing n ≡ m) × (heal_scanning ≡ p)

begin-Started :
    (a : Action) (n m : OperaNode) (p : Phase) → begin a n ≡ some (m, p) → Started a n m p
unfolding begin
begin-Started initialize n m p e = ground (arith, is-same n.state uninitialized)
begin-Started start_sonicd n m p e = ground (arith, is-same n.state ready)
begin-Started wait_for_sync n m p e = ground (arith, is-same n.state syncing)
begin-Started stop_sonicd n m p e = ground (arith, is-same n.state running)
begin-Started force_stop_sonicd n m p e =
    ground (arith, is-same n.state running, is-same n.state stopping)
begin-Started heal_sonicd n m p e = ground (arith, is-same n.state killed)

settle :
    (n : OperaNode) {m m' : OperaNode} {p p' : Phase} (ps : List Phase)
    → m' ≡ m
    → p' ≡ p
    → Keeps n m' (p' ∷ ps)
    → Keeps n m (p ∷ ps)
settle n {m = m} {p' = p'} ps same waits h =
    subst (λ x. Keeps n m (x ∷ ps)) waits (subst (λ x. Keeps n x (p' ∷ ps)) same h)

-- A timely call keeps the claims, and changes the state as the diagram has it.
begin-Keeps :
    (a : Action) (n m : OperaNode) (p : Phase) (ps : List Phase)
    → Started a n m p
    → IsTimely a ps
    → IsClaimed n.state n.client_gen ps
    → Keeps n m (p ∷ ps)
unfolding number
begin-Keeps initialize n m p ps (at, same, waits) t c =
    let c' = subst (λ x. IsClaimed x n.client_gen ps) at c in
    settle n ps same waits (ground (arith, c'), inr (rw at claimed_initialize))
begin-Keeps start_sonicd n m p ps (at, same, waits) t c =
    let (i, h, st, sp, _, known) = subst (λ x. IsClaimed x n.client_gen ps) at c in
    let gen = n.client_gen in
    let pending = number starts ps in
    let known' =
      All-imp ps (IsKnown-mono gen pending (suc gen) (1 + pending) (omega arith) (omega arith))
        known in
    settle n ps same waits (ground (arith, i, h, st, sp, t, known'), inr (rw at claimed_start))
begin-Keeps wait_for_sync n m p ps (at, same, waits) t c =
    settle n ps same waits (ground (arith, c, t), inl refl)
begin-Keeps stop_sonicd n m p ps (at, same, waits) t c =
    let c' = subst (λ x. IsClaimed x n.client_gen ps) at c in
    settle n ps same waits (ground (arith, c'), inr (rw at claimed_stop))
begin-Keeps force_stop_sonicd n m p ps (inl at, same, waits) t c =
    let c' = subst (λ x. IsClaimed x n.client_gen ps) at c in
    settle n ps same waits (ground (arith, c'), inr (rw at force_stopped))
begin-Keeps force_stop_sonicd n m p ps (inr at, same, waits) t c =
    let c' = subst (λ x. IsClaimed x n.client_gen ps) at c in
    settle n ps same waits (ground (arith, c', t), inr (rw at escalated))
begin-Keeps heal_sonicd n m p ps (at, same, waits) t c =
    let c' = subst (λ x. IsClaimed x n.client_gen ps) at c in
    settle n ps same waits (ground (arith, c'), inr (rw at claimed_heal))

-- What an orderly step keeps and changes.
step-Keeps :
    {s t : System} (step : Step s t)
    → IsOrderly step
    → IsClaimed s.node.state s.node.client_gen s.phases
    → Keeps s.node t.node t.phases
step-Keeps (called {n = n} {m = m} {p = p} {ps = ps} a e) o c =
    begin-Keeps a n m p ps (begin-Started a n m p e) o c
step-Keeps (answered {n = n} {ps = ps} {rest = rest} p a k) o c = resume-Keeps n p a ps rest k c

reachable-IsClaimed : {s : System} → Reachable s → IsClaimed s.node.state s.node.client_gen s.phases
unfolding number
reachable-IsClaimed created = ground arith
reachable-IsClaimed (moved r step o) = (step-Keeps step o (reachable-IsClaimed r)).0

onward : {s t u : NodeState} → Walk s t → Allowed t u → Walk s u
onward {s = s} w (inl same) = subst (Walk s) same w
onward w (inr edge) = further w edge

reachable-Walk : {s : System} → Reachable s → Walk uninitialized s.node.state
reachable-Walk created = here
reachable-Walk (moved r step o) =
    onward (reachable-Walk r) (step-Keeps step o (reachable-IsClaimed r)).1

-- Whatever calls of a node's actions overlap and whatever the container answers, each step leaves
-- the state or moves it along an arrow of the documented diagram, so that the node has walked the
-- diagram from its start; the calls only have to be orderly: ForceStopSonicd is not called before
-- the StopSonicd that it escalates has returned, nor WaitForSync before the StartSonicd has, and
-- StartSonicd is not called before a WaitForSync has returned.
pub follows_diagram :
    {s t : System}
    → Reachable s
    → (step : Step s t) → IsOrderly step
    → Allowed s.node.state t.node.state × Walk uninitialized t.node.state
follows_diagram r step o =
    ((step-Keeps step o (reachable-IsClaimed r)).1, reachable-Walk (moved r step o))

-- A state is at most one of four.
claimants :
    (s : NodeState)
    → one_if (is s initializing)
        + one_if (is s syncing)
        + one_if (is s stopping)
        + one_if (is s healing)
      ≤ 1
claimants uninitialized = omega arith
claimants initializing = omega arith
claimants ready = omega arith
claimants syncing = omega arith
claimants running = omega arith
claimants stopping = omega arith
claimants killed = omega arith
claimants healing = omega arith

claimed_iff : (k : ℕ) (s t : NodeState) → is t t ≡ true → k ≡ one_if (is s t) → (k ≡ 1) ↔ (s ≡ t)
claimed_iff k s t self h = (
  λ one. is-same s t (ground (arith, h, one)),
  λ same. h ∙ (ap (λ x. one_if (is x t)) same ∙ ap one_if self),
)

claimed_only : (k : ℕ) (s t : NodeState) → k ≤ one_if (is s t) → (k ≡ 0) ⊎ (s ≡ t)
claimed_only k s t h = elim (Bool-cases (is s t)) [
  | inl same ↦ inr (is-same s t same)
  | inr other ↦ inl (ground (arith, h, other))
]

-- With orderly calls at most one of the actions Initialize, StartSonicd, StopSonicd and HealSonicd
-- is under way on a node at a time. The node is initializing or healing exactly while that action
-- is, and while a start or a stop is under way it is syncing or stopping.
pub actions_are_exclusive :
    {s : System}
    → Reachable s
    → let kinds : (Phase → Bool) → ℕ = λ k. number k s.phases in
      (kinds initializes + kinds starts + kinds stops + kinds heals ≤ 1)
      × ((kinds initializes ≡ 1) ↔ (s.node.state ≡ initializing))
      × ((kinds heals ≡ 1) ↔ (s.node.state ≡ healing))
      × ((kinds starts ≡ 0) ⊎ (s.node.state ≡ syncing))
      × ((kinds stops ≡ 0) ⊎ (s.node.state ≡ stopping))
actions_are_exclusive {s = s} r =
    let (i, h, st, sp, _, _) = reachable-IsClaimed r in
    let at = s.node.state in
    let kinds : (Phase → Bool) → ℕ = λ k. number k s.phases in
    (
      omega (arith, claimants at, i, h, st, sp),
      claimed_iff (kinds initializes) at initializing refl i,
      claimed_iff (kinds heals) at healing refl h,
      claimed_only (kinds starts) at syncing st,
      claimed_only (kinds stops) at stopping sp,
    )
