-- ===== src/Node/Lifecycle/Claims.antt =====
-- The states that the actions under way have claimed, and that no other action takes from them.
use norma.Base.{
  ℕ, zero, suc, ◌+◌, ◌≤◌, ◌≡◌, ◌⊎◌, refl, sym, ap, subst, ◌∙◌, true, List, arith, All, All-imp,
  nat_comparable,
}
use norma.Base.Map.{one_if}
use norma.Node.Lifecycle.{
  NodeState, uninitialized, initializing, ready, syncing, running, stopping, killed, healing, is,
  rank, OperaNode, Phase, preparing, start_scanning, launching, connecting, interrupting,
  exit_awaited, killing, heal_scanning, repairing, watching,
}
use norma.Node.Lifecycle.Diagram.{Allowed}
use norma.Node.Lifecycle.Steps.{
  Pick, first, later, number, initializes, starts, connects, stops, heals, number-Pick,
}

unrank : ℕ → NodeState
unrank zero = uninitialized
unrank (suc zero) = initializing
unrank (suc (suc zero)) = ready
unrank (suc (suc (suc zero))) = syncing
unrank (suc (suc (suc (suc zero)))) = running
unrank (suc (suc (suc (suc (suc zero))))) = stopping
unrank (suc (suc (suc (suc (suc (suc zero)))))) = killed
unrank (suc (suc (suc (suc (suc (suc (suc n))))))) = healing

unrank-rank : (s : NodeState) → unrank (rank s) ≡ s
unfolding unrank
unrank-rank uninitialized = refl
unrank-rank initializing = refl
unrank-rank ready = refl
unrank-rank syncing = refl
unrank-rank running = refl
unrank-rank stopping = refl
unrank-rank killed = refl
unrank-rank healing = refl

-- States that test as equal are equal.
pub is-same : (s t : NodeState) → is s t ≡ true → s ≡ t
is-same s t h =
    let (same, _) = nat_comparable.same_iff (rank s) (rank t) in
    sym (unrank-rank s) ∙ (ap unrank (same h) ∙ unrank-rank t)

-- The generation in a phase is not ahead of the node's, and that of a watcher stays behind it by the
-- starts under way.
abbrev pub IsKnown : ℕ → ℕ → Phase → Type 0
IsKnown gen pending p = elim p [
  | start_scanning g ↦ g ≤ gen
  | launching g ↦ g ≤ gen
  | watching g ↦ g + pending ≤ gen
  | _ ↦ Unit
]

pub IsKnown-mono :
    (gen pending gen' pending' : ℕ)
    → gen ≤ gen'
    → gen + pending' ≤ gen' + pending
    → (p : Phase) → IsKnown gen pending p
    → IsKnown gen' pending' p
IsKnown-mono gen pending gen' pending' le le' (start_scanning g) h = omega arith
IsKnown-mono gen pending gen' pending' le le' (launching g) h = omega arith
IsKnown-mono gen pending gen' pending' le le' (watching g) h = omega arith
IsKnown-mono gen pending gen' pending' le le' preparing h = tt
IsKnown-mono gen pending gen' pending' le le' connecting h = tt
IsKnown-mono gen pending gen' pending' le le' interrupting h = tt
IsKnown-mono gen pending gen' pending' le le' exit_awaited h = tt
IsKnown-mono gen pending gen' pending' le le' killing h = tt
IsKnown-mono gen pending gen' pending' le le' heal_scanning h = tt
IsKnown-mono gen pending gen' pending' le le' repairing h = tt

All-Pick :
    (P : Phase → Type 0) {p : Phase} {ps rest : List Phase}
    → Pick p ps rest
    → All P ps
    → P p × All P rest
All-Pick P first (h, hs) = (h, hs)
All-Pick P (later k) (h, hs) = let (own, others) = All-Pick P k hs in (own, (h, others))

-- What the actions under way have claimed of a node in a state: preparing and healing exactly while
-- the node is in their states, and a start or a stop only there.
abbrev pub IsClaimed : NodeState → ℕ → List Phase → Type 0
IsClaimed s gen ps =
    (number initializes ps ≡ one_if (is s initializing))
    × (number heals ps ≡ one_if (is s healing))
    × (number starts ps ≤ one_if (is s syncing))
    × (number stops ps ≤ one_if (is s stopping))
    × ((number starts ps ≡ 0) ⊎ (number connects ps ≡ 0))
    × All (IsKnown gen (number starts ps)) ps

-- The claims after an answer, and the change of the state.
abbrev pub Keeps : OperaNode → OperaNode → List Phase → Type 0
Keeps n m ps = IsClaimed m.state m.client_gen ps × Allowed n.state m.state

-- What is known of a phase that is picked, and of the others, at a state.
abbrev pub Left : NodeState → ℕ → Phase → List Phase → List Phase → Type 0
Left s gen p ps rest =
    (one_if (initializes p) + number initializes rest ≡ one_if (is s initializing))
    × (one_if (heals p) + number heals rest ≡ one_if (is s healing))
    × (one_if (starts p) + number starts rest ≤ one_if (is s syncing))
    × (one_if (stops p) + number stops rest ≤ one_if (is s stopping))
    × ((one_if (starts p) + number starts rest ≡ 0)
        ⊎ (one_if (connects p) + number connects rest ≡ 0))
    × (IsKnown gen (one_if (starts p) + number starts rest) p)
    × All (IsKnown gen (one_if (starts p) + number starts rest)) rest
    × All (IsKnown gen (number starts rest)) rest

pub Pick-Left :
    (gen : ℕ) {p : Phase} {ps rest : List Phase} (s s' : NodeState)
    → s ≡ s'
    → Pick p ps rest
    → IsClaimed s gen ps
    → Left s' gen p ps rest
Pick-Left gen {p = p} {ps = ps} {rest = rest} s s' e k c =
    let (i, h, st, sp, apart, known) = subst (λ x. IsClaimed x gen ps) e c in
    let (own, others) = All-Pick (IsKnown gen (number starts ps)) k known in
    let counted = number-Pick starts k in
    (
      ground (arith, number-Pick initializes k, i),
      ground (arith, number-Pick heals k, h),
      ground (arith, counted, st),
      ground (arith, number-Pick stops k, sp),
      ground (arith, counted, number-Pick connects k, apart),
      subst (λ x. IsKnown gen x p) counted own,
      subst (λ x. All (IsKnown gen x) rest) counted others,
      All-imp rest
          (IsKnown-mono gen (number starts ps) gen (number starts rest) (omega arith)
            (omega (arith, counted)))
          others,
    )

-- A phase of a kind is picked only while the node is in the state that the kind claims.
module _ (n : OperaNode) {p : Phase} {ps rest : List Phase} (k : Pick p ps rest) where
  open n use {state, client_gen}

  pub initializes-at :
      initializes p ≡ true
      → IsClaimed state client_gen ps
      → (state ≡ initializing) × Left initializing client_gen p ps rest
  initializes-at kind c =
      let at : state ≡ initializing =
        is-same state initializing (ground (arith, number-Pick initializes k)) in
      (at, Pick-Left client_gen state initializing at k c)

  pub heals-at :
      heals p ≡ true
      → IsClaimed state client_gen ps
      → (state ≡ healing) × Left healing client_gen p ps rest
  heals-at kind c =
      let at : state ≡ healing = is-same state healing (ground (arith, number-Pick heals k)) in
      (at, Pick-Left client_gen state healing at k c)

  pub starts-at :
      starts p ≡ true
      → IsClaimed state client_gen ps
      → (state ≡ syncing) × Left syncing client_gen p ps rest
  starts-at kind c =
      let at : state ≡ syncing = is-same state syncing (ground (arith, number-Pick starts k)) in
      (at, Pick-Left client_gen state syncing at k c)

  pub stops-at :
      stops p ≡ true
      → IsClaimed state client_gen ps
      → (state ≡ stopping) × Left stopping client_gen p ps rest
  stops-at kind c =
      let at : state ≡ stopping = is-same state stopping (ground (arith, number-Pick stops k)) in
      (at, Pick-Left client_gen state stopping at k c)
