-- ===== src/Node/Lifecycle/Steps.antt =====
-- A node with the actions that are under way on it, and how the two change in one step.
use norma.Base.{ℕ, ◌+◌, ◌≡◌, Bool, true, false, some, List, [], ◌∷◌, ◌++◌, arith}
use norma.Base.Map.{one_if}
use norma.Node.Lifecycle.{
  OperaNode, new_node, Action, Phase, Answer, start_sonicd, wait_for_sync, force_stop_sonicd, begin,
  resume, preparing, start_scanning, launching, connecting, interrupting, exit_awaited,
  heal_scanning, repairing,
}

pub record System : Type 0 where
  pub node : OperaNode
  pub phases : List Phase

-- `Pick p ps rest`: `p` is one of `ps`, and `rest` are the others.
pub data Pick (p : Phase) : List Phase → List Phase → Type 0 where
  first : {ps : List Phase} → Pick p (p ∷ ps) ps
  later : {q : Phase} {ps rest : List Phase} → Pick p ps rest → Pick p (q ∷ ps) (q ∷ rest)

-- The system when a phase got its answer, with the phases that did not.
abbrev pub after : Phase → Answer → OperaNode → List Phase → System
after p a n rest = let (m, next) = resume p a n in record { node = m; phases = next ++ rest }

-- An action is called and claims its state, or one of those under way gets its answer. Calls that
-- fail change nothing.
pub data Step : System → System → Type 0 where
  called :
      {n m : OperaNode} {p : Phase} {ps : List Phase} (a : Action)
      → begin a n ≡ some (m, p)
      → Step (record { node = n; phases = ps }) (record { node = m; phases = p ∷ ps })
  answered :
      {n : OperaNode} {ps rest : List Phase} (p : Phase) (a : Answer)
      → Pick p ps rest
      → Step (record { node = n; phases = ps }) (after p a n rest)

-- How many of the phases are of a kind.
unfoldable pub number : (Phase → Bool) → List Phase → ℕ
number is_kind [] = 0
number is_kind (p ∷ ps) = one_if (is_kind p) + number is_kind ps

abbrev pub initializes : Phase → Bool
initializes p = elim p [ preparing ↦ true | _ ↦ false ]

abbrev pub starts : Phase → Bool
starts p = elim p [ start_scanning g ↦ true | launching g ↦ true | _ ↦ false ]

abbrev pub connects : Phase → Bool
connects p = elim p [ connecting ↦ true | _ ↦ false ]

abbrev pub stops : Phase → Bool
stops p = elim p [ interrupting ↦ true | exit_awaited ↦ true | _ ↦ false ]

abbrev pub heals : Phase → Bool
heals p = elim p [ heal_scanning ↦ true | repairing ↦ true | _ ↦ false ]

-- The calls that wait for their turn: a kill comes after the stop that it escalates has returned,
-- and a start and the wait for the sync do not overlap.
abbrev pub IsTimely : Action → List Phase → Type 0
IsTimely a ps = elim a [
  | force_stop_sonicd ↦ number stops ps ≡ 0
  | wait_for_sync ↦ number starts ps ≡ 0
  | start_sonicd ↦ number connects ps ≡ 0
  | _ ↦ Unit
]

abbrev pub IsOrderly : {s t : System} → Step s t → Type 0
IsOrderly (called {ps = ps} a e) = IsTimely a ps
IsOrderly (answered p a k) = Unit

-- The systems that orderly steps lead to from a new node.
pub data Reachable : System → Type 0 where
  created : Reachable (record { node = new_node; phases = [] })
  moved : {s t : System} → Reachable s → (step : Step s t) → IsOrderly step → Reachable t

pub number-Pick :
    (is_kind : Phase → Bool) {p : Phase} {ps rest : List Phase}
    → Pick p ps rest
    → number is_kind ps ≡ one_if (is_kind p) + number is_kind rest
unfolding number
number-Pick is_kind first = omega arith
number-Pick is_kind (later {q = q} k) = omega (arith, number-Pick is_kind k)
