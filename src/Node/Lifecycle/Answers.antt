-- ===== src/Node/Lifecycle/Answers.antt =====
-- That an answer to an action under way keeps the claims, and changes the state as the diagram has
-- it, for each phase of driver/node/node_actions.go.
use norma.Base.{
  ℕ, zero, suc, ◌≡◌, inl, inr, refl, sym, subst, ◌∙◌, List, ◌∷◌, ◌++◌, arith, nat_comparable,
  Bool-cases, ◌==◌,
}
use norma.Node.Lifecycle.{
  syncing, running, stopping, healing, is, OperaNode, attach_client, Phase, Answer, resume,
  preparing, start_scanning, launching, connecting, interrupting, exit_awaited, killing,
  heal_scanning, repairing, watching, failed, replied,
}
use norma.Node.Lifecycle.Diagram.{
  initialized, initialize_failed, start_failed, synced, stopped, stop_failed, force_stopped,
  escalated, exited_syncing, healed, heal_failed,
}
use norma.Node.Lifecycle.Steps.{Pick, number}
use norma.Node.Lifecycle.Claims.{
  IsClaimed, Keeps, Pick-Left, is-same, initializes-at, heals-at, starts-at, stops-at,
}

preparing-Keeps :
    (n : OperaNode) (a : Answer) (ps rest : List Phase)
    → Pick preparing ps rest
    → IsClaimed n.state n.client_gen ps
    → let (m, next) = resume preparing a n in Keeps n m (next ++ rest)
unfolding resume
preparing-Keeps n failed ps rest k c =
    let (at, left) = initializes-at n k refl c in
    (ground (arith, left), inr (rw at initialize_failed))
preparing-Keeps n (replied v) ps rest k c =
    let (at, left) = initializes-at n k refl c in rw at (ground (arith, left), inr initialized)

start_scanning-Keeps :
    (n : OperaNode) (g : ℕ) (a : Answer) (ps rest : List Phase)
    → Pick (start_scanning g) ps rest
    → IsClaimed n.state n.client_gen ps
    → let (m, next) = resume (start_scanning g) a n in Keeps n m (next ++ rest)
unfolding resume number
start_scanning-Keeps n g failed ps rest k c =
    let (at, left) = starts-at n k refl c in (ground (arith, left), inr (rw at start_failed))
start_scanning-Keeps n g (replied zero) ps rest k c =
    let (at, left) = starts-at n k refl c in
    let claimed : IsClaimed syncing n.client_gen (launching g ∷ rest) = ground (arith, left) in
    (rw at claimed, inl refl)
start_scanning-Keeps n g (replied (suc v)) ps rest k c =
    let (at, left) = starts-at n k refl c in (ground (arith, left), inr (rw at start_failed))

attach_client-keeps :
    (g : ℕ) (n : OperaNode)
    → ((attach_client g n).state ≡ n.state) × ((attach_client g n).client_gen ≡ n.client_gen)
attach_client-keeps g n = elim (Bool-cases (n.client_gen == g)) [
  | inl same ↦ rw same (refl, refl)
  | inr other ↦ rw other (refl, refl)
]

launching-Keeps :
    (n : OperaNode) (g : ℕ) (a : Answer) (ps rest : List Phase)
    → Pick (launching g) ps rest
    → IsClaimed n.state n.client_gen ps
    → let (m, next) = resume (launching g) a n in Keeps n m (next ++ rest)
unfolding resume number
launching-Keeps n g failed ps rest k c =
    let (at, left) = starts-at n k refl c in (ground (arith, left), inr (rw at start_failed))
launching-Keeps n g (replied v) ps rest k c =
    let (at, left) = starts-at n k refl c in
    let (same_state, same_gen) = attach_client-keeps g n in
    let claimed : IsClaimed syncing n.client_gen (watching g ∷ rest) = ground (arith, left) in
    let at_gen = subst (λ x. IsClaimed syncing x (watching g ∷ rest)) (sym same_gen) claimed in
    (
      subst (λ x. IsClaimed x (attach_client g n).client_gen (watching g ∷ rest))
          (sym (same_state ∙ at)) at_gen,
      inl (sym same_state),
    )

interrupting-Keeps :
    (n : OperaNode) (a : Answer) (ps rest : List Phase)
    → Pick interrupting ps rest
    → IsClaimed n.state n.client_gen ps
    → let (m, next) = resume interrupting a n in Keeps n m (next ++ rest)
unfolding resume number
interrupting-Keeps n failed ps rest k c =
    let (at, left) = stops-at n k refl c in (ground (arith, left), inr (rw at stop_failed))
interrupting-Keeps n (replied zero) ps rest k c =
    let (at, left) = stops-at n k refl c in (ground (arith, left), inr (rw at escalated))
interrupting-Keeps n (replied (suc v)) ps rest k c =
    let (at, left) = stops-at n k refl c in
    let claimed : IsClaimed stopping n.client_gen (exit_awaited ∷ rest) = ground (arith, left) in
    (rw at claimed, inl refl)

exit_awaited-Keeps :
    (n : OperaNode) (a : Answer) (ps rest : List Phase)
    → Pick exit_awaited ps rest
    → IsClaimed n.state n.client_gen ps
    → let (m, next) = resume exit_awaited a n in Keeps n m (next ++ rest)
unfolding resume
exit_awaited-Keeps n failed ps rest k c =
    let (at, left) = stops-at n k refl c in (rw at (ground (arith, left)), inl refl)
exit_awaited-Keeps n (replied v) ps rest k c =
    let (at, left) = stops-at n k refl c in rw at (ground (arith, left), inr stopped)

heal_scanning-Keeps :
    (n : OperaNode) (a : Answer) (ps rest : List Phase)
    → Pick heal_scanning ps rest
    → IsClaimed n.state n.client_gen ps
    → let (m, next) = resume heal_scanning a n in Keeps n m (next ++ rest)
unfolding resume number
heal_scanning-Keeps n failed ps rest k c =
    let (at, left) = heals-at n k refl c in (ground (arith, left), inr (rw at heal_failed))
heal_scanning-Keeps n (replied zero) ps rest k c =
    let (at, left) = heals-at n k refl c in
    let claimed : IsClaimed healing n.client_gen (repairing ∷ rest) = ground (arith, left) in
    (rw at claimed, inl refl)
heal_scanning-Keeps n (replied (suc v)) ps rest k c =
    let (at, left) = heals-at n k refl c in (ground (arith, left), inr (rw at heal_failed))

repairing-Keeps :
    (n : OperaNode) (a : Answer) (ps rest : List Phase)
    → Pick repairing ps rest
    → IsClaimed n.state n.client_gen ps
    → let (m, next) = resume repairing a n in Keeps n m (next ++ rest)
unfolding resume
repairing-Keeps n failed ps rest k c =
    let (at, left) = heals-at n k refl c in (ground (arith, left), inr (rw at heal_failed))
repairing-Keeps n (replied v) ps rest k c =
    let (at, left) = heals-at n k refl c in rw at (ground (arith, left), inr healed)

connecting-Keeps :
    (n : OperaNode) (a : Answer) (ps rest : List Phase)
    → Pick connecting ps rest
    → IsClaimed n.state n.client_gen ps
    → let (m, next) = resume connecting a n in Keeps n m (next ++ rest)
unfolding resume
connecting-Keeps n failed ps rest k c =
    let left = Pick-Left n.client_gen n.state n.state refl k c in (ground (arith, left), inl refl)
connecting-Keeps n (replied v) ps rest k c = elim (Bool-cases (is n.state syncing)) [
  | inl same ↦
      let at = is-same n.state syncing same in
      let left = Pick-Left n.client_gen n.state syncing at k c in
      rw at (ground (arith, left), inr synced)
  | inr other ↦
      let left = Pick-Left n.client_gen n.state n.state refl k c in
      rw other (ground (arith, left), inl refl)
]

watching-Keeps :
    (n : OperaNode) (g : ℕ) (a : Answer) (ps rest : List Phase)
    → Pick (watching g) ps rest
    → IsClaimed n.state n.client_gen ps
    → let (m, next) = resume (watching g) a n in Keeps n m (next ++ rest)
unfolding resume
watching-Keeps n g a ps rest k c =
    let left = Pick-Left n.client_gen n.state n.state refl k c in
    elim (Bool-cases (n.client_gen == g)) [
      | inr retired ↦ rw retired (ground (arith, left), inl refl)
      | inl same ↦ elim (Bool-cases (is n.state syncing)) [
        | inl up ↦
            let at = is-same n.state syncing up in
            let left' = Pick-Left n.client_gen n.state syncing at k c in
            rw (same, at) (ground (arith, left'), inr exited_syncing)
        | inr other ↦ elim (Bool-cases (is n.state running)) [
          | inl up ↦
              let at = is-same n.state running up in
              let left' = Pick-Left n.client_gen n.state running at k c in
              rw (same, at) (ground (arith, left'), inr force_stopped)
          | inr down ↦ rw (same, other, down) (ground (arith, left), inl refl)
        ]
      ]
    ]

killing-Keeps :
    (n : OperaNode) (a : Answer) (ps rest : List Phase)
    → Pick killing ps rest
    → IsClaimed n.state n.client_gen ps
    → let (m, next) = resume killing a n in Keeps n m (next ++ rest)
unfolding resume
killing-Keeps n a ps rest k c =
    let left = Pick-Left n.client_gen n.state n.state refl k c in (ground (arith, left), inl refl)

pub resume-Keeps :
    (n : OperaNode) (p : Phase) (a : Answer) (ps rest : List Phase)
    → Pick p ps rest
    → IsClaimed n.state n.client_gen ps
    → let (m, next) = resume p a n in Keeps n m (next ++ rest)
resume-Keeps n preparing a = preparing-Keeps n a
resume-Keeps n (start_scanning g) a = start_scanning-Keeps n g a
resume-Keeps n (launching g) a = launching-Keeps n g a
resume-Keeps n connecting a = connecting-Keeps n a
resume-Keeps n interrupting a = interrupting-Keeps n a
resume-Keeps n exit_awaited a = exit_awaited-Keeps n a
resume-Keeps n killing a = killing-Keeps n a
resume-Keeps n heal_scanning a = heal_scanning-Keeps n a
resume-Keeps n repairing a = repairing-Keeps n a
resume-Keeps n (watching g) a = watching-Keeps n g a
