-- ===== src/Checking/Blocks/Verdicts.antt =====
-- What the verdicts of the two block production checks say of the observed heights.
use mathlib.Core.List.{head?}
use norma.Base.{
  Some, String, ℕ, ◌≤◌, ◌<◌, ◌≡◌, ◌≢◌, refl, subst, All, ◌↔◌, inl, inr, Bool, true, false, none,
  some, List, [], ◌∷◌, length, last?, ltb, arith, Bool-cases, Option-cases,
}
use norma.Base.Int.{ℤ}
use norma.Base.Results.{Result, ok, err, ◌>>=◌, ◌>>◌}
use norma.Series.{DataPoint}
use norma.Checking.Timing.{WindowError, observation_window}
use norma.Checking.Blocks.{
  BlockStatus, Points, Monitored, Config, observed, height_of, advances, halted_node, points_still,
  halted_nodes, check_halted, grew, rolling_node, rolling_nodes, check_rolling, or_bad_window,
  waited, still_producing,
}

last?-cons : (p : DataPoint BlockStatus) (ps : Points) → last? (p ∷ ps) ≢ none
last?-cons p [] e = cc
last?-cons p (q ∷ ps) e = last?-cons q ps e

-- A height that ends higher than it began rose between two consecutive samples.
grew_advances :
    (p : DataPoint BlockStatus) (ps : Points) (q : DataPoint BlockStatus)
    → last? (p ∷ ps) ≡ some q
    → height_of p < height_of q
    → advances (p ∷ ps) ≡ true
unfolding advances
grew_advances p [] q e h = grind arith
grew_advances p (r ∷ ps) q e h = elim (Bool-cases (ltb (height_of p) (height_of r))) [
  | inl up ↦ rw up
  | inr flat ↦ rw flat (grew_advances r ps q e (ground arith))
]

grew-advances :
    (points : Points) → grew points ≡ true → (2 ≤ length points) × (advances points ≡ true)
grew-advances [] h = cc
grew-advances (p ∷ []) h = absurd (ground arith)
grew-advances (p ∷ q ∷ ps) h = elim (Option-cases (last? (q ∷ ps))) [
  | inl e ↦ absurd (last?-cons q ps e)
  | inr (r, e) ↦ (omega arith, grew_advances p (q ∷ ps) r e (ground arith))
]

-- A node that passes the one check fails the other.
rolling_node-halted_node :
    (start : ℕ) (node : Monitored) → rolling_node start node ≡ true → halted_node start node ≡ false
unfolding rolling_node halted_node
rolling_node-halted_node start (name, series) h = elim (Option-cases (observed start series)) [
  | inl e ↦ ground arith
  | inr (points, e) ↦ ground (arith, grew-advances points)
]

-- The heights never rise from one sample to the next.
abbrev pub NeverRises : Points → Type 0
NeverRises [] = Unit
NeverRises (p ∷ []) = Unit
NeverRises (p ∷ q ∷ ps) = (height_of q ≤ height_of p) × NeverRises (q ∷ ps)

advances-NeverRises : (points : Points) → (advances points ≡ false) ↔ NeverRises points
unfolding advances
advances-NeverRises [] = (λ h. tt, λ h. refl)
advances-NeverRises (p ∷ []) = (λ h. tt, λ h. refl)
advances-NeverRises (p ∷ q ∷ ps) =
    let (to, from) = advances-NeverRises (q ∷ ps) in
    (λ h. ground (arith, to), λ h. ground (arith, from))

-- A node that was watched for two samples or more kept its height or fell.
abbrev pub IsStill : ℕ → Monitored → Type 0
IsStill start node =
    (points : Points) → observed start node.1 ≡ some points → 2 ≤ length points → NeverRises points

points_still-NeverRises :
    (points : Points) → (points_still points ≡ true) ↔ (2 ≤ length points → NeverRises points)
unfolding points_still
points_still-NeverRises points =
    let (to, from) = advances-NeverRises points in
    elim (Bool-cases (ltb (length points) 2)) [
      | inl short ↦ rw short (λ h long. absurd (ground arith), λ h. refl)
      | inr long ↦ rw long (λ h _. to (ground arith), λ h. rw (from (h (ground arith))))
    ]

halted_node-IsStill :
    (start : ℕ) (node : Monitored) → (halted_node start node ≡ true) ↔ IsStill start node
unfolding halted_node
halted_node-IsStill start (name, series) = elim (Option-cases (observed start series)) [
  | inl e ↦ (λ h points e' long. cc, λ still. ground arith)
  | inr (points, e) ↦ (
    λ h ps e' long.
        let same : points ≡ ps = cc in
        subst (λ l. 2 ≤ length l → NeverRises l) same
          ((points_still-NeverRises points).0 (ground arith)) long,
    λ still. rw (e, halted_node) ((points_still-NeverRises points).1 (still points e)),
  )
]

-- The network is reported halted exactly if no watched node rose.
halted_nodes-IsStill :
    (start : ℕ) (nodes : List Monitored)
    → (halted_nodes start nodes ≡ ok tt) ↔ All (IsStill start) nodes
unfolding halted_nodes
halted_nodes-IsStill start [] = (λ h. tt, λ h. refl)
halted_nodes-IsStill start (node ∷ nodes) =
    let (to, from) = halted_nodes-IsStill start nodes in
    let (to_node, from_node) = halted_node-IsStill start node in
    elim (Bool-cases (halted_node start node)) [
      | inl still ↦ rw still (λ h. (to_node still, to h), λ h. from h.1)
      | inr moved ↦ rw moved (λ h. cc, λ h. cc (from_node h.0))
    ]

-- Some node ended its watch higher than it began it.
abbrev pub IsGrowing : ℕ → Monitored → Type 0
IsGrowing start node =
    (points : Points) × (p : DataPoint BlockStatus) × (q : DataPoint BlockStatus) × (observed start
        node.1
      ≡ some points)
    × (head? points ≡ some p)
    × (last? points ≡ some q)
    × (height_of p < height_of q)

grew-heights :
    (points : Points)
    → grew points ≡ true
    → (p : DataPoint BlockStatus) × (q : DataPoint BlockStatus) × (head? points ≡ some p)
      × (last? points ≡ some q)
      × (height_of p < height_of q)
grew-heights [] h = cc
grew-heights (p ∷ ps) h = elim (Option-cases (last? (p ∷ ps))) [
  | inl e ↦ absurd (last?-cons p ps e)
  | inr (q, e) ↦ (p, q, refl, e, ground arith)
]

heights-grew :
    (points : Points) (p q : DataPoint BlockStatus)
    → head? points ≡ some p
    → last? points ≡ some q
    → height_of p < height_of q
    → grew points ≡ true
heights-grew [] p q h l lt = cc
heights-grew (r ∷ ps) p q h l lt = ground arith

rolling_node-IsGrowing :
    (start : ℕ) (node : Monitored) → (rolling_node start node ≡ true) ↔ IsGrowing start node
unfolding rolling_node
rolling_node-IsGrowing start (name, series) = elim (Option-cases (observed start series)) [
  | inl e ↦ (λ h. absurd (ground arith), λ (points, p, q, e', head, last, lt). cc)
  | inr (points, e) ↦ (
    λ h.
        let (p, q, head, last, lt) = grew-heights points (ground arith) in
        (points, p, q, e, head, last, lt),
    λ (ps, p, q, e', head, last, lt). rw (e', rolling_node) (heights-grew ps p q head last lt),
  )
]

rolling_nodes-IsGrowing :
    (start : ℕ) (nodes : List Monitored)
    → (rolling_nodes start nodes ≡ ok tt) ↔ Some (IsGrowing start) nodes
unfolding rolling_nodes
rolling_nodes-IsGrowing start [] = (λ h. cc, λ h. absurd h)
rolling_nodes-IsGrowing start (node ∷ nodes) =
    let (to, from) = rolling_nodes-IsGrowing start nodes in
    let (to_node, from_node) = rolling_node-IsGrowing start node in
    elim (Bool-cases (rolling_node start node)) [
      | inl up ↦ rw up (λ h. inl (to_node up), λ h. refl)
      | inr flat ↦ rw flat (λ h. inr (to h), elim [ inl g ↦ cc (from_node g) | inr g ↦ from g ])
    ]

rolling_nodes-halted_nodes :
    (start : ℕ) (nodes : List Monitored)
    → rolling_nodes start nodes ≡ ok tt
    → (name : String) × (halted_nodes start nodes ≡ err (still_producing name))
unfolding rolling_nodes halted_nodes
rolling_nodes-halted_nodes start [] h = cc
rolling_nodes-halted_nodes start (node ∷ nodes) h = elim (Bool-cases (rolling_node start node)) [
  | inl up ↦ (node.0, rw (rolling_node-halted_node start node up))
  | inr flat ↦
      let (name, e) = rolling_nodes-halted_nodes start nodes (ground arith) in
      elim (Bool-cases (halted_node start node)) [
        | inl still ↦ (name, rw still e)
        | inr moved ↦ (node.0, rw moved)
      ]
]

module _ (c : Config) (window : ℤ)
    (granted : observation_window c.duration c.tolerance_samples ≡ ok window) (start : ℕ)
    (nodes : List Monitored) where
  -- Once the wait is over, the halt check passes exactly if every node with at least two samples in
  -- the observed time never rose from one sample to the next.
  check_halted-IsStill : (check_halted c start true nodes ≡ ok tt) ↔ All (IsStill start) nodes
  unfolding check_halted
  check_halted-IsStill = rw granted (halted_nodes-IsStill start nodes)

  -- Once the wait is over, the production check passes exactly if the last sample of some node in
  -- the observed time is higher than its first.
  check_rolling-IsGrowing :
      (check_rolling c start true nodes ≡ ok tt) ↔ Some (IsGrowing start) nodes
  unfolding check_rolling
  check_rolling-IsGrowing = rw granted (rolling_nodes-IsGrowing start nodes)

-- Whatever the configuration and the samples, where the production check passes the halt check
-- fails, and names a node: no observation satisfies both.
check_rolling-check_halted :
    (c : Config) (start : ℕ) (slept : Bool) (nodes : List Monitored)
    → check_rolling c start slept nodes ≡ ok tt
    → (name : String) × (check_halted c start slept nodes ≡ err (still_producing name))
unfolding check_rolling check_halted
check_rolling-check_halted c start slept nodes h =
    go (observation_window c.duration c.tolerance_samples) slept h
  where
    go :
        (r : Result WindowError ℤ) (s : Bool)
        → (do w ← or_bad_window r; waited s; rolling_nodes start nodes) ≡ ok tt
        → (name : String) × ((do w ← or_bad_window r; waited s; halted_nodes start nodes)
            ≡ err (still_producing name))
    go (err e) s h = cc
    go (ok w) true h = rolling_nodes-halted_nodes start nodes h
    go (ok w) false h = cc

-- Once the wait is over, the halt check passes exactly if every node with at least two samples in the
-- observed time never rose from one sample to the next, and the production check exactly if
-- the last sample of some node in the observed time is higher than its first. No observation satisfies
-- both: where the production check passes the halt check fails, and names a node.
pub block_checks_decide :
    (c : Config) (window : ℤ)
    → observation_window c.duration c.tolerance_samples ≡ ok window
    → (start : ℕ) (nodes : List Monitored)
    → ((check_halted c start true nodes ≡ ok tt) ↔ All (IsStill start) nodes)
      × ((check_rolling c start true nodes ≡ ok tt) ↔ Some (IsGrowing start) nodes)
      × (check_rolling c start true nodes ≡ ok tt
          → (name : String) × (check_halted c start true nodes ≡ err (still_producing name)))
block_checks_decide c window granted start nodes = (
  check_halted-IsStill c window granted start nodes,
  check_rolling-IsGrowing c window granted start nodes,
  check_rolling-check_halted c start true nodes,
)
