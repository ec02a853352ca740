-- ===== src/Local/Dialing.antt =====
-- DialRandomRpc of driver/network/local/local.go.
use norma.Base.{
  ℕ, ◌≡◌, ◌↔◌, ◌⊎◌, inl, inr, refl, subst, ap, arith, keep, not, Bool, true, false, List, [], ◌∷◌,
  All, All-imp, All-self, Some, Bool-cases,
}
use norma.Base.Results.{Result, ok, err}
use norma.Local.{
  LocalNetwork, get_active_nodes, DialError, empty_network, no_reachable_node, first_responding,
  candidates, is_nonempty, dial_random_rpc,
}

-- A shuffle has the members of the list.
abbrev pub IsShuffle : (List ℕ → List ℕ) → Type 0
IsShuffle shuffle = (xs : List ℕ) (x : ℕ) → Some (λ y. y ≡ x) (shuffle xs) ↔ Some (λ y. y ≡ x) xs

-- What a dial says of the nodes that were tried.
abbrev Tried : (ℕ → Bool) → List ℕ → Result DialError ℕ → Type 0
Tried responds nodes (ok node) = Some (λ y. y ≡ node) nodes × (responds node ≡ true)
Tried responds nodes (err empty_network) = ⊥
Tried responds nodes (err no_reachable_node) = All (λ y. responds y ≡ false) nodes

first_responding-Tried :
    (responds : ℕ → Bool) (nodes : List ℕ) → Tried responds nodes (first_responding responds nodes)
unfolding first_responding
first_responding-Tried responds [] = tt
first_responding-Tried responds (node ∷ nodes) = elim (Bool-cases (responds node)) [
  | inl up ↦ rw (first_responding, up) (inl refl, up)
  | inr down ↦
      rw (first_responding, down)
        (later responds node nodes (first_responding responds nodes) down
          (first_responding-Tried responds nodes))
]
  where
    later :
        (responds : ℕ → Bool) (node : ℕ) (nodes : List ℕ) (r : Result DialError ℕ)
        → responds node ≡ false
        → Tried responds nodes r
        → Tried responds (node ∷ nodes) r
    later responds node nodes (ok n) down (found, up) = (inr found, up)
    later responds node nodes (err empty_network) down h = h
    later responds node nodes (err no_reachable_node) down h = (down, h)

-- A node may be tried if it is not expected to fail, or if all of them are.
abbrev pub IsEligible : (ℕ → Bool) → List ℕ → ℕ → Type 0
IsEligible is_failing active node =
    (is_failing node ≡ false) ⊎ All (λ y. is_failing y ≡ true) active

-- What a dial says of the network: an eligible node that answers, or that there is no active node, or
-- that no eligible one answers.
abbrev pub Dialed : (ℕ → Bool) → (ℕ → Bool) → List ℕ → Result DialError ℕ → Type 0
Dialed is_failing responds active (ok node) =
    Some (λ y. y ≡ node) active × IsEligible is_failing active node × (responds node ≡ true)
Dialed is_failing responds active (err empty_network) = active ≡ []
Dialed is_failing responds active (err no_reachable_node) =
    All (λ y. IsEligible is_failing active y → responds y ≡ false) active

-- The nodes that DialRandomRpc tries are the eligible ones.
keep-member :
    (p : ℕ → Bool) (xs : List ℕ) (x : ℕ)
    → Some (λ y. y ≡ x) (keep p xs) ↔ (Some (λ y. y ≡ x) xs × (p x ≡ true))
keep-member p [] x = (λ s. elim s [ ], λ (s, h). elim s [ ])
keep-member p (y ∷ xs) x =
    let (to, from) = keep-member p xs x in
    elim (Bool-cases (p y)) [
      | inl kept ↦ rw kept (
        λ s. elim s [
          | inl e ↦ (inl e, subst (λ z. p z ≡ true) e kept)
          | inr r ↦ let (m, h) = to r in (inr m, h)
        ],
        λ (s, h). elim s [ inl e ↦ inl e | inr r ↦ inr (from (r, h)) ],
      )
      | inr out ↦ rw out (
        λ s. let (m, h) = to s in (inr m, h),
        λ (s, h). elim s [
          | inl e ↦ let same : p y ≡ p x = ap p e in absurd (ground (arith, out, h, same))
          | inr r ↦ from (r, h)
        ],
      )
    ]

none_kept :
    (is_failing : ℕ → Bool) (xs : List ℕ)
    → is_nonempty (keep (λ y. not (is_failing y)) xs) ≡ false
    → All (λ y. is_failing y ≡ true) xs
none_kept is_failing [] h = tt
none_kept is_failing (y ∷ xs) h = ground (arith, none_kept is_failing xs, h)

some_kept :
    (is_failing : ℕ → Bool) (xs : List ℕ)
    → is_nonempty (keep (λ y. not (is_failing y)) xs) ≡ true
    → All (λ y. is_failing y ≡ true) xs
    → ⊥
some_kept is_failing [] h a = cc
some_kept is_failing (y ∷ xs) h (own, a) = ground (arith, some_kept is_failing xs, h, own, a)

candidates-member :
    (is_failing : ℕ → Bool) (active : List ℕ) (x : ℕ)
    → Some (λ y. y ≡ x) (candidates is_failing active)
      ↔ (Some (λ y. y ≡ x) active × IsEligible is_failing active x)
candidates-member is_failing active x =
    let reliable = keep (λ node. not (is_failing node)) active in
    elim (Bool-cases (is_nonempty reliable)) [
      | inl full ↦
          let (to, from) = keep-member (λ y. not (is_failing y)) active x in
          rw full (
            λ s. let (m, h) = to s in (m, inl (ground (arith, h))),
            λ (m, h). elim h [
              | inl good ↦ from (m, rw good)
              | inr all_fail ↦ absurd (some_kept is_failing active full all_fail)
            ],
          )
      | inr empty ↦
          let all_fail = none_kept is_failing active empty in
          rw empty (λ s. (s, inr all_fail), λ (s, h). s)
    ]

All-member : (P : ℕ → Type 0) (xs : List ℕ) (x : ℕ) → All P xs → Some (λ y. y ≡ x) xs → P x
All-member P [] x h member = elim member [ ]
All-member P (y ∷ xs) x (h, hs) (inl e) = subst P e h
All-member P (y ∷ xs) x (h, hs) (inr s) = All-member P xs x hs s

unshuffled :
    (shuffle : List ℕ → List ℕ) (is_failing responds : ℕ → Bool) (active : List ℕ)
    (r : Result DialError ℕ)
    → IsShuffle shuffle
    → Tried responds (shuffle (candidates is_failing active)) r
    → Dialed is_failing responds active r
unshuffled shuffle is_failing responds active (ok node) same (found, up) =
    let (m, fit) =
      (candidates-member is_failing active node).0
        ((same (candidates is_failing active) node).0 found) in
    (m, fit, up)
unshuffled shuffle is_failing responds active (err empty_network) same h = elim h [ ]
unshuffled shuffle is_failing responds active (err no_reachable_node) same h =
    let tried = candidates is_failing active in
    All-imp active
      (λ x member fit.
        All-member (λ y. responds y ≡ false) (shuffle tried) x h
          ((same tried x).1 ((candidates-member is_failing active x).1 (member, fit))))
      (All-self active)

-- DialRandomRpc, however it shuffles, gives a running node that answers, one that is not expected to
-- fail unless all running nodes are; it fails only where no node is running or where none of the
-- running nodes that it may give so answers.
pub dial_random_rpc-Dialed :
    (shuffle : List ℕ → List ℕ) (is_running is_failing responds : ℕ → Bool) (net : LocalNetwork)
    → IsShuffle shuffle
    → let active = get_active_nodes is_running net in
      Dialed is_failing responds active (dial_random_rpc shuffle is_running is_failing responds net)
unfolding dial_random_rpc
dial_random_rpc-Dialed shuffle is_running is_failing responds net same =
    dialed (get_active_nodes is_running net)
  where
    dialed :
        (active : List ℕ)
        → Dialed is_failing responds active (elim active [
          | [] ↦ err empty_network
          | node ∷ nodes ↦
              first_responding responds (shuffle (candidates is_failing (node ∷ nodes)))
        ])
    dialed [] = refl
    dialed (node ∷ nodes) =
        let tried = candidates is_failing (node ∷ nodes) in
        unshuffled shuffle is_failing responds (node ∷ nodes)
          (first_responding responds (shuffle tried)) same
          (first_responding-Tried responds (shuffle tried))
