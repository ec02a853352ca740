-- ===== src/Checking/Throttling/Passed.antt =====
-- What a check of the event throttler that passes says of the nodes.
use norma.Base.{
  ℕ, ◌≡◌, ◌⊎◌, ◌≢◌, inl, inr, sym, ap, ◌∙◌, true, false, some, List, [], ◌∷◌, String, contains,
  nat_comparable, string_comparable, ◌==◌, Bool-cases, Option-cases, All, All-imp, Some, Some-imp,
  arith, subst, some_injective,
}
use norma.Base.Map.{Map, lookup, insert, lookup-insert}
use norma.Base.Results.{Result, ok, bind-ok, ok_injective}
use norma.Checking.Snapshots.{ThrottleError}
use norma.Checking.Throttling.{
  RateArithmetic, ThrottleNode, by_label, throttled_ids, dial_first_reachable, check_throttled,
}
use norma.Checking.Throttling.Verdict.{
  IsLinear, IsFastest, IsSlowest, IsGap, verify_throttled-IsGap,
}

-- Every label leads to one of the ids.
throttled_ids-found :
    (m : Map String ℕ) (labels : List String) (ids : List ℕ)
    → throttled_ids m labels ≡ ok ids
    → All (λ label. (id : ℕ) × (lookup label m ≡ some id) × (contains ids id ≡ true)) labels
unfolding throttled_ids
throttled_ids-found m [] ids h = tt
throttled_ids-found m (label ∷ labels) ids h = elim (Option-cases (lookup label m)) [
  | inl e ↦ absurd (ground (arith, e, h))
  | inr (id, e) ↦
      let (rest, others, whole) =
        bind-ok (throttled_ids m labels) (λ ids. ok (id ∷ ids)) ids (rw (throttled_ids, e) at h) in
      let same = ok_injective (id ∷ rest) ids whole in
      let ih = throttled_ids-found m labels rest others in
      (
        (
          id,
          e,
          subst (λ l. contains l id ≡ true) same (ground (arith, nat_comparable.same_iff id id)),
        ),
        All-imp labels
            (λ l (i, f, c). (i, f, subst (λ k. contains k i ≡ true) same (ground (arith, c)))) ih,
      )
]

-- Every id is that of a label.
throttled_ids-only :
    (m : Map String ℕ) (labels : List String) (ids : List ℕ)
    → throttled_ids m labels ≡ ok ids
    → All (λ id. Some (λ label. lookup label m ≡ some id) labels) ids
unfolding throttled_ids
throttled_ids-only m [] ids h = subst (All (λ id. ⊥)) (ok_injective {E = ThrottleError} [] ids h) tt
throttled_ids-only m (label ∷ labels) ids h = elim (Option-cases (lookup label m)) [
  | inl e ↦ absurd (ground (arith, e, h))
  | inr (id, e) ↦
      let (rest, others, whole) =
        bind-ok (throttled_ids m labels) (λ ids. ok (id ∷ ids)) ids (rw (throttled_ids, e) at h) in
      subst (All (λ i. Some (λ l. lookup l m ≡ some i) (label ∷ labels)))
        (ok_injective (id ∷ rest) ids whole)
        (inl e, All-imp rest (λ i s. inr s) (throttled_ids-only m labels rest others))
]

module _ {C : Type 0} where
  -- A node of the label runs the validator.
  abbrev pub Runs : String → ℕ → ThrottleNode C → Type 0
  Runs label id n = (n.label ≡ label) × (n.validator_id ≡ some id)

  by_label-Runs :
      (m : Map String ℕ) (ns : List (ThrottleNode C)) (label : String) (id : ℕ)
      → lookup label (by_label m ns) ≡ some id
      → (lookup label m ≡ some id) ⊎ Some (Runs label id) ns
  unfolding by_label
  by_label-Runs m [] label id h = inl h
  by_label-Runs m (n ∷ ns) label id h = elim (Option-cases n.validator_id) [
    | inl e ↦ elim (by_label-Runs m ns label id (rw (by_label, e) at h)) [
      | inl k ↦ inl k
      | inr s ↦ inr (inr s)
    ]
    | inr (own, e) ↦
        elim (by_label-Runs (insert n.label own m) ns label id (rw (by_label, e) at h)) [
          | inr s ↦ inr (inr s)
          | inl k ↦ elim (Bool-cases (n.label == label)) [
            | inr other ↦ inl (ground (arith, k, other, lookup-insert n.label label own m))
            | inl same ↦
                let found : own ≡ id =
                  some_injective own id
                    (sym (ground (arith, same, lookup-insert n.label label own m)) ∙ k) in
                inr (inl ((string_comparable.same_iff n.label label).0 same, e ∙ ap some found))
          ]
        ]
  ]

  found-Runs :
      (ns : List (ThrottleNode C)) (label : String) (id : ℕ)
      → lookup label (by_label [] ns) ≡ some id
      → Some (Runs label id) ns
  unfolding lookup
  found-Runs ns label id found = elim (by_label-Runs [] ns label id found) [
    | inl k ↦ absurd cc
    | inr s ↦ s
  ]

  -- A node that answers, and that is not expected to fail.
  abbrev pub IsDialed : C → ThrottleNode C → Type 0
  IsDialed c n = (n.expected_failure ≡ false) × (n.client ≡ some c)

  dial-IsDialed :
      (ns : List (ThrottleNode C)) (c : C) → dial_first_reachable ns ≡ ok c → Some (IsDialed c) ns
  unfolding dial_first_reachable
  dial-IsDialed [] c h = absurd cc
  dial-IsDialed (n ∷ ns) c h = elim (Bool-cases n.expected_failure) [
    | inl failing ↦ inr (dial-IsDialed ns c (rw (dial_first_reachable, failing) at h))
    | inr healthy ↦ elim (Option-cases n.client) [
      | inl e ↦ inr (dial-IsDialed ns c (rw (dial_first_reachable, healthy, e) at h))
      | inr (d, e) ↦
          inl (healthy, e ∙ ap some (ok_injective d c (rw (dial_first_reachable, healthy, e) at h)))
    ]
  ]

module _ {C F : Type 0} (arithmetic : RateArithmetic F)
    (rates : C → Result ThrottleError (Map ℕ F)) where
  -- The rates were measured by way of a node that answers and is not expected to fail; every listed
  -- label is that of a node that runs a validator, one of `expected`, which holds no others; and the
  -- slowest of the other validators keeps the gap to the fastest of these.
  pub record IsThrottled (labels : List String) (nodes : List (ThrottleNode C)) (expected : List ℕ)
      : Type 0 where
    pub client : C
    pub measured : Map ℕ F
    pub dialed : Some (IsDialed client) nodes
    pub answered : rates client ≡ ok measured
    pub resolved :
        All (λ label. (id : ℕ) × Some (Runs label id) nodes × (contains expected id ≡ true)) labels
    pub only : All (λ id. Some (λ label. Some (Runs label id) nodes) labels) expected
    pub gap :
        (m u : F) × IsFastest arithmetic expected measured m
        × IsSlowest arithmetic expected measured u
        × IsGap arithmetic m u

  -- A check that passes lists some node; and in the rates that one of the nodes gave, the slowest of
  -- the validators other than those of the listed nodes keeps the gap to the fastest of the listed ones.
  -- Rates are linearly ordered.
  pub check_throttled-IsThrottled :
      (labels : List String) (nodes : List (ThrottleNode C))
      → IsLinear arithmetic
      → check_throttled arithmetic rates labels nodes ≡ ok tt
      → (labels ≢ []) × ((expected : List ℕ) × IsThrottled labels nodes expected)
  unfolding check_throttled lookup
  check_throttled-IsThrottled [] nodes linear h = absurd cc
  check_throttled-IsThrottled (label ∷ labels) [] linear h = absurd cc
  check_throttled-IsThrottled (label ∷ labels) (node ∷ nodes) linear h =
      let (expected, ids, h1) =
        bind-ok (throttled_ids (by_label [] (node ∷ nodes)) (label ∷ labels)) _ tt h in
      let (client, dial, h2) = bind-ok (dial_first_reachable (node ∷ nodes)) _ tt h1 in
      let (measured, answer, h3) = bind-ok (rates client) _ tt h2 in
      (
        λ e. cc,
        (
          expected,
          record {
            client = client;
            measured = measured;
            dialed = dial-IsDialed (node ∷ nodes) client dial;
            answered = answer;
            resolved =
                All-imp (label ∷ labels)
                  (λ l (id, found, c). (id, found-Runs (node ∷ nodes) l id found, c))
                  (throttled_ids-found (by_label [] (node ∷ nodes)) (label ∷ labels) expected ids);
            only =
                All-imp expected
                  (λ id s.
                    Some-imp (label ∷ labels) (λ l found. found-Runs (node ∷ nodes) l id found) s)
                  (throttled_ids-only (by_label [] (node ∷ nodes)) (label ∷ labels) expected ids);
            gap = (verify_throttled-IsGap arithmetic expected measured linear).0 h3;
          },
        ),
      )
