-- ===== src/Checking/Rules/Applied.antt =====
-- What a passing network rules check says of the nodes.
use norma.Base.{
  ◌≡◌, ◌↔◌, ◌⊎◌, refl, inl, inr, Bool, true, false, not, List, [], ◌∷◌, String, string_comparable,
  arith, All, Some, same_set,
}
use norma.Base.Results.{ok, err, Result-cases}
use norma.Genesis.RulesPatch.{NetworkRulesPatch, Opera, apply_network_rules_patch}
use norma.Checking.Failures.{labels_of, same_labels}
use norma.Checking.Rules.{
  RulesNode, Answer, undialled, unfetched, fetched, judge_rules, got_failures, expected_failures,
  check_rules_once,
}

module _ {Rules : Type 0} (o : Opera Rules) (patch : NetworkRulesPatch) where
  -- The rules of the node are fetched, and the patch changes nothing in them.
  abbrev pub has_rules : RulesNode Rules → Bool
  has_rules n = elim n.answer [
    | fetched rules ↦ elim (apply_network_rules_patch o rules patch) [
      | ok patched ↦ o.deep_equal rules patched
      | err e ↦ false
    ]
    | _ ↦ false
  ]

  abbrev pub fails : RulesNode Rules → Bool
  fails n = not (has_rules n)

  -- The patch cannot be applied to the rules that the node answers.
  abbrev pub refuses_patch : RulesNode Rules → Bool
  refuses_patch n = elim n.answer [
    | fetched rules ↦ elim (apply_network_rules_patch o rules patch) [
      | ok patched ↦ false
      | err e ↦ true
    ]
    | _ ↦ false
  ]

  -- No node refuses the patch, a node without the rules is expected to fail, and a node that is
  -- expected to fail has its label on a node without the rules.
  pub record IsApplied (nodes : List (RulesNode Rules)) : Type 0 where
    pub patchable : All (λ n. refuses_patch n ≡ false) nodes
    pub level : All (λ n. fails n ≡ true → n.expected_failure ≡ true) nodes
    pub failing :
        All
          (λ n.
            n.expected_failure ≡ true → Some (λ m. (m.label ≡ n.label) × (fails m ≡ true)) nodes)
          nodes

  Answer-cases :
      (a : Answer Rules)
      → (a ≡ undialled) ⊎ (a ≡ unfetched) ⊎ ((rules : Rules) × (a ≡ fetched rules))
  Answer-cases undialled = inl refl
  Answer-cases unfetched = inr (inl refl)
  Answer-cases (fetched rules) = inr (inr (rules, refl))

  judged :
      (n : RulesNode Rules) (b : Bool)
      → judge_rules o patch n ≡ ok b
      → (refuses_patch n ≡ false) × (fails n ≡ true → n.expected_failure ≡ true) × (b ≡ fails n)
  unfolding judge_rules
  judged n b h = elim (Answer-cases n.answer) [
    | inl a ↦ ground (arith, a)
    | inr (inl a) ↦ ground (arith, a)
    | inr (inr (rules, a)) ↦ elim (Result-cases (apply_network_rules_patch o rules patch)) [
      | inl (patched, e) ↦ ground (arith, a, e)
      | inr (x, e) ↦ absurd (ground (arith, a, e))
    ]
  ]

  judges :
      (n : RulesNode Rules)
      → refuses_patch n ≡ false
      → (fails n ≡ true → n.expected_failure ≡ true)
      → judge_rules o patch n ≡ ok (fails n)
  unfolding judge_rules
  judges n p l = elim (Answer-cases n.answer) [
    | inl a ↦ ground (arith, a)
    | inr (inl a) ↦ ground (arith, a)
    | inr (inr (rules, a)) ↦ elim (Result-cases (apply_network_rules_patch o rules patch)) [
      | inl (patched, e) ↦ ground (arith, a, e)
      | inr (x, e) ↦ absurd (ground (arith, a, e))
    ]
  ]

  abbrev failing_labels : List (RulesNode Rules) → List String
  failing_labels ns = labels_of (λ n. n.label) fails ns

  failures_found :
      (ns : List (RulesNode Rules)) (got : List String)
      → got_failures o patch ns ≡ ok got
      → (got ≡ failing_labels ns)
        × All (λ n. refuses_patch n ≡ false) ns
        × All (λ n. fails n ≡ true → n.expected_failure ≡ true) ns
  unfolding got_failures
  failures_found [] got h = ground arith
  failures_found (n ∷ ns) got h = elim (Result-cases (judge_rules o patch n)) [
    | inr (x, e) ↦ absurd (ground (arith, e))
    | inl (b, e) ↦ elim (Result-cases (got_failures o patch ns)) [
      | inr (x, f) ↦ absurd (ground (arith, e, f))
      | inl (g, f) ↦
          let (names, ps, ls) = failures_found ns g f in
          let (p, l, same) = judged n b e in ground (arith, e, f, same)
    ]
  ]

  failures_level :
      (ns : List (RulesNode Rules))
      → All (λ n. refuses_patch n ≡ false) ns
      → All (λ n. fails n ≡ true → n.expected_failure ≡ true) ns
      → got_failures o patch ns ≡ ok (failing_labels ns)
  unfolding got_failures
  failures_level [] ps ls = refl
  failures_level (n ∷ ns) (p, ps) (l, ls) =
      let ih = failures_level ns ps ls in ground (arith, ih, judges n p l)

  -- One round passes exactly where no node refuses the patch, every node whose rules the patch would
  -- change, or whose rules cannot be fetched, is expected to fail, and every node that is expected
  -- to fail has its label on such a node.
  pub check_rules_once-IsApplied :
      (nodes : List (RulesNode Rules)) → (check_rules_once o patch nodes ≡ ok tt) ↔ IsApplied nodes
  unfolding check_rules_once
  check_rules_once-IsApplied nodes = (
    λ h. elim (Result-cases (got_failures o patch nodes)) [
      | inr (x, e) ↦ absurd (ground (arith, e))
      | inl (got, e) ↦
          let (names, ps, ls) = failures_found nodes got e in
          let same : same_set (failing_labels nodes) (expected_failures nodes) ≡ true =
            ground (arith, e) in
          record {
            patchable = ps;
            level = ls;
            failing = (same_labels (λ n. n.label) fails (λ n. n.expected_failure) nodes ls).0 same;
          }
    ],
    λ a.
        let same =
          (same_labels (λ n. n.label) fails (λ n. n.expected_failure) nodes a.level).1 a.failing in
        rw (check_rules_once, failures_level nodes a.patchable a.level, same) refl,
  )
