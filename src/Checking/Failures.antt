-- ===== src/Checking/Failures.antt =====
-- The comparison of the nodes that failed with the nodes that were expected to, as the checks of
-- driver/checking make it: both are sets of labels.
use norma.Base.{
  ◌≡◌, ◌↔◌, ap, ◌∙◌, Bool, true, List, [], ◌∷◌, String, string_comparable, map, keep, all, contains,
  same_set, contains_iff, all_iff, All, Some, All-imp, All-both, Some-imp, All-self, arith,
}

module _ {A : Type 0} (label : A → String) where
  abbrev pub labels_of : (A → Bool) → List A → List String
  labels_of p ns = map label (keep p ns)

  Some-labels_of :
      (p : A → Bool) (l : String) (ns : List A)
      → Some (λ k. k ≡ l) (labels_of p ns) ↔ Some (λ n. (label n ≡ l) × (p n ≡ true)) ns
  Some-labels_of p l [] = ground arith
  Some-labels_of p l (n ∷ ns) = let ih = Some-labels_of p l ns in ground arith

  All-labels_of :
      (p : A → Bool) (P : String → Type 0) (ns : List A)
      → All P (labels_of p ns) ↔ All (λ n. p n ≡ true → P (label n)) ns
  All-labels_of p P [] = ground arith
  All-labels_of p P (n ∷ ns) = let ih = All-labels_of p P ns in ground arith

  -- Every label of `q` is among those of `p`.
  covers :
      (p q : A → Bool) (ns : List A)
      → (all (contains (labels_of p ns)) (labels_of q ns) ≡ true)
        ↔ All (λ n. q n ≡ true → Some (λ m. (label m ≡ label n) × (p m ≡ true)) ns) ns
  covers p q ns =
      let names = labels_of p ns in
      let (to, from) = all_iff (contains names) (labels_of q ns) in
      let (to', from') = All-labels_of q (λ l. contains names l ≡ true) ns in
      (
        λ h.
            All-imp ns
              (λ n f e. (Some-labels_of p (label n) ns).0 ((contains_iff names (label n)).0 (f e)))
              (to' (to h)),
        λ h. from (
            from' (
              All-imp ns
                (λ n f e.
                  (contains_iff names (label n)).1 ((Some-labels_of p (label n) ns).1 (f e)))
                h)),
      )

  -- Where only expected nodes fail, the sets agree if every expected failure is met by a node of
  -- that label.
  pub same_labels :
      (p q : A → Bool) (ns : List A)
      → All (λ n. p n ≡ true → q n ≡ true) ns
      → (same_set (labels_of p ns) (labels_of q ns) ≡ true)
        ↔ All (λ n. q n ≡ true → Some (λ m. (label m ≡ label n) × (p m ≡ true)) ns) ns
  same_labels p q ns expected =
      let (to, from) = covers p q ns in
      let own : all (contains (labels_of q ns)) (labels_of p ns) ≡ true = (covers q p ns).1 (
        All-both ns (λ n f g e. Some-imp ns (λ m same. (ap label same, ap q same ∙ f e)) g) expected
          (All-self ns)) in
      (λ h. to (ground arith), λ h. ground (arith, from h))
