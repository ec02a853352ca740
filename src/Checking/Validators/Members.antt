-- ===== src/Checking/Validators/Members.antt =====
-- What a passing check says of the running validators.
use norma.Base.{
  ℕ, suc, ◌≡◌, ◌≢◌, ◌⊎◌, ◌≤◌, ◌↔◌, refl, sym, ap, ◌∙◌, Bool, true, false, ◌&&◌, some, inl, inr,
  List, [], ◌∷◌, String, contains, length, All, Some, arith, ◌==◌, nat_comparable, Bool-cases,
  Option-cases,
}
use norma.Base.Map.{Map, insert}
use norma.Base.Results.{Result, ok, err, bind-ok}
use norma.Checking.Poll.{Rounds, poll_ends, poll-IsReached}
use norma.Checking.Validators.{
  Runner, ValidatorError, context_ended, no_active_nodes, no_validator_nodes, labels_from,
  expected_validator_labels, missing, verify_all_active, or_unreadable, check_set, check_validators,
}

-- A running validator that is not expected to fail is in the set.
abbrev pub IsMember : List ℕ → Runner → Type 0
IsMember active n =
    (id : ℕ) → n.expected_failure ≡ false → n.validator_id ≡ some id → contains active id ≡ true

abbrev covered : List ℕ → Map ℕ String → Bool
covered active [] = true
covered active ((id, label) ∷ m) = contains active id && covered active m

covered-insert :
    (active : List ℕ) (id : ℕ) (label : String) (m : Map ℕ String)
    → covered active (insert id label m) ≡ (contains active id && covered active m)
unfolding insert
covered-insert active id label [] = refl
covered-insert active id label ((k, l) ∷ m) = elim (Bool-cases (k == id)) [
  | inl same ↦ let keys : k ≡ id = ground arith in ground (arith, ap (contains active) keys)
  | inr other ↦ ground (arith, covered-insert active id label m)
]

ok_id : (a b : ℕ) → some a ≡ some b → a ≡ b
ok_id a b e = ground arith

covered-labels_from :
    (active : List ℕ) (ns : List Runner) (m : Map ℕ String)
    → (covered active (labels_from m ns) ≡ true)
      ↔ (covered active m ≡ true) × All (IsMember active) ns
unfolding labels_from
covered-labels_from active [] m = ground arith
covered-labels_from active (n ∷ ns) m = elim (Bool-cases n.expected_failure) [
  | inl failing ↦
      let (to, from) = covered-labels_from active ns m in
      rw failing
        (λ h. ((to h).0, (λ id live e. absurd (cc), (to h).1)), λ (h, (own, hs)). from (h, hs))
  | inr live ↦ elim (Option-cases n.validator_id) [
    | inl e ↦
        let (to, from) = covered-labels_from active ns m in
        rw (live, e)
          (λ h. ((to h).0, (λ id l f. absurd (cc), (to h).1)), λ (h, (own, hs)). from (h, hs))
    | inr (id, e) ↦
        let (to, from) = covered-labels_from active ns (insert id n.label m) in
        let step = covered-insert active id n.label m in
        rw (live, e)
          (
            λ h.
                let (all_in, rest) = to h in
                let here : contains active id ≡ true = ground (arith, step, all_in) in
                (
                  ground (arith, step, all_in),
                  (
                    λ id' l f.
                        let same : id ≡ id' = ok_id id id' f in
                        ap (contains active) (sym same) ∙ here,
                    rest,
                  ),
                ),
            λ (h, (own, hs)). from (ground (arith, step, h, own id refl refl), hs),
          )
  ]
]

missing-covered :
    (active : List ℕ) (m : Map ℕ String) → (missing m active ≡ []) ↔ (covered active m ≡ true)
unfolding missing
missing-covered active [] = ground arith
missing-covered active ((id, label) ∷ m) = ground (arith, missing-covered active m)

verified :
    (m : Map ℕ String) (active : List ℕ)
    → (verify_all_active m active ≡ ok tt) ↔ (missing m active ≡ [])
unfolding verify_all_active
verified m active = ground arith

readable :
    (answer : Result String (List ℕ)) (active : List ℕ)
    → or_unreadable answer ≡ ok active
    → answer ≡ ok active
readable (ok a) active h = ground arith
readable (err e) active h = absurd (cc)

verify_all_active-IsMember :
    (active : List ℕ) (ns : List Runner)
    → (verify_all_active (expected_validator_labels ns) active ≡ ok tt) ↔ All (IsMember active) ns
unfolding verify_all_active
verify_all_active-IsMember active ns =
    let m = expected_validator_labels ns in
    let (to, from) = covered-labels_from active ns [] in
    let (to', from') = missing-covered active m in
    (
      λ h. (to (to' ((verified m active).0 h))).1,
      λ h. (verified m active).1 (from' (from (refl, h))),
    )

-- A running validator that is expected in the set.
abbrev pub IsExpected : Runner → Type 0
IsExpected n = (n.expected_failure ≡ false) × ((id : ℕ) × (n.validator_id ≡ some id))

labels_from-IsExpected :
    (ns : List Runner) (m : Map ℕ String)
    → (length (labels_from m ns) == 0) ≡ false
    → (length m ≢ 0) ⊎ Some IsExpected ns
unfolding labels_from
labels_from-IsExpected [] m h = inl (λ e. ground (arith, h, e))
labels_from-IsExpected (n ∷ ns) m h = elim (Bool-cases n.expected_failure) [
  | inl failing ↦ elim (labels_from-IsExpected ns m (rw (labels_from, failing) at h)) [
    | inl k ↦ inl k
    | inr s ↦ inr (inr s)
  ]
  | inr live ↦ elim (Option-cases n.validator_id) [
    | inl e ↦ elim (labels_from-IsExpected ns m (rw (labels_from, live, e) at h)) [
      | inl k ↦ inl k
      | inr s ↦ inr (inr s)
    ]
    | inr (id, e) ↦ inr (inl (live, (id, e)))
  ]
]

IsExpected-some :
    (ns : List Runner) → (length (expected_validator_labels ns) == 0) ≡ false → Some IsExpected ns
IsExpected-some ns h = elim (labels_from-IsExpected ns [] h) [ inl k ↦ absurd (k refl) | inr s ↦ s ]

-- The check answers once its deadline has passed in some round `d`. Where it passes, some running
-- node is a validator that is not expected to fail, and in some round up to `d` a node answered with a validator set that holds every
-- running validator that is not expected to fail.
pub check_validators-IsMember :
    (ns : List Runner) (sets : ℕ → Result String (List ℕ)) (expired slept : ℕ → Bool) (d : ℕ)
    → expired d ≡ true
    → (r : Result ValidatorError (Unit {0})) × (check_validators ns sets expired slept (suc d)
        ≡ some r)
      × (r ≡ ok tt
          → Some IsExpected ns
            × (i : ℕ) × (active : List ℕ) × (i ≤ d)
            × (sets i ≡ ok active)
            × All (IsMember active) ns)
unfolding check_validators
check_validators-IsMember ns sets expired slept d late = elim (Bool-cases (length ns == 0)) [
  | inl none_running ↦ rw none_running (err no_active_nodes, refl, λ p. absurd (cc))
  | inr running ↦ elim (Bool-cases (length (expected_validator_labels ns) == 0)) [
    | inl none_expected ↦
        rw (running, none_expected) (err no_validator_nodes, refl, λ p. absurd (cc))
    | inr expected ↦
        let rounds : Rounds ValidatorError = record {
          attempt = λ i. check_set ns (sets i);
          expired = expired;
          slept = slept;
        } in
        let (r, e) = poll_ends (λ x. x) context_ended rounds d late in
        rw (running, expected)
          (
            r,
            e,
            λ p.
                let (i, lt, reached) =
                  (poll-IsReached (λ x. x) context_ended rounds (suc d)).0 (e ∙ ap some p) in
                let (active, h, v) =
                  bind-ok (or_unreadable (sets i))
                    (verify_all_active (expected_validator_labels ns)) tt reached.agrees in
                (
                  IsExpected-some ns expected,
                  i,
                  active,
                  omega arith,
                  readable (sets i) active h,
                  (verify_all_active-IsMember active ns).0 v,
                ),
          )
  ]
]
