-- ===== src/Checking/Validators.antt =====
-- driver/checking/validators_active.go: every running validator node is in the validator set of the
-- epoch that is being built.
pub mod Members
use norma.Base.{
  ℕ, Bool, true, false, Option, none, some, List, [], ◌∷◌, String, contains, length, if◌then◌else◌,
  ◌==◌, nat_comparable,
}
use norma.Base.Map.{Map, insert}
use norma.Base.Results.{Result, ok, err, ◌>>=◌}
use norma.Checking.Poll.{Rounds, poll}

-- What the check reads of a node.
pub record Runner : Type 0 where
  pub label : String
  pub expected_failure : Bool
  pub validator_id : Option ℕ

pub data ValidatorError : Type 0 where
  no_active_nodes : ValidatorError
  no_validator_nodes : ValidatorError
  unreadable_set : String → ValidatorError
  not_members : List String → ValidatorError
  context_ended : ValidatorError

-- The loop of expectedValidatorLabels.
unfoldable pub labels_from : Map ℕ String → List Runner → Map ℕ String
labels_from m [] = m
labels_from m (n ∷ ns) =
    let skipped = labels_from m ns in
    if n.expected_failure
    then skipped
    else elim n.validator_id [ none ↦ skipped | some id ↦ labels_from (insert id n.label m) ns ]

abbrev pub expected_validator_labels : List Runner → Map ℕ String
expected_validator_labels ns = labels_from [] ns

-- The labels of the expected validators that the set lacks.
unfoldable pub missing : Map ℕ String → List ℕ → List String
missing [] active = []
missing ((id, label) ∷ expected) active =
    let rest = missing expected active in if contains active id then rest else label ∷ rest

-- verifyAllActive
unfoldable pub verify_all_active : Map ℕ String → List ℕ → Result ValidatorError (Unit {0})
verify_all_active expected active = elim (missing expected active) [
  | [] ↦ ok tt
  | label ∷ labels ↦ err (not_members (label ∷ labels))
]

abbrev pub or_unreadable : Result String (List ℕ) → Result ValidatorError (List ℕ)
or_unreadable (ok active) = ok active
or_unreadable (err e) = err (unreadable_set e)

-- One round of Check.
abbrev pub check_set : List Runner → Result String (List ℕ) → Result ValidatorError (Unit {0})
check_set ns answer = or_unreadable answer >>= verify_all_active (expected_validator_labels ns)

-- Check: in round `i` the first reachable node answers `sets i`.
unfoldable pub check_validators :
    List Runner
    → (ℕ → Result String (List ℕ))
    → (ℕ → Bool)
    → (ℕ → Bool)
    → ℕ
    → Option (Result ValidatorError (Unit {0}))
check_validators ns sets expired slept fuel =
    if length ns == 0
    then some (err no_active_nodes)
    else if length (expected_validator_labels ns) == 0
    then some (err no_validator_nodes)
    else poll (λ e. e) context_ended
        (record { attempt = λ i. check_set ns (sets i); expired = expired; slept = slept }) fuel
