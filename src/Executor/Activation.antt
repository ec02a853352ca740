-- ===== src/Executor/Activation.antt =====
-- ensureValidatorsActive of driver/executor/validator_registry.go: it seals the epoch where a
-- validator is missing from the validator set, and waits until all of them are in it.
pub mod Joined
use norma.Base.{
  ℕ, Bool, true, false, not, Option, none, some, List, [], ◌∷◌, String, contains, keep,
  nat_comparable, if◌then◌else◌,
}
use norma.Base.Results.{Result, ok, err}
use norma.Checking.Poll.{Rounds, poll}
use norma.Executor.Run.Production.{Client, WaitError, wait_for_block_production}

pub data ActivationError : Type 0 where
  unconnected : ActivationError
  stalled : WaitError → ActivationError
  unsealed : String → ActivationError
  unread : ActivationError
  never_joined : List ℕ → ActivationError
  context_ended : ActivationError

-- What the network answers: whether it can be dialed, the validator set at the start (none where it
-- cannot be read), the node that is asked for new blocks, the error of AdvanceEpoch, and the validator
-- set in each round of the poll after it, with its deadline and the end of the context.
pub record Admission : Type 0 where
  pub dials : Bool
  pub before : Option (List ℕ)
  pub producer : Option Client
  pub sealing : Option String
  pub after : ℕ → Option (List ℕ)
  pub expired : ℕ → Bool
  pub slept : ℕ → Bool

-- missingValidators
unfoldable pub missing_validators : List ℕ → List ℕ → List ℕ
missing_validators want active = keep (λ id. not (contains active id)) want

-- The error of one read, if there is one.
unfoldable pub lacking : List ℕ → Option (List ℕ) → Option ActivationError
lacking want none = some unread
lacking want (some active) = elim (missing_validators want active) [
  | [] ↦ none
  | id ∷ ids ↦ some (never_joined (id ∷ ids))
]

abbrev pub reading : List ℕ → Option (List ℕ) → Result ActivationError (Unit {0})
reading want active = elim (lacking want active) [ none ↦ ok tt | some e ↦ err e ]

-- The poll at the end of ensureValidatorsActive.
abbrev pub await_validators : List ℕ → Admission → ℕ → Option (Result ActivationError (Unit {0}))
await_validators want a fuel =
    poll (λ e. e) context_ended
      (record { attempt = λ i. reading want (a.after i); expired = a.expired; slept = a.slept })
      fuel

abbrev pub seal_and_await : List ℕ → Admission → ℕ → Option (Result ActivationError (Unit {0}))
seal_and_await want a fuel = elim a.sealing [
  | some e ↦ some (err (unsealed e))
  | none ↦ await_validators want a fuel
]

-- ensureValidatorsActive, with fuel for its two waits
unfoldable pub ensure_validators_active :
    List ℕ → Admission → ℕ → Option (Result ActivationError (Unit {0}))
ensure_validators_active [] a fuel = some (ok tt)
ensure_validators_active (id ∷ ids) a fuel =
    if not a.dials then some (err unconnected) else elim (lacking (id ∷ ids) a.before) [
      | none ↦ some (ok tt)
      | some _ ↦ elim (wait_for_block_production a.producer fuel) [
        | none ↦ none
        | some (err e) ↦ some (err (stalled e))
        | some (ok u) ↦ seal_and_await (id ∷ ids) a fuel
      ]
    ]
