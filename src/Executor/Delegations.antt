-- ===== src/Executor/Delegations.antt =====
-- execDelegate, execUndelegate and execVerifyStakes of driver/executor/run.go, with
-- resolveValidatorId, hasMultipleInstances and getOrCreateDelegator.
pub mod Tracked
pub mod Stakes
pub mod Verified
use text.Mathlib.Text.{starts_with}
use Prim.Native.String.{◌++◌ as str_append, len}
pub use norma.Parser.Scenario.{DelegateTarget, UndelegateTarget}
use norma.Base.{
  ℕ, zero, suc, ◌+◌, ◌-◌, ◌%◌, ◌^◌, Bool, true, false, ◌&&◌, Option, none, some, List, [], ◌∷◌,
  ◌++◌, String, ltb, leb, if◌then◌else◌, ◌==◌, nat_comparable, string_comparable,
}
use norma.Base.Map.{Map, lookup, insert, has}
use norma.Base.Results.{Result, ok, err, ◌>>=◌}
use norma.Executor.State.{
  Node, DelegatorAccount, StakeKey, stake_key_comparable, RunState, Registry, Crypto,
}

pub data StakeError : Type 0 where
  node_not_found : String → StakeError
  multiple_instances : String → StakeError
  not_a_validator : String → StakeError
  delegator_never_used : String → StakeError
  no_key : String → StakeError
  fund_failed : String → StakeError
  delegate_failed : String → StakeError
  undelegate_failed : String → StakeError
  unregister_failed : String → StakeError

abbrev pub or_fail : {A : Type 0} → (String → StakeError) → Result String A → Result StakeError A
or_fail f (ok a) = ok a
or_fail f (err e) = err (f e)

-- How many names start with the prefix and go on after it.
unfoldable pub instances_of : String → Map String Node → ℕ
instances_of prefix [] = 0
instances_of prefix ((key, n) ∷ nodes) =
    let rest = instances_of prefix nodes in
    if ltb (len prefix) (len key) && starts_with key prefix then suc rest else rest

-- hasMultipleInstances
unfoldable pub has_multiple_instances : RunState → String → Bool
has_multiple_instances s base = ltb 1 (instances_of (str_append base "-") s.nodes)

abbrev pub id_of : String → Node → Result StakeError ℕ
id_of name n = elim n.validator_id [ none ↦ err (not_a_validator name) | some id ↦ ok id ]

-- resolveValidatorId
unfoldable pub resolve_validator_id : RunState → String → Result StakeError ℕ
resolve_validator_id s name = elim (lookup name s.nodes) [
  | some n ↦ id_of name n
  | none ↦ elim (lookup (str_append name "-0") s.nodes) [
    | none ↦ err (node_not_found name)
    | some n ↦ if has_multiple_instances s name then err (multiple_instances name) else id_of name n
  ]
]

abbrev pub delegator_gas_budget : ℕ
delegator_gas_budget = 1

abbrev pub or_zero : Option ℕ → ℕ
or_zero none = 0
or_zero (some n) = n

-- expectedStakes[key] += stake
abbrev pub add_stake : StakeKey → ℕ → RunState → RunState
add_stake key n s = record s {
  expected_stakes =
      insert key ((or_zero (lookup key s.expected_stakes) + n) % 2 ^ 64) s.expected_stakes;
}

-- min(a, b)
abbrev pub min : ℕ → ℕ → ℕ
min a b = if ltb b a then b else a

-- The bookkeeping of `execUndelegate`: `remaining - min(effectiveStake, remaining)`.
abbrev pub drop_stake : StakeKey → ℕ → RunState → RunState
drop_stake key n s = elim (lookup key s.expected_stakes) [
  | none ↦ s
  | some remaining ↦ record s {
    expected_stakes = insert key (remaining - min n remaining) s.expected_stakes;
  }
]

-- The amount of an undelegation without an explicit one is the whole expected stake.
abbrev pub effective : ℕ → Option ℕ → ℕ
effective amount expected = if amount == 0 then or_zero expected else amount

pub data StakeReport : Type 0 where
  unknown_delegator : String → StakeReport
  query_failed : StakeKey → String → StakeReport
  mismatch : StakeKey → ℕ → ℕ → StakeReport

module _ {W : Type 0} (crypto : Crypto) (reg : Registry W) where
  -- getOrCreateDelegator
  unfoldable pub get_or_create_delegator :
      RunState → String → Result StakeError (DelegatorAccount × RunState)
  get_or_create_delegator s name = elim (lookup name s.delegators) [
    | some account ↦ ok (account, s)
    | none ↦ elim (crypto.derive name) [
      | none ↦ err (no_key name)
      | some key ↦
          let account : DelegatorAccount = record {
            name = name;
            private_key = key;
            address = crypto.address_of key;
          } in
          ok (account, record s { delegators = insert name account s.delegators })
    ]
  ]

  -- One round of `execDelegate`.
  unfoldable pub delegate_one : DelegateTarget → RunState × W → Result StakeError (RunState × W)
  delegate_one target (s, w) = do
    id ← resolve_validator_id s target.node
    (account, s') ← get_or_create_delegator s target.delegator
    w' ←
        or_fail fund_failed
          (reg.fund_delegator w account.address ((target.stake + delegator_gas_budget) % 2 ^ 64))
    w'' ← or_fail delegate_failed (reg.delegate w' id target.stake account.private_key)
    ok (add_stake (record { delegator = target.delegator; validator_id = id }) target.stake s', w'')

  -- execDelegate
  unfoldable pub exec_delegate :
      List DelegateTarget → RunState × W → Result StakeError (RunState × W)
  exec_delegate [] state = ok state
  exec_delegate (target ∷ targets) state = delegate_one target state >>= exec_delegate targets

  -- The undelegation of a validator's own stake.
  abbrev pub undelegate_self :
      UndelegateTarget → ℕ → RunState × W → Result StakeError (RunState × W)
  undelegate_self target id (s, w) =
      or_fail unregister_failed (reg.unregister_validator w id (or_zero target.stake))
      >>= (λ w'. ok (s, w'))

  -- The undelegation of an external delegator's stake.
  unfoldable pub undelegate_external :
      UndelegateTarget → ℕ → RunState × W → Result StakeError (RunState × W)
  undelegate_external target id (s, w) = elim (lookup target.delegator s.delegators) [
    | none ↦ err (delegator_never_used target.delegator)
    | some account ↦
        let key : StakeKey = record { delegator = target.delegator; validator_id = id } in
        let amount = effective (or_zero target.stake) (lookup key s.expected_stakes) in
        or_fail undelegate_failed
          (reg.undelegate_as w id (or_zero target.stake) account.private_key)
        >>= (λ w'. ok (drop_stake key amount s, w'))
  ]

  -- One round of `execUndelegate`.
  unfoldable pub undelegate_one : UndelegateTarget → RunState × W → Result StakeError (RunState × W)
  undelegate_one target (s, w) = do
    id ← resolve_validator_id s target.node
    if target.delegator == ""
        then undelegate_self target id (s, w)
        else undelegate_external target id (s, w)

  -- execUndelegate
  unfoldable pub exec_undelegate :
      List UndelegateTarget → RunState × W → Result StakeError (RunState × W)
  exec_undelegate [] state = ok state
  exec_undelegate (target ∷ targets) state = undelegate_one target state >>= exec_undelegate targets

  -- One round of `execVerifyStakes`.
  unfoldable pub verify_one : RunState → W → StakeKey → ℕ → List StakeReport
  verify_one s w key expected = elim (lookup key.delegator s.delegators) [
    | none ↦ unknown_delegator key.delegator ∷ []
    | some account ↦ elim (reg.get_delegator_stake w account.address key.validator_id) [
      | err e ↦ query_failed key e ∷ []
      | ok actual ↦ if actual == expected then [] else mismatch key expected actual ∷ []
    ]
  ]

  unfoldable pub verify_from : RunState → W → Map StakeKey ℕ → List StakeReport
  verify_from s w [] = []
  verify_from s w ((key, expected) ∷ keys) = verify_one s w key expected ++ verify_from s w keys

  -- execVerifyStakes: what `errors.Join` joins.
  abbrev pub exec_verify_stakes : RunState → W → List StakeReport
  exec_verify_stakes s w = verify_from s w s.expected_stakes
