-- ===== src/Executor/Checks.antt =====
-- The checks of a scenario in driver/executor/run.go: checkFunctionToCheckerName, execCheck, and the
-- `checks` case of executeStep.
pub mod Windows
use norma.Base.{
  ℕ, zero, suc, Bool, true, false, not, Option, none, some, List, [], ◌∷◌, String, if◌then◌else◌,
  string_comparable,
}
use norma.Base.Int.{ℤ}
use norma.Base.Map.{Map, lookup, insert}
use norma.Genesis.RulesPatch.{sets_nothing}
use norma.Parser.Functions.{CheckFunction}
use norma.Parser.Scenario.{CheckSpec}
use norma.Checking.Configuration.{
  Value, a_bool, an_int, an_int64, a_rules_patch, another, CheckerConfig, stays_failing,
  failing_check,
}

-- checkFunctionToCheckerName
abbrev pub checker_name : CheckFunction → String
checker_name CheckFunction.block_gas_rate = "blockGasRate"
checker_name CheckFunction.block_hashes = "blocksHashes"
checker_name CheckFunction.block_heights = "blockHeight"
checker_name CheckFunction.blocks_halted = "blocksHalted"
checker_name CheckFunction.blocks_produced = "blocksRolling"
checker_name CheckFunction.event_throttled = "eventThrottled"
checker_name CheckFunction.network_rules = "networkRules"
checker_name CheckFunction.validators_active = "validatorsActive"

-- `config[key] = value`, where there is a value.
unfoldable pub put_value : Option Value → String → CheckerConfig → CheckerConfig
put_value none key c = c
put_value (some v) key c = insert key v c

abbrev pub is_height_check : CheckFunction → Bool
is_height_check f = elim f [ CheckFunction.block_heights ↦ true | _ ↦ false ]

abbrev pub map_value {ℓ} : {A : Type ℓ} → (A → Value) → Option A → Option Value
map_value f none = none
map_value f (some a) = some (f a)

abbrev pub value_if : Bool → Value → Option Value
value_if b v = if b then some v else none

abbrev is_nonempty {ℓ} : {A : Type ℓ} → List A → Bool
is_nonempty [] = false
is_nonempty (x ∷ xs) = true

-- The key under which the tolerance of a check is passed on.
abbrev pub tolerance_key : CheckFunction → String
tolerance_key f = if is_height_check f then "slack" else "tolerance"

-- A checker of the registry on a state `S` of the network: its Check, and what Configure makes of it,
-- which is a panic for a value of a wrong type.
pub record Checker (S : Type 0) : Type 0 where
  pub check : S → S × Option String
  pub configured : CheckerConfig → Option (S → S × Option String)

-- How one check ended: with a panic, or with the state it left and its error.
pub data CheckOutcome (S : Type 0) : Type 0 where
  panicked : CheckOutcome S
  reported : S × Option String → CheckOutcome S

-- How a `checks` step ended.
pub data ChecksOutcome (S : Type 0) : Type 0 where
  all_passed : S → ChecksOutcome S
  stopped_at : ℕ → String → S → ChecksOutcome S
  panicked_at : ℕ → ChecksOutcome S

-- checker.Check after Configure, where a failure may be expected.
unfoldable pub check_configured : {S : Type 0} → Checker S → CheckerConfig → S → CheckOutcome S
check_configured checker [] s = reported (checker.check s)
check_configured checker (entry ∷ c) s = elim (checker.configured (entry ∷ c)) [
  | none ↦ panicked
  | some check ↦ elim (stays_failing (entry ∷ c)) [
    | none ↦ panicked
    | some expected ↦
        let (s', error) = check s in reported (s', if expected then failing_check error else error)
  ]
]

module _ {F : Type 0} (to_int : F → ℤ) where
  -- The configuration that a check spec gives its checker; `to_int` cuts a ceiling to a whole number.
  unfoldable pub config_of : CheckFunction → CheckSpec F → CheckerConfig
  config_of f c = put_value (value_if (is_nonempty c.throttled_nodes) another) "throttledNodes" (
      put_value (value_if (not (sets_nothing c.rules)) a_rules_patch) "rules" (
        put_value (map_value (λ x. an_int (to_int x)) c.ceiling) "ceiling" (
          put_value (map_value an_int64 c.duration) "duration" (
            put_value (map_value an_int c.tolerance) (tolerance_key f)
              (put_value (value_if c.failing (a_bool true)) "failing" [])))))

  -- execCheck; without a registry the check is skipped.
  unfoldable pub exec_check :
      {S : Type 0}
      → Option (Map String (Checker S))
      → CheckFunction
      → CheckSpec F
      → S
      → CheckOutcome S
  exec_check none f c s = reported (s, none)
  exec_check (some registry) f c s = elim (lookup (checker_name f) registry) [
    | none ↦ reported (s, some "checker not found")
    | some checker ↦ check_configured checker (config_of f c) s
  ]

  -- The loop over the items of a `checks` step; what it reports carries the number of the item.
  unfoldable pub exec_checks :
      {S : Type 0} → Option (Map String (Checker S)) → ℕ → List (CheckSpec F) → S → ChecksOutcome S
  exec_checks registry i [] s = all_passed s
  exec_checks registry i (c ∷ cs) s = elim c.function [
    | none ↦ stopped_at i "unknown check function" s
    | some f ↦ elim (exec_check registry f c s) [
      | panicked ↦ panicked_at i
      | reported (s', error) ↦ elim error [
        | some e ↦ stopped_at i e s'
        | none ↦ exec_checks registry (suc i) cs s'
      ]
    ]
  ]
