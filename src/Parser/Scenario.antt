-- ===== src/Parser/Scenario.antt =====
-- The data of a scenario, of driver/parser/scenario.go, with setDefaults. A stake is a 64-bit word,
-- a duration a signed 64-bit number of nanoseconds. `F` is the type of the floating-point numbers.
use norma.Base.{ℕ, Bool, true, false, Option, none, some, List, [], ◌∷◌, ◌++◌, String}
use norma.Base.Int.{ℤ, pos}
use norma.Genesis.RulesPatch.{NetworkRulesPatch, no_rules, ensure_default_epoch_duration}
use norma.Parser.Functions.{StepFunction, CheckFunction}
use norma.Parser.Rates.{Rate}

-- An empty delegator of an undelegation is the validator itself.
pub record DelegateTarget : Type 0 where
  pub node : String
  pub delegator : String
  pub stake : ℕ

pub record UndelegateTarget : Type 0 where
  pub node : String
  pub delegator : String
  pub stake : Option ℕ

-- The function is `none` before one was read.
pub record CheckSpec (F : Type 0) : Type 0 where
  pub function : Option CheckFunction
  pub ceiling : Option F
  pub tolerance : Option ℤ
  pub duration : Option ℤ
  pub failing : Bool
  pub rules : NetworkRulesPatch
  pub throttled_nodes : List String

pub record Step (F : Type 0) : Type 0 where
  pub function : Option StepFunction
  pub identifier : String
  pub node_type : String
  pub image_name : String
  pub data_volume : String
  pub stake : Option ℕ
  pub instances : Option ℤ
  pub failing : Bool
  pub extra_arguments : String
  pub app_type : String
  pub users : Option ℤ
  pub rate : Option (Rate F)
  pub rules : NetworkRulesPatch
  pub sub_checks : List (CheckSpec F)
  pub delegate_targets : List DelegateTarget
  pub undelegate_targets : List UndelegateTarget
  pub duration : ℤ

pub record Scenario (F : Type 0) : Type 0 where
  pub name : String
  pub description : String
  pub initial_rules : NetworkRulesPatch
  pub disable_end_checks : Bool
  pub steps : List (Step F)

module _ {F : Type 0} where
  -- `CheckSpec{}` and `Step{}`
  abbrev pub empty_check : CheckSpec F
  empty_check = record {
    function = none;
    ceiling = none;
    tolerance = none;
    duration = none;
    failing = false;
    rules = no_rules;
    throttled_nodes = [];
  }

  abbrev pub empty_step : Step F
  empty_step = record {
    function = none;
    identifier = "";
    node_type = "";
    image_name = "";
    data_volume = "";
    stake = none;
    instances = none;
    failing = false;
    extra_arguments = "";
    app_type = "";
    users = none;
    rate = none;
    rules = no_rules;
    sub_checks = [];
    delegate_targets = [];
    undelegate_targets = [];
    duration = pos 0;
  }

  abbrev pub check_of : CheckFunction → CheckSpec F
  check_of f = record empty_check { function = some f }

  abbrev pub step_of : StepFunction → Step F
  step_of f = record empty_step { function = some f }

  -- The steps that are run at the end unless they are disabled.
  abbrev pub end_checks : List (Step F)
  end_checks =
      step_of StepFunction.advance_epoch
      ∷ step_of StepFunction.advance_epoch
      ∷ (record (step_of StepFunction.checks) {
        sub_checks =
            check_of CheckFunction.block_hashes ∷ check_of CheckFunction.block_heights ∷ [];
      })
      ∷ []

  -- setDefaults
  abbrev pub set_defaults : Scenario F → Scenario F
  set_defaults s = record s {
    initial_rules = ensure_default_epoch_duration s.initial_rules;
    steps = elim s.disable_end_checks [ true ↦ s.steps | false ↦ s.steps ++ end_checks ];
  }
