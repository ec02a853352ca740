-- ===== src/Parser/Check.antt =====
-- driver/parser/check.go: the check of a scenario and its steps. Go joins the errors that it finds
-- into one, which is absent when there are none; here they are a list.
pub mod Defaults
use norma.Base.{
  ℕ, zero, suc, ◌+◌, ◌*◌, Bool, true, false, ◌&&◌, not, Option, none, some, List, [], ◌∷◌, ◌++◌,
  String, if◌then◌else◌, ◌==◌, nat_comparable, map,
}
use norma.Base.Int.{ℤ, pos, ltb_ℤ}
use norma.Genesis.RulesPatch.{NetworkRulesPatch, sets_nothing}
use norma.Parser.Functions.{StepFunction, CheckFunction}
use norma.Parser.Rates.{Floats, Rate, RateError, check_rate, report}
use norma.Parser.Names.{is_name, is_empty, is_type_valid, is_supported_application_type}
use norma.Parser.Scenario.{DelegateTarget, UndelegateTarget, CheckSpec, Step, Scenario}

pub data CheckError : Type 0 where
  name_empty description_empty : CheckError
  invalid_rules : String → CheckError
  in_step : ℕ → CheckError → CheckError
  in_target : ℕ → CheckError → CheckError
  in_sub_check : ℕ → CheckError → CheckError
  unknown_function missing_identifier missing_node missing_delegator : CheckError
  bad_name : String → CheckError
  bad_type : String → CheckError
  bad_instances : ℤ → CheckError
  bad_users : ℤ → CheckError
  bad_duration : ℤ → CheckError
  bad_tolerance : ℤ → CheckError
  bad_rate : RateError → CheckError
  no_targets no_stake no_type no_rate no_rule no_checks no_check_function : CheckError
  unknown_application : String → CheckError

-- The surroundings of the check: the floating-point numbers, `strings.ToLower`,
-- `strings.TrimSpace`, and ValidateNetworkRulesPatch, which asks the client's library.
pub record Checks (F : Type 0) : Type 0 where
  pub floats : Floats F
  pub to_lower : String → String
  pub trim_space : String → String
  pub validate : NetworkRulesPatch → Option String

-- The smallest number of samples and the shortest duration of an observation, of defaults.go.
abbrev pub min_observation_samples : ℕ
min_observation_samples = 2

abbrev pub min_observation_duration : ℕ
min_observation_duration = min_observation_samples * 1_000_000_000

-- The error of a text that is no name; nothing for one that is.
abbrev pub check_name : String → List CheckError
check_name s = if is_name s then [] else bad_name s ∷ []

abbrev check_identifier : String → List CheckError
check_identifier s = if is_empty s then missing_identifier ∷ [] else check_name s

abbrev below_one : Option ℤ → (ℤ → CheckError) → List CheckError
below_one none e = []
below_one (some n) e = report (ltb_ℤ n (pos 1)) (e n)

abbrev invalid : Option String → List CheckError
invalid none = []
invalid (some e) = invalid_rules e ∷ []

abbrev one_of : List CheckError → List CheckError → List CheckError
one_of [] later = later
one_of (e ∷ es) later = e ∷ es

-- The first error of a target of `undelegate`.
abbrev check_undelegate_target : UndelegateTarget → List CheckError
check_undelegate_target t =
    if is_empty t.node
    then missing_node ∷ []
    else one_of (check_name t.node) (if is_empty t.delegator then [] else check_name t.delegator)

-- The first error of a target of `delegate`.
abbrev check_delegate_target : DelegateTarget → List CheckError
check_delegate_target t =
    if is_empty t.node
    then missing_node ∷ []
    else one_of (check_name t.node) (
        if is_empty t.delegator
        then missing_delegator ∷ []
        else one_of (check_name t.delegator) (report (t.stake == 0) no_stake))

-- The loop over the targets, which ends at the first error.
unfoldable pub first_error : {T : Type 0} → (T → List CheckError) → ℕ → List T → List CheckError
first_error check i [] = []
first_error check i (t ∷ ts) =
    let rest = first_error check (suc i) ts in one_of (map (in_target i) (check t)) rest

abbrev check_targets : {T : Type 0} → (T → List CheckError) → List T → List CheckError
check_targets check [] = no_targets ∷ []
check_targets check (t ∷ ts) = first_error check 1 (t ∷ ts)

-- observationWindowChecks
abbrev pub observes : CheckFunction → Bool
observes CheckFunction.block_gas_rate = true
observes CheckFunction.blocks_halted = true
observes CheckFunction.blocks_produced = true
observes CheckFunction.block_hashes = false
observes CheckFunction.block_heights = false
observes CheckFunction.event_throttled = false
observes CheckFunction.network_rules = false
observes CheckFunction.validators_active = false

abbrev is_rules_check : CheckFunction → Bool
is_rules_check f = elim f [ CheckFunction.network_rules ↦ true | _ ↦ false ]

-- The window of a check that observes: its duration, or its tolerance where it has none.
abbrev pub check_window : Option ℤ → Option ℤ → List CheckError
check_window (some d) t = report (ltb_ℤ d (pos min_observation_duration)) (bad_duration d)
check_window none (some t) = report (ltb_ℤ t (pos min_observation_samples)) (bad_tolerance t)
check_window none none = []

module _ {F : Type 0} (checks : Checks F) where
  open checks use {floats, to_lower, trim_space, validate}

  -- The errors of one item of a `checks` step.
  unfoldable pub check_sub_check : CheckSpec F → List CheckError
  check_sub_check c = elim c.function [
    | none ↦ no_check_function ∷ []
    | some f ↦
        (if is_rules_check f && not (sets_nothing c.rules) then invalid (validate c.rules) else [])
        ++ (if observes f then check_window c.duration c.tolerance else [])
  ]

  unfoldable pub check_sub_checks : ℕ → List (CheckSpec F) → List CheckError
  check_sub_checks i [] = []
  check_sub_checks i (c ∷ cs) =
      map (in_sub_check i) (check_sub_check c) ++ check_sub_checks (suc i) cs

  abbrev pub check_start_node : Step F → List CheckError
  check_start_node s =
      let type = if is_empty s.node_type then "observer" else s.node_type in
      check_identifier s.identifier
      ++ ((if is_type_valid type then [] else bad_type type ∷ [])
          ++ below_one s.instances bad_instances)

  abbrev check_app_type : String → List CheckError
  check_app_type t =
      if is_empty t
      then no_type ∷ []
      else if is_supported_application_type to_lower t
      then []
      else unknown_application t ∷ []

  abbrev check_app_rate : Option (Rate F) → List CheckError
  check_app_rate none = no_rate ∷ []
  check_app_rate (some r) = map bad_rate (check_rate floats r)

  abbrev pub check_run_app : Step F → List CheckError
  check_run_app s =
      check_identifier s.identifier
      ++ (check_app_type s.app_type ++ (check_app_rate s.rate ++ below_one s.users bad_users))

  abbrev pub check_sub_check_list : List (CheckSpec F) → List CheckError
  check_sub_check_list [] = no_checks ∷ []
  check_sub_check_list (c ∷ cs) = check_sub_checks 1 (c ∷ cs)

  abbrev need_identifier : String → List CheckError
  need_identifier s = report (is_empty s) missing_identifier

  abbrev by_function : StepFunction → Step F → List CheckError
  by_function StepFunction.start_node s = check_start_node s
  by_function StepFunction.stop_node s = check_identifier s.identifier
  by_function StepFunction.run_app s = check_run_app s
  by_function StepFunction.stop_app s = check_identifier s.identifier
  by_function StepFunction.update_rules s = report (sets_nothing s.rules) no_rule
  by_function StepFunction.undelegate s = check_targets check_undelegate_target s.undelegate_targets
  by_function StepFunction.delegate s = check_targets check_delegate_target s.delegate_targets
  by_function StepFunction.verify_stakes s = []
  by_function StepFunction.wait_for s =
      report (not (ltb_ℤ (pos 0) s.duration)) (bad_duration s.duration)
  by_function StepFunction.kill_sonic s = need_identifier s.identifier
  by_function StepFunction.heal_db s = need_identifier s.identifier
  by_function StepFunction.advance_epoch s = []
  by_function StepFunction.wait_for_epoch s = []
  by_function StepFunction.checks s = check_sub_check_list s.sub_checks

  -- Step.Check
  unfoldable pub check_step : Step F → List CheckError
  check_step s = elim s.function [ none ↦ unknown_function ∷ [] | some f ↦ by_function f s ]

  unfoldable pub check_steps : ℕ → List (Step F) → List CheckError
  check_steps i [] = []
  check_steps i (s ∷ ss) = map (in_step i) (check_step s) ++ check_steps (suc i) ss

  -- Scenario.Check
  unfoldable pub check_scenario : Scenario F → List CheckError
  check_scenario s =
      report (is_empty (trim_space s.name)) name_empty
      ++ (report (is_empty (trim_space s.description)) description_empty
          ++ (invalid (validate s.initial_rules) ++ check_steps 1 s.steps))
