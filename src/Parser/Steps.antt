-- ===== src/Parser/Steps.antt =====
-- How a step is read: Step.UnmarshalYAML, unmarshalMapping, parseFunctionValue and Step.parseParam of
-- driver/parser/scenario.go.
pub mod Keys
use norma.Base.{
  ℕ, zero, suc, Bool, true, false, not, ◌&&◌, ◌||◌, Option, none, some, List, [], ◌∷◌, String,
  if◌then◌else◌, ◌==◌, string_comparable, contains,
}
use norma.Base.Int.{ℤ, pos, ltb_ℤ}
use norma.Base.Results.{Result, ok, err, ◌>>=◌}
use norma.Genesis.RulesPatch.{NetworkRulesPatch}
use norma.Parser.Functions.{StepFunction, to_step_function}
use norma.Parser.Names.{is_empty}
use norma.Parser.Scenario.{DelegateTarget, UndelegateTarget, CheckSpec, Step, empty_step, step_of}
use norma.Parser.Yaml.{
  Kind, scalar_node, sequence_node, mapping_node, another_node, Yaml, ParseError, at_line,
  unknown_function, not_a_step, no_step_function, two_functions, step_parameter_not_valid,
  bad_parameter, bad_value, bad_target, duration_not_positive, value_not_a_mapping,
  value_not_targets, value_not_checks, value_not_a_duration, value_not_taken, or_bad, with_line,
}
use norma.Parser.CheckSpecs.{unmarshal_check}

-- allowedParams
abbrev pub step_parameters : StepFunction → List String
step_parameters f = elim f [
  | StepFunction.start_node ↦
      "type" ∷ "imageName" ∷ "dataVolume" ∷ "stake" ∷ "instances" ∷ "failing" ∷ "extraArguments"
      ∷ []
  | StepFunction.run_app ↦ "type" ∷ "users" ∷ "rate" ∷ []
  | _ ↦ []
]

abbrev pub is_run_app : StepFunction → Bool
is_run_app f = elim f [ StepFunction.run_app ↦ true | _ ↦ false ]

module _ {N F : Type 0} (yaml : Yaml N F) where
  open yaml use {
    kind, is_null, value, line, items, entries, as_string, as_int, as_uint64, as_bool, as_rate,
    as_rules, as_delegate_target, as_undelegate_target, parse_duration,
  }

  -- `val.Tag != "!!null" && val.Value != ""`
  abbrev has_value : N → Bool
  has_value v = not (is_null v) && not (is_empty (value v))

  -- The patch of `updateRules`, or the one that the step has.
  abbrev rules_value : N → NetworkRulesPatch → Result ParseError NetworkRulesPatch
  rules_value v r = elim (kind v) [
    | mapping_node ↦ or_bad (bad_value StepFunction.update_rules) (as_rules v)
    | _ ↦ if has_value v then err (value_not_a_mapping (value v)) else ok r
  ]

  -- The loop over a list of targets, numbered from `i`.
  unfoldable pub decode_targets :
      {T : Type 0} → (N → Result String T) → ℕ → List N → Result ParseError (List T)
  decode_targets decode i [] = ok []
  decode_targets decode i (n ∷ ns) = do
    t ← or_bad (bad_target i) (decode n)
    ts ← decode_targets decode (suc i) ns
    ok (t ∷ ts)

  abbrev undelegate_value : N → Result ParseError (List UndelegateTarget)
  undelegate_value v = elim (kind v) [
    | scalar_node ↦
        if has_value v
        then ok ((record { node = value v; delegator = ""; stake = none }) ∷ [])
        else err (value_not_targets (value v))
    | sequence_node ↦ decode_targets as_undelegate_target 1 (items v)
    | _ ↦ err (value_not_targets (value v))
  ]

  abbrev delegate_value : N → Result ParseError (List DelegateTarget)
  delegate_value v = elim (kind v) [
    | sequence_node ↦ decode_targets as_delegate_target 1 (items v)
    | _ ↦ err (value_not_targets (value v))
  ]

  -- The identifier in a scalar value, or the one that the step has.
  abbrev pub identifier_value : N → String → String
  identifier_value v old = elim (kind v) [
    | scalar_node ↦ if has_value v then value v else old
    | _ ↦ old
  ]

  -- That a function which takes no value has none.
  abbrev no_value : StepFunction → N → Result ParseError (Unit {0})
  no_value f v = elim (kind v) [
    | scalar_node ↦
        if has_value v && not (value v == "null") then err (value_not_taken f (value v)) else ok tt
    | _ ↦ err (value_not_taken f (value v))
  ]

  abbrev positive : ℤ → Result ParseError ℤ
  positive d = if ltb_ℤ (pos 0) d then ok d else err (duration_not_positive d)

  abbrev duration_value : N → Result ParseError ℤ
  duration_value v = elim (kind v) [
    | scalar_node ↦
        if is_empty (value v)
        then err (value_not_a_duration (value v))
        else or_bad (bad_value StepFunction.wait_for) (parse_duration (value v)) >>= positive
    | _ ↦ err (value_not_a_duration (value v))
  ]

  -- A list of checks, each read by its own UnmarshalYAML; the library calls it on no null item, and
  -- leaves that item out.
  unfoldable pub decode_checks : List N → Result ParseError (List (CheckSpec F))
  decode_checks [] = ok []
  decode_checks (n ∷ ns) =
      let rest = decode_checks ns in
      if yaml.is_null n
      then rest
      else unmarshal_check yaml n >>= (λ c. rest >>= (λ cs. ok (c ∷ cs)))

  abbrev checks_value : N → List (CheckSpec F) → Result ParseError (List (CheckSpec F))
  checks_value v old = elim (kind v) [
    | sequence_node ↦ decode_checks (items v)
    | _ ↦ if has_value v then err (value_not_checks (value v)) else ok old
  ]

  abbrev with_identifier : N → Step F → Result ParseError (Step F)
  with_identifier v s = ok (record s { identifier = identifier_value v s.identifier })

  -- parseFunctionValue
  unfoldable pub parse_function_value : StepFunction → N → Step F → Result ParseError (Step F)
  parse_function_value StepFunction.update_rules v s = do
    r ← rules_value v s.rules
    ok (record s { rules = r })
  parse_function_value StepFunction.undelegate v s = do
    ts ← undelegate_value v
    ok (record s { undelegate_targets = ts })
  parse_function_value StepFunction.delegate v s = do
    ts ← delegate_value v
    ok (record s { delegate_targets = ts })
  parse_function_value StepFunction.verify_stakes v s = do
    _ ← no_value StepFunction.verify_stakes v
    ok s
  parse_function_value StepFunction.advance_epoch v s = do
    _ ← no_value StepFunction.advance_epoch v
    ok s
  parse_function_value StepFunction.wait_for_epoch v s = do
    _ ← no_value StepFunction.wait_for_epoch v
    ok s
  parse_function_value StepFunction.wait_for v s = do
    d ← duration_value v
    ok (record s { duration = d })
  parse_function_value StepFunction.checks v s = do
    cs ← checks_value v s.sub_checks
    ok (record s { sub_checks = cs })
  parse_function_value StepFunction.kill_sonic v s = with_identifier v s
  parse_function_value StepFunction.heal_db v s = with_identifier v s
  parse_function_value StepFunction.start_node v s = with_identifier v s
  parse_function_value StepFunction.stop_node v s = with_identifier v s
  parse_function_value StepFunction.run_app v s = with_identifier v s
  parse_function_value StepFunction.stop_app v s = with_identifier v s

  -- The switch of Step.parseParam; a key that it does not name changes nothing.
  unfoldable pub set_step_parameter :
      StepFunction → String → N → Step F → Result ParseError (Step F)
  set_step_parameter f key v s =
      let bad = bad_parameter key in
      if key == "type"
      then (do
        t ← or_bad bad (as_string v)
        ok (if is_run_app f then record s { app_type = t } else record s { node_type = t }))
      else if key == "imageName"
      then (do t ← or_bad bad (as_string v); ok (record s { image_name = t }))
      else if key == "dataVolume"
      then (do t ← or_bad bad (as_string v); ok (record s { data_volume = t }))
      else if key == "stake"
      then (do n ← or_bad bad (as_uint64 v); ok (record s { stake = some n }))
      else if key == "instances"
      then (do n ← or_bad bad (as_int v); ok (record s { instances = some n }))
      else if key == "failing"
      then (do b ← or_bad bad (as_bool v); ok (record s { failing = b }))
      else if key == "extraArguments"
      then (do t ← or_bad bad (as_string v); ok (record s { extra_arguments = t }))
      else if key == "users"
      then (do n ← or_bad bad (as_int v); ok (record s { users = some n }))
      else if key == "rate"
      then (do r ← or_bad bad (as_rate v); ok (record s { rate = some r }))
      else ok s

  -- Step.parseParam
  unfoldable pub parse_step_parameter : StepFunction → N × N → Step F → Result ParseError (Step F)
  parse_step_parameter f (k, v) s = with_line (line k) (
      if contains (step_parameters f) (value k)
      then set_step_parameter f (value k) v s
      else err (step_parameter_not_valid (value k) f))

  -- A function key of the first pass.
  unfoldable pub take_function : StepFunction → N × N → Step F → Result ParseError (Step F)
  take_function f (k, v) s = elim s.function [
    | some g ↦ err (at_line (line k) (two_functions g f))
    | none ↦ with_line (line v) (parse_function_value f v (record s { function = some f }))
  ]

  -- The first pass.
  unfoldable pub parse_functions : List (N × N) → Step F → Result ParseError (Step F)
  parse_functions [] s = ok s
  parse_functions ((k, v) ∷ es) s = elim (to_step_function (value k)) [
    | none ↦ parse_functions es s
    | some f ↦ take_function f (k, v) s >>= parse_functions es
  ]

  -- The second pass.
  unfoldable pub parse_parameters :
      StepFunction → List (N × N) → Step F → Result ParseError (Step F)
  parse_parameters f [] s = ok s
  parse_parameters f ((k, v) ∷ es) s = elim (to_step_function (value k)) [
    | some g ↦ parse_parameters f es s
    | none ↦ parse_step_parameter f (k, v) s >>= parse_parameters f es
  ]

  abbrev pub second_pass : N → Step F → Result ParseError (Step F)
  second_pass n s = elim s.function [
    | none ↦ err (at_line (line n) no_step_function)
    | some f ↦ parse_parameters f (entries n) s
  ]

  -- unmarshalMapping
  unfoldable pub unmarshal_mapping : N → Result ParseError (Step F)
  unmarshal_mapping n = parse_functions (entries n) empty_step >>= second_pass n

  abbrev unmarshal_scalar : N → Result ParseError (Step F)
  unmarshal_scalar n = elim (to_step_function (value n)) [
    | none ↦ err (at_line (line n) (unknown_function (value n)))
    | some f ↦ ok (step_of f)
  ]

  -- Step.UnmarshalYAML
  unfoldable pub unmarshal_step : N → Result ParseError (Step F)
  unmarshal_step n = elim (kind n) [
    | scalar_node ↦ unmarshal_scalar n
    | mapping_node ↦ unmarshal_mapping n
    | sequence_node ↦ err (at_line (line n) not_a_step)
    | another_node ↦ err (at_line (line n) not_a_step)
  ]
