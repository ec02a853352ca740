-- ===== src/Parser/CheckSpecs.antt =====
-- How an item of a `checks` step is read: CheckSpec.UnmarshalYAML, unmarshalCheckMapping and
-- CheckSpec.parseParam of driver/parser/scenario.go.
pub mod Fits
pub mod Fitting
use norma.Base.{
  ℕ, Bool, true, false, Option, none, some, List, [], ◌∷◌, String, if◌then◌else◌, ◌==◌,
  string_comparable, contains,
}
use norma.Base.Int.{ℤ, pos, ltb_ℤ}
use norma.Base.Results.{Result, ok, err, ◌>>=◌}
use norma.Parser.Functions.{CheckFunction, to_check_function}
use norma.Parser.Scenario.{CheckSpec, check_of}
use norma.Parser.Yaml.{
  Kind, scalar_node, sequence_node, mapping_node, another_node, Yaml, ParseError, at_line,
  unknown_check, not_a_check, no_check_function, check_parameter_not_valid, bad_parameter,
  negative_duration, or_bad, with_line,
}

-- checkFunctionParams
abbrev pub check_parameters : CheckFunction → List String
check_parameters CheckFunction.block_gas_rate =
    "ceiling" ∷ "tolerance" ∷ "duration" ∷ "failing" ∷ []
check_parameters CheckFunction.block_hashes = "failing" ∷ []
check_parameters CheckFunction.block_heights = "tolerance" ∷ "duration" ∷ "failing" ∷ []
check_parameters CheckFunction.blocks_halted = "tolerance" ∷ "duration" ∷ "failing" ∷ []
check_parameters CheckFunction.blocks_produced = "tolerance" ∷ "duration" ∷ "failing" ∷ []
check_parameters CheckFunction.event_throttled = "throttledNodes" ∷ "failing" ∷ []
check_parameters CheckFunction.network_rules = "rules" ∷ "duration" ∷ "failing" ∷ []
check_parameters CheckFunction.validators_active = "failing" ∷ []

abbrev pub accepts : CheckFunction → String → Bool
accepts f key = contains (check_parameters f) key

abbrev pub not_below_zero : ℤ → Result ParseError ℤ
not_below_zero d = if ltb_ℤ d (pos 0) then err (negative_duration d) else ok d

module _ {N F : Type 0} (yaml : Yaml N F) where
  open yaml use {
    kind, value, line, entries, as_string, as_int, as_bool, as_float, as_strings, as_rules,
    parse_duration,
  }

  -- A duration, which must not be negative.
  abbrev pub parse_check_duration : N → Result ParseError ℤ
  parse_check_duration v = do
    s ← or_bad (bad_parameter "duration") (as_string v)
    d ← or_bad (bad_parameter "duration") (parse_duration s)
    not_below_zero d

  -- The switch of parseParam.
  unfoldable pub set_check_parameter :
      CheckFunction → String → N → CheckSpec F → Result ParseError (CheckSpec F)
  set_check_parameter f key v c =
      let bad = bad_parameter key in
      if key == "tolerance"
      then (do t ← or_bad bad (as_int v); ok (record c { tolerance = some t }))
      else if key == "duration"
      then (do d ← parse_check_duration v; ok (record c { duration = some d }))
      else if key == "ceiling"
      then (do x ← or_bad bad (as_float v); ok (record c { ceiling = some x }))
      else if key == "failing"
      then (do b ← or_bad bad (as_bool v); ok (record c { failing = b }))
      else if key == "rules"
      then (do r ← or_bad bad (as_rules v); ok (record c { rules = r }))
      else if key == "throttledNodes"
      then (do l ← or_bad bad (as_strings v); ok (record c { throttled_nodes = l }))
      else err (check_parameter_not_valid key f)

  -- CheckSpec.parseParam
  unfoldable pub parse_check_parameter :
      CheckFunction → N × N → CheckSpec F → Result ParseError (CheckSpec F)
  parse_check_parameter f (k, v) c = with_line (line k) (
      if accepts f (value k)
      then set_check_parameter f (value k) v c
      else err (check_parameter_not_valid (value k) f))

  unfoldable pub parse_check_parameters :
      CheckFunction → List (N × N) → CheckSpec F → Result ParseError (CheckSpec F)
  parse_check_parameters f [] c = ok c
  parse_check_parameters f (entry ∷ es) c = do
    c' ← parse_check_parameter f entry c
    parse_check_parameters f es c'

  -- The parameters under a function key; a value that is no mapping has none.
  abbrev nested : N → List (N × N)
  nested v = elim (kind v) [ mapping_node ↦ entries v | _ ↦ [] ]

  -- One entry of the second pass.
  unfoldable pub parse_check_entry :
      CheckFunction → N × N → CheckSpec F → Result ParseError (CheckSpec F)
  parse_check_entry f (k, v) c = elim (to_check_function (value k)) [
    | some g ↦ parse_check_parameters f (nested v) c
    | none ↦ parse_check_parameter f (k, v) c
  ]

  unfoldable pub parse_check_entries :
      CheckFunction → List (N × N) → CheckSpec F → Result ParseError (CheckSpec F)
  parse_check_entries f [] c = ok c
  parse_check_entries f (entry ∷ es) c = do
    c' ← parse_check_entry f entry c
    parse_check_entries f es c'

  -- The first pass.
  unfoldable pub find_check_function : List (N × N) → Option CheckFunction
  find_check_function [] = none
  find_check_function ((k, v) ∷ es) = elim (to_check_function (value k)) [
    | some f ↦ some f
    | none ↦ find_check_function es
  ]

  -- unmarshalCheckMapping
  unfoldable pub unmarshal_check_mapping : N → Result ParseError (CheckSpec F)
  unmarshal_check_mapping n = elim (find_check_function (entries n)) [
    | none ↦ err (at_line (line n) no_check_function)
    | some f ↦ parse_check_entries f (entries n) (check_of f)
  ]

  abbrev pub unmarshal_check_scalar : N → Result ParseError (CheckSpec F)
  unmarshal_check_scalar n = elim (to_check_function (value n)) [
    | none ↦ err (at_line (line n) (unknown_check (value n)))
    | some f ↦ ok (check_of f)
  ]

  -- CheckSpec.UnmarshalYAML
  unfoldable pub unmarshal_check : N → Result ParseError (CheckSpec F)
  unmarshal_check n = elim (kind n) [
    | scalar_node ↦ unmarshal_check_scalar n
    | mapping_node ↦ unmarshal_check_mapping n
    | sequence_node ↦ err (at_line (line n) not_a_check)
    | another_node ↦ err (at_line (line n) not_a_check)
  ]
