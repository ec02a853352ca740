-- ===== src/Parser/Yaml.antt =====
-- What driver/parser/scenario.go asks of the YAML library and of `time.ParseDuration`, and the errors
-- that it reports.
use norma.Base.{ℕ, Bool, List, String}
use norma.Base.Int.{ℤ}
use norma.Base.Results.{Result, ok, err}
use norma.Genesis.RulesPatch.{NetworkRulesPatch}
use norma.Parser.Functions.{StepFunction, CheckFunction}
use norma.Parser.Rates.{Rate}
use norma.Parser.Scenario.{DelegateTarget, UndelegateTarget}

pub data Kind : Type 0 where
  scalar_node sequence_node mapping_node another_node : Kind

-- The nodes `N` of a document: their kind, text, line and content (a mapping's keys and values are
-- paired), and Decode at the types that the parser decodes to. An error of the library is its text.
pub record Yaml (N F : Type 0) : Type 0 where
  pub kind : N → Kind
  pub is_null : N → Bool
  pub value : N → String
  pub line : N → ℕ
  pub items : N → List N
  pub entries : N → List (N × N)
  pub as_string : N → Result String String
  pub as_int : N → Result String ℤ
  pub as_uint64 : N → Result String ℕ
  pub as_bool : N → Result String Bool
  pub as_float : N → Result String F
  pub as_strings : N → Result String (List String)
  pub as_rate : N → Result String (Rate F)
  pub as_rules : N → Result String NetworkRulesPatch
  pub as_delegate_target : N → Result String DelegateTarget
  pub as_undelegate_target : N → Result String UndelegateTarget
  pub parse_duration : String → Result String ℤ

pub data ParseError : Type 0 where
  at_line : ℕ → ParseError → ParseError
  unknown_function : String → ParseError
  unknown_check : String → ParseError
  not_a_check not_a_step no_check_function no_step_function : ParseError
  two_functions : StepFunction → StepFunction → ParseError
  check_parameter_not_valid : String → CheckFunction → ParseError
  step_parameter_not_valid : String → StepFunction → ParseError
  bad_parameter : String → String → ParseError
  bad_value : StepFunction → String → ParseError
  bad_target : ℕ → String → ParseError
  negative_duration duration_not_positive : ℤ → ParseError
  value_not_a_mapping value_not_targets value_not_checks value_not_a_duration : String → ParseError
  value_not_taken : StepFunction → String → ParseError

-- A failure of the library, as an error of the parser.
abbrev pub or_bad : {A : Type 0} → (String → ParseError) → Result String A → Result ParseError A
or_bad e (ok a) = ok a
or_bad e (err m) = err (e m)

-- An error with its line.
abbrev pub with_line : {A : Type 0} → ℕ → Result ParseError A → Result ParseError A
with_line n (ok a) = ok a
with_line n (err e) = err (at_line n e)
