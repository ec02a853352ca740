-- ===== src/Tests/ParserTests.antt =====
-- The scenario parser on small documents.
use norma.Base.{
  ℕ, ◌*◌, ◌≡◌, ◌↔◌, refl, arith, true, false, Option, none, some, List, [], ◌∷◌, String, ltb, leb,
  if◌then◌else◌, ◌==◌, nat_comparable, string_comparable, get_elem?, All,
}
use norma.Base.Int.{ℤ, pos, ◌≤ℤ◌}
use norma.Base.Results.{ok, err}
use norma.Genesis.RulesPatch.{no_rules, EpochsPatch}
use norma.Parser.Functions.{
  StepFunction, CheckFunction, to_step_function, to_check_function, step_name, check_name,
  find_named, function_names_round_trip,
}
use norma.Parser.Rates.{Floats, Rate, check_rate, IsRate, check_rate_iff}
use norma.Parser.Scenario.{CheckSpec, Step, Scenario, empty_check, set_defaults, step_of}
use norma.Parser.Names.{is_name}
use norma.Parser.Yaml.{Yaml, scalar_node, mapping_node, at_line, two_functions}
use norma.Parser.Check.{Checks, check_steps, check_sub_check}
use norma.Parser.Check.Defaults.{set_defaults_pass}
use norma.Parser.CheckSpecs.{
  unmarshal_check, unmarshal_check_mapping, find_check_function, parse_check_entries,
  parse_check_entry, parse_check_parameter, parse_check_parameters, set_check_parameter,
}
use norma.Parser.CheckSpecs.Fits.{Fits}
use norma.Parser.CheckSpecs.Fitting.{unmarshal_check-Fits}
use norma.Parser.Steps.{
  unmarshal_mapping, parse_functions, take_function, parse_function_value, parse_parameters,
  parse_step_parameter, set_step_parameter,
}
use norma.Parser.Steps.Keys.{function_keys, IsTaken, unmarshal_mapping-keys}
use norma.Checking.Timing.{second, observation_window}
use norma.Checking.Configuration.{stays_failing}
use norma.Executor.Checks.{config_of}
use norma.Executor.Checks.Windows.{window_of, checked_window_granted}

function_names_round_trip_example :
    ((to_step_function "runApp" ≡ some StepFunction.run_app)
      ↔ (step_name StepFunction.run_app ≡ "runApp"))
    × ((to_check_function "runApp" ≡ some CheckFunction.block_hashes)
        ↔ (check_name CheckFunction.block_hashes ≡ "runApp"))
function_names_round_trip_example =
    function_names_round_trip "runApp" StepFunction.run_app CheckFunction.block_hashes

names_accepted : is_name "node-1.a" ≡ true
unfolding is_name
names_accepted = refl

names_refused : is_name "node 1" ≡ false
unfolding is_name
names_refused = refl

abbrev whole : Floats ℕ
whole = record { zero = 0; one = 1; less = ltb; at_most = leb }

abbrev wave : Rate ℕ
wave = record {
  constant = none;
  slope = none;
  wave = some (record { min = some 2; max = 9; period = 60 });
  auto = none;
}

check_rate_iff_example : (check_rate whole wave ≡ []) ↔ IsRate whole wave
check_rate_iff_example = check_rate_iff whole wave

abbrev tests : Checks ℕ
tests = record { floats = whole; to_lower = λ s. s; trim_space = λ s. s; validate = λ p. none }

abbrev four_samples : CheckSpec ℕ
four_samples = record empty_check {
  function = some CheckFunction.blocks_halted;
  tolerance = some (pos 4);
}

four_samples_pass : check_sub_check tests four_samples ≡ []
unfolding check_sub_check
four_samples_pass = refl

abbrev hot : CheckSpec ℕ
hot = record empty_check {
  function = some CheckFunction.block_gas_rate;
  tolerance = some (pos 4);
  ceiling = some 90;
}

hot_passes : check_sub_check tests hot ≡ []
unfolding check_sub_check
hot_passes = refl

checked_window_granted_example :
    (tolerance duration window : ℤ) × (window_of
        (λ i. i)
        (pos 7)
        CheckFunction.block_gas_rate
        (config_of pos CheckFunction.block_gas_rate hot)
      ≡ some (tolerance, duration))
    × (stays_failing (config_of pos CheckFunction.block_gas_rate hot) ≡ some false)
    × (observation_window duration tolerance ≡ ok window)
    × (pos (2 * second) ≤ℤ window)
checked_window_granted_example =
    checked_window_granted tests pos (λ i. i) (pos 7) hot CheckFunction.block_gas_rate refl refl
      hot_passes (λ n h. ground (arith, h))

-- Documents whose nodes are numbers: node 0 is a mapping, and node n is the nth text.
abbrev text_at : List String → ℕ → String
text_at texts n = elim (get_elem? texts n) [ none ↦ "" | some s ↦ s ]

abbrev document : List String → List (ℕ × ℕ) → Yaml ℕ ℕ
document texts pairs = record {
  kind = λ n. if n == 0 then mapping_node else scalar_node;
  is_null = λ n. text_at texts n == "";
  value = text_at texts;
  line = λ n. n;
  items = λ n. [];
  entries = λ n. pairs;
  as_string = λ n. ok (text_at texts n);
  as_int = λ n. ok (pos n);
  as_uint64 = λ n. ok n;
  as_bool = λ n. ok true;
  as_float = λ n. ok n;
  as_strings = λ n. ok [];
  as_rate = λ n. ok wave;
  as_rules = λ n. ok no_rules;
  as_delegate_target = λ n. err "not a target";
  as_undelegate_target = λ n. err "not a target";
  parse_duration = λ s. err "not a duration";
}

abbrev halted : Yaml ℕ ℕ
halted = document ("" ∷ "tolerance" ∷ "blocksHalted" ∷ "" ∷ []) ((1, 4) ∷ (2, 3) ∷ [])

halted_read : unmarshal_check halted 0 ≡ ok four_samples
unfolding unmarshal_check unmarshal_check_mapping find_check_function to_check_function find_named
    parse_check_entries parse_check_entry parse_check_parameter parse_check_parameters
    set_check_parameter
halted_read = refl

unmarshal_check-Fits_example : (f : CheckFunction) × Fits f four_samples
unmarshal_check-Fits_example = unmarshal_check-Fits halted 0 four_samples halted_read

abbrev load : Yaml ℕ ℕ
load = document ("" ∷ "runApp" ∷ "load" ∷ "type" ∷ "counter" ∷ []) ((3, 4) ∷ (1, 2) ∷ [])

abbrev counter : Step ℕ
counter = record (step_of StepFunction.run_app) { identifier = "load"; app_type = "counter" }

load_read : unmarshal_mapping load 0 ≡ ok counter
unfolding unmarshal_mapping parse_functions take_function parse_function_value parse_parameters
    parse_step_parameter set_step_parameter to_step_function find_named
load_read = refl

unmarshal_mapping-keys_example :
    (f : StepFunction) × (counter.function ≡ some f)
    × (function_keys load ((3, 4) ∷ (1, 2) ∷ []) ≡ f ∷ [])
    × All (IsTaken load f) ((3, 4) ∷ (1, 2) ∷ [])
unmarshal_mapping-keys_example = unmarshal_mapping-keys load 0 counter load_read

abbrev both : Yaml ℕ ℕ
both = document ("" ∷ "stopApp" ∷ "load" ∷ "stopNode" ∷ "A" ∷ []) ((1, 2) ∷ (3, 4) ∷ [])

two_functions_refused :
    unmarshal_mapping both 0
    ≡ err (at_line 3 (two_functions StepFunction.stop_app StepFunction.stop_node))
unfolding unmarshal_mapping parse_functions take_function parse_function_value to_step_function
    find_named
two_functions_refused = refl

abbrev scenario : Scenario ℕ
scenario = record {
  name = "one app";
  description = "runs an application";
  initial_rules = no_rules;
  disable_end_checks = false;
  steps = counter ∷ [];
}

abbrev duration_of : Option EpochsPatch → Option ℕ
duration_of none = none
duration_of (some e) = e.max_epoch_duration

set_defaults_pass_example :
    (check_steps tests 1 (set_defaults scenario).steps ≡ check_steps tests 1 scenario.steps)
    × (duration_of (set_defaults scenario).initial_rules.epochs ≡ some 15_000_000_000)
set_defaults_pass_example = set_defaults_pass tests scenario
