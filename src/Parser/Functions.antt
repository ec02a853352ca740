-- ===== src/Parser/Functions.antt =====
-- The functions of steps and of checks in driver/parser/scenario.go, with their names. The source's
-- `StepFunction` is a string that holds one of these names, or is empty before one is found.
use norma.Base.{
  Option, none, some, List, [], ◌∷◌, String, ◌≡◌, ◌↔◌, refl, subst, arith, if◌then◌else◌, ◌==◌,
  string_comparable,
}

-- The functions of steps.
pub data StepFunction : Type 0 where
  start_node stop_node delegate undelegate verify_stakes update_rules advance_epoch : StepFunction
  wait_for_epoch run_app stop_app checks wait_for kill_sonic heal_db : StepFunction

-- The functions of the items of a `checks` step.
pub data CheckFunction : Type 0 where
  block_gas_rate block_hashes block_heights blocks_halted blocks_produced : CheckFunction
  event_throttled network_rules validators_active : CheckFunction

abbrev pub step_name : StepFunction → String
step_name StepFunction.start_node = "startNode"
step_name StepFunction.stop_node = "stopNode"
step_name StepFunction.delegate = "delegate"
step_name StepFunction.undelegate = "undelegate"
step_name StepFunction.verify_stakes = "verifyStakes"
step_name StepFunction.update_rules = "updateRules"
step_name StepFunction.advance_epoch = "advanceEpoch"
step_name StepFunction.wait_for_epoch = "waitForEpoch"
step_name StepFunction.run_app = "runApp"
step_name StepFunction.stop_app = "stopApp"
step_name StepFunction.checks = "checks"
step_name StepFunction.wait_for = "waitFor"
step_name StepFunction.kill_sonic = "killSonic"
step_name StepFunction.heal_db = "healDb"

abbrev pub check_name : CheckFunction → String
check_name CheckFunction.block_gas_rate = "blockGasRate"
check_name CheckFunction.block_hashes = "blockHashes"
check_name CheckFunction.block_heights = "blockHeights"
check_name CheckFunction.blocks_halted = "blocksHalted"
check_name CheckFunction.blocks_produced = "blocksProduced"
check_name CheckFunction.event_throttled = "eventThrottled"
check_name CheckFunction.network_rules = "networkRules"
check_name CheckFunction.validators_active = "validatorsActive"

abbrev pub all_step_functions : List StepFunction
all_step_functions =
    StepFunction.start_node ∷ StepFunction.stop_node ∷ StepFunction.delegate
    ∷ StepFunction.undelegate ∷ StepFunction.verify_stakes ∷ StepFunction.update_rules
    ∷ StepFunction.advance_epoch ∷ StepFunction.wait_for_epoch ∷ StepFunction.run_app
    ∷ StepFunction.stop_app ∷ StepFunction.checks ∷ StepFunction.wait_for ∷ StepFunction.kill_sonic
    ∷ StepFunction.heal_db ∷ []

abbrev pub all_check_functions : List CheckFunction
all_check_functions =
    CheckFunction.block_gas_rate ∷ CheckFunction.block_hashes ∷ CheckFunction.block_heights
    ∷ CheckFunction.blocks_halted ∷ CheckFunction.blocks_produced ∷ CheckFunction.event_throttled
    ∷ CheckFunction.network_rules ∷ CheckFunction.validators_active ∷ []

module _ {F : Type 0} (name : F → String) where
  -- The first function of the list that has the name.
  unfoldable pub find_named : List F → String → Option F
  find_named [] s = none
  find_named (f ∷ fs) s = if name f == s then some f else find_named fs s

  find_named-name : (fs : List F) (s : String) (f : F) → find_named fs s ≡ some f → name f ≡ s
  unfolding find_named
  find_named-name [] s f h = absurd cc
  find_named-name (g ∷ fs) s f h =
      ground (arith, string_comparable.same_iff (name g) s, find_named-name fs s f)

unfoldable pub to_step_function : String → Option StepFunction
to_step_function = find_named step_name all_step_functions

unfoldable pub to_check_function : String → Option CheckFunction
to_check_function = find_named check_name all_check_functions

step_name-found : (f : StepFunction) → to_step_function (step_name f) ≡ some f
unfolding to_step_function find_named
step_name-found StepFunction.start_node = refl
step_name-found StepFunction.stop_node = refl
step_name-found StepFunction.delegate = refl
step_name-found StepFunction.undelegate = refl
step_name-found StepFunction.verify_stakes = refl
step_name-found StepFunction.update_rules = refl
step_name-found StepFunction.advance_epoch = refl
step_name-found StepFunction.wait_for_epoch = refl
step_name-found StepFunction.run_app = refl
step_name-found StepFunction.stop_app = refl
step_name-found StepFunction.checks = refl
step_name-found StepFunction.wait_for = refl
step_name-found StepFunction.kill_sonic = refl
step_name-found StepFunction.heal_db = refl

check_name-found : (f : CheckFunction) → to_check_function (check_name f) ≡ some f
unfolding to_check_function find_named
check_name-found CheckFunction.block_gas_rate = refl
check_name-found CheckFunction.block_hashes = refl
check_name-found CheckFunction.block_heights = refl
check_name-found CheckFunction.blocks_halted = refl
check_name-found CheckFunction.blocks_produced = refl
check_name-found CheckFunction.event_throttled = refl
check_name-found CheckFunction.network_rules = refl
check_name-found CheckFunction.validators_active = refl

-- Reading a name gives a function exactly when it is the name of that function, for the functions of
-- steps and for those of checks; so printing and reading are inverse to each other, and no other
-- text is read as a function.
pub function_names_round_trip :
    (s : String) (f : StepFunction) (g : CheckFunction)
    → ((to_step_function s ≡ some f) ↔ (step_name f ≡ s))
      × ((to_check_function s ≡ some g) ↔ (check_name g ≡ s))
unfolding to_step_function to_check_function
function_names_round_trip s f g = (
  (
    find_named-name step_name all_step_functions s f,
    λ e. subst (λ x. to_step_function x ≡ some f) e (step_name-found f),
  ),
  (
    find_named-name check_name all_check_functions s g,
    λ e. subst (λ x. to_check_function x ≡ some g) e (check_name-found g),
  ),
)
