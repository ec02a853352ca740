-- ===== src/Tests/RulesTests.antt =====
-- The network rules check of driver/checking/network_rules.go at concrete nodes. The rules are the
-- upgrade in force, as a number.
use norma.Base.{
  ℕ, ◌≡◌, ◌↔◌, ◌⊎◌, refl, true, false, Option, string_comparable, nat_comparable, some, none, List,
  [], ◌∷◌, String, if◌then◌else◌, ◌==◌,
}
use norma.Base.Int.{pos, ◌≤ℤ◌, ◌<ℤ◌}
use norma.Base.Results.{ok, err}
use norma.Genesis.RulesPatch.{NetworkRulesPatch, Opera, no_rules, apply_network_rules_patch}
use norma.Checking.Poll.{poll_from}
use norma.Checking.Rules.{
  RulesConfig, RulesNode, undialled, fetched, not_applied, judge_rules, got_failures,
  check_rules_once, check_rules,
}
use norma.Checking.Rules.Converged.{AppliedAt, IsConverged, check_rules-IsConverged}

abbrev upgrade : NetworkRulesPatch
upgrade = record no_rules {
  epochs = some (record { max_epoch_gas = some 7; max_epoch_duration = none });
}

-- Only the gas of an epoch is read from the patch.
abbrev encode : NetworkRulesPatch → Option String
encode p = elim p.epochs [ none ↦ some "{}" | some e ↦ some "epochs" ]

abbrev opera : Opera ℕ
opera = record {
  marshal = encode;
  update_rules = λ rules body. if body == "{}" then some rules else some 7;
  deep_equal = λ a b. a == b;
}

abbrev upgraded : RulesNode ℕ
upgraded = record { label = "A"; expected_failure = false; answer = fetched 7 }

abbrev outdated : RulesNode ℕ
outdated = record { label = "B"; expected_failure = false; answer = fetched 3 }

abbrev down : RulesNode ℕ
down = record { label = "C"; expected_failure = true; answer = undialled }

outdated_fails : check_rules_once opera upgrade (upgraded ∷ outdated ∷ []) ≡ err (not_applied "B")
unfolding check_rules_once got_failures judge_rules apply_network_rules_patch
outdated_fails = refl

down_passes : check_rules_once opera upgrade (down ∷ upgraded ∷ []) ≡ ok tt
unfolding check_rules_once got_failures judge_rules apply_network_rules_patch
down_passes = refl

-- The second round finds the upgrade.
abbrev rounds : ℕ → List (RulesNode ℕ)
rounds i = if i == 0 then upgraded ∷ outdated ∷ [] else upgraded ∷ []

abbrev settings : RulesConfig
settings = record { rules_patch = upgrade; configure_err = none; timeout = pos 10 }

converges : check_rules opera settings rounds (λ i. false) (λ i. true) 2 ≡ some (ok tt)
unfolding check_rules poll_from check_rules_once got_failures judge_rules apply_network_rules_patch
converges = refl

check_rules-IsConverged_example :
    (check_rules opera settings rounds (λ i. false) (λ i. true) 2 ≡ some (ok tt)) ↔ (
      (pos 10 ≤ℤ pos 0) × AppliedAt opera settings rounds (λ i. false) (λ i. true) 0
      ⊎ (pos 0 <ℤ pos 10)
        × ((i : ℕ) × IsConverged opera settings rounds (λ i. false) (λ i. true) 2 i))
check_rules-IsConverged_example =
    check_rules-IsConverged opera settings rounds (λ i. false) (λ i. true) 2 refl refl
