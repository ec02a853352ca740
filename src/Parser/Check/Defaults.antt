-- ===== src/Parser/Check/Defaults.antt =====
-- That the defaults of a scenario, of driver/parser/defaults.go and setDefaults, pass its check.
use norma.Base.{
  ℕ, suc, ◌≡◌, refl, ap, Option, none, some, List, [], ◌∷◌, ◌++◌, arith, Bool-cases, Option-cases,
  map, inl, inr,
}
use norma.Genesis.RulesPatch.{
  NetworkRulesPatch, ensure_default_epoch_duration, default_max_epoch_duration, EpochsPatch,
}
use norma.Parser.Scenario.{Step, Scenario, end_checks, set_defaults}
use norma.Parser.Check.{Checks, check_sub_check, check_sub_checks, check_step, check_steps, in_step}

append_same : {A : Type 0} (xs ys zs : List A) → ys ≡ zs → xs ++ ys ≡ xs ++ zs
append_same xs ys zs e = ap (λ l. xs ++ l) e

-- The epoch duration that a patch sets.
abbrev epoch_duration : NetworkRulesPatch → Option ℕ
epoch_duration p = elim p.epochs [ none ↦ none | some e ↦ e.max_epoch_duration ]

abbrev duration_or_default : Option ℕ → ℕ
duration_or_default none = default_max_epoch_duration
duration_or_default (some d) = d

duration_set :
    (e : Option EpochsPatch) (p : NetworkRulesPatch)
    → p.epochs ≡ e
    → epoch_duration (ensure_default_epoch_duration p)
      ≡ some (duration_or_default (epoch_duration p))
duration_set none p h = rw h refl
duration_set (some e) p h = elim (Option-cases e.max_epoch_duration) [
  | inl missing ↦ ground (arith, h, missing)
  | inr (d, given) ↦ ground (arith, h, given)
]

module _ {F : Type 0} (checks : Checks F) where
  end_checks_pass : (i : ℕ) → check_steps checks i end_checks ≡ []
  unfolding check_steps check_step check_sub_checks check_sub_check
  end_checks_pass i = refl

  check_steps-append :
      (i : ℕ) (ss : List (Step F))
      → check_steps checks i (ss ++ end_checks) ≡ check_steps checks i ss
  unfolding check_steps
  check_steps-append i [] = end_checks_pass i
  check_steps-append i (s ∷ ss) =
      append_same (map (in_step i) (check_step checks s)) _ _ (check_steps-append (suc i) ss)

  -- The defaults add no error to the steps of a scenario, whether they add end checks or not, and
  -- leave the rules with an epoch duration: the one given, or else the default.
  pub set_defaults_pass :
      (s : Scenario F)
      → (check_steps checks 1 (set_defaults s).steps ≡ check_steps checks 1 s.steps)
        × (epoch_duration (set_defaults s).initial_rules
            ≡ some (duration_or_default (epoch_duration s.initial_rules)))
  set_defaults_pass s = (
    elim (Bool-cases s.disable_end_checks) [
      | inl off ↦ rw off refl
      | inr on ↦ rw on (check_steps-append 1 s.steps)
    ],
    duration_set s.initial_rules.epochs s.initial_rules refl,
  )
