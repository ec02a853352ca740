-- ===== src/Checking/Rules.antt =====
-- driver/checking/network_rules.go: the configured rules are already applied on all nodes, but on
-- those that are expected to fail.
pub mod Applied
pub mod Converged
use norma.Base.{
  ℕ, Bool, true, false, not, Option, none, some, List, [], ◌∷◌, String, string_comparable, same_set,
  if◌then◌else◌,
}
use norma.Base.Int.{ℤ, pos, ltb_ℤ}
use norma.Base.Results.{Result, ok, err, ◌>>=◌}
use norma.Genesis.RulesPatch.{
  NetworkRulesPatch, Opera, PatchError, apply_network_rules_patch, sets_nothing,
}
use norma.Checking.Failures.{labels_of}
use norma.Checking.Poll.{Rounds, poll}

-- What a node answers to DialRpc and GetNetworkRules.
pub data Answer (Rules : Type 0) : Type 0 where
  undialled : Answer Rules
  unfetched : Answer Rules
  fetched : Rules → Answer Rules

pub record RulesNode (Rules : Type 0) : Type 0 where
  pub label : String
  pub expected_failure : Bool
  pub answer : Answer Rules

pub data RulesError : Type 0 where
  not_configured : RulesError
  not_dialled : String → RulesError
  not_fetched : String → RulesError
  not_patched : PatchError → RulesError
  not_applied : String → RulesError
  wrong_failures : List String → List String → RulesError
  not_converged : RulesError → RulesError
  interrupted : RulesError

pub record RulesConfig : Type 0 where
  pub rules_patch : NetworkRulesPatch
  pub configure_err : Option RulesError
  pub timeout : ℤ

-- A failure is only an error on a node that is not expected to fail.
abbrev pub tolerated : Bool → RulesError → Result RulesError Bool
tolerated expected e = if expected then ok true else err e

abbrev pub expected_failures : {Rules : Type 0} → List (RulesNode Rules) → List String
expected_failures ns = labels_of (λ n. n.label) (λ n. n.expected_failure) ns

abbrev pub compare_failures : List String → List String → Result RulesError (Unit {0})
compare_failures got want = if same_set got want then ok tt else err (wrong_failures got want)

module _ {Rules : Type 0} (o : Opera Rules) (patch : NetworkRulesPatch) where
  -- Whether one node is among the failures that were got.
  unfoldable pub judge_rules : RulesNode Rules → Result RulesError Bool
  judge_rules n = elim n.answer [
    | undialled ↦ tolerated n.expected_failure (not_dialled n.label)
    | unfetched ↦ tolerated n.expected_failure (not_fetched n.label)
    | fetched rules ↦ elim (apply_network_rules_patch o rules patch) [
      | err e ↦ err (not_patched e)
      | ok patched ↦
          if o.deep_equal rules patched
          then ok false
          else tolerated n.expected_failure (not_applied n.label)
    ]
  ]

  unfoldable pub got_failures : List (RulesNode Rules) → Result RulesError (List String)
  got_failures [] = ok []
  got_failures (n ∷ ns) =
      let rest = got_failures ns in
      judge_rules n
      >>= (λ failed. if failed then rest >>= (λ labels. ok (n.label ∷ labels)) else rest)

  -- checkOnce
  unfoldable pub check_rules_once : List (RulesNode Rules) → Result RulesError (Unit {0})
  check_rules_once nodes = do
    got ← got_failures nodes
    compare_failures got (expected_failures nodes)

module _ {Rules : Type 0} (o : Opera Rules) where
  -- Check; round `i` finds the nodes of `seen i`.
  unfoldable pub check_rules :
      RulesConfig
      → (ℕ → List (RulesNode Rules))
      → (ℕ → Bool)
      → (ℕ → Bool)
      → ℕ
      → Option (Result RulesError (Unit {0}))
  check_rules c seen expired slept fuel = elim c.configure_err [
    | some e ↦ some (err e)
    | none ↦
        let once : ℕ → Result RulesError (Unit {0}) =
          λ i. check_rules_once o c.rules_patch (seen i) in
        if sets_nothing c.rules_patch
        then some (ok tt)
        else if not (ltb_ℤ (pos 0) c.timeout)
        then some (once 0)
        else poll not_converged interrupted
            (record { attempt = once; expired = expired; slept = slept }) fuel
  ]
