-- ===== src/Tests/ValidatorsTests.antt =====
-- The check of the active validators at a concrete network.
use norma.Base.{
  Some, ℕ, ◌≡◌, ◌≤◌, refl, Bool, true, false, Option, none, some, List, [], ◌∷◌, String, All, leb,
  ltb, if◌then◌else◌, nat_comparable,
}
use norma.Base.Map.{insert}
use norma.Base.Results.{Result, ok, err}
use norma.Checking.Poll.{poll_from}
use norma.Checking.Validators.{
  Runner, ValidatorError, labels_from, missing, verify_all_active, check_validators, not_members,
}
use norma.Checking.Validators.Members.{IsMember, IsExpected, check_validators-IsMember}

abbrev runner : String → Bool → Option ℕ → Runner
runner label failing id = record { label = label; expected_failure = failing; validator_id = id }

abbrev running : List Runner
running =
    runner "A" false (some 1)
    ∷ runner "O" false none
    ∷ runner "F" true (some 2)
    ∷ runner "B" false (some 3)
    ∷ []

-- Validator 3 joins the set in the third round; the deadline passes in the fifth.
abbrev sets : ℕ → Result String (List ℕ)
sets i = if ltb i 1 then err "no answer" else if ltb i 2 then ok (1 ∷ []) else ok (1 ∷ 3 ∷ [])

running_passes : check_validators running sets (leb 4) (λ i. true) 5 ≡ some (ok tt)
unfolding check_validators labels_from missing verify_all_active insert poll_from
running_passes = refl

late_fails :
    check_validators running sets (leb 1) (λ i. true) 5 ≡ some (err (not_members ("B" ∷ [])))
unfolding check_validators labels_from missing verify_all_active insert poll_from
late_fails = refl

check_validators-IsMember_example :
    (r : Result ValidatorError (Unit {0})) × (check_validators running sets (leb 4) (λ i. true) 5
      ≡ some r)
    × (r ≡ ok tt
        → Some IsExpected running
          × (i : ℕ) × (active : List ℕ) × (i ≤ 4)
          × (sets i ≡ ok active)
          × All (IsMember active) running)
check_validators-IsMember_example =
    check_validators-IsMember running sets (leb 4) (λ i. true) 4 refl
