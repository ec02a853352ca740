-- ===== src/Tests/ActivationTests.antt =====
-- ensureValidatorsActive at concrete networks.
use norma.Base.{
  ◌≡◌, refl, true, none, some, [], ◌∷◌, leb, subst, nat_comparable, some_injective, if◌then◌else◌,
}
use norma.Base.Results.{Result, ok, err}
use norma.Checking.Poll.{poll_from}
use norma.Executor.Run.Production.{Client, WaitError, wait_from, wait_for_block_production}
use norma.Executor.Activation.{
  ActivationError, never_joined, stalled, Admission, missing_validators, lacking,
  ensure_validators_active,
}
use norma.Executor.Activation.Joined.{IsJoined, ensure_validators_active-IsJoined}

abbrev producer : Client
producer = record {
  baseline = ok 7;
  block_number = λ i. ok (if leb 1 i then 8 else 7);
  done = leb 4;
}

abbrev silent : Client
silent = record { baseline = ok 7; block_number = λ i. ok 7; done = leb 4 }

-- Validator 3 is in the set from the third round of the poll on.
abbrev admission : Admission
admission = record {
  dials = true;
  before = some (1 ∷ 2 ∷ []);
  producer = some producer;
  sealing = none;
  after = λ i. if leb 2 i then some (1 ∷ 2 ∷ 3 ∷ []) else none;
  expired = leb 4;
  slept = λ i. true;
}

joins : ensure_validators_active (1 ∷ 3 ∷ []) admission 5 ≡ some (ok tt)
unfolding ensure_validators_active lacking missing_validators poll_from wait_for_block_production
    wait_from
joins = refl

late :
    ensure_validators_active (1 ∷ 3 ∷ []) (record admission { after = λ i. some (1 ∷ 2 ∷ []) }) 5
    ≡ some (err (never_joined (3 ∷ [])))
unfolding ensure_validators_active lacking missing_validators poll_from wait_for_block_production
    wait_from
late = refl

without_blocks :
    ensure_validators_active (1 ∷ 3 ∷ []) (record admission { producer = some silent }) 5
    ≡ some (err (stalled WaitError.context_ended))
unfolding ensure_validators_active lacking missing_validators poll_from wait_for_block_production
    wait_from
without_blocks = refl

ended : (c : Client) → admission.producer ≡ some c → c.done 4 ≡ true
ended c h = subst (λ x. x.done 4 ≡ true) (some_injective producer c h) refl

ensure_validators_active-IsJoined_example :
    (r : Result ActivationError (Unit {0})) × (ensure_validators_active (1 ∷ 3 ∷ []) admission 5
      ≡ some r)
    × (r ≡ ok tt → IsJoined (1 ∷ 3 ∷ []) admission 4)
ensure_validators_active-IsJoined_example =
    ensure_validators_active-IsJoined admission 4 refl (1 ∷ 3 ∷ []) ended
