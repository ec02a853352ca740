-- ===== src/Tests/StakesTests.antt =====
-- The stake steps on a chain that is a table of stakes.
use norma.Base.{
  ℕ, ◌+◌, ◌-◌, ◌%◌, ◌^◌, ◌≡◌, refl, sym, subst, ap, inl, inr, ◌&&◌, Option, none, some, List, [],
  ◌∷◌, String, ltb, if◌then◌else◌, arith, All, ◌==◌, nat_comparable, string_comparable, Bool-cases,
}
use norma.Base.Map.{Map, lookup, insert}
use norma.Base.Results.{Result, ok, err, ok_injective}
use norma.Executor.State.{StakeKey, stake_key_comparable, RunState, Registry, Crypto, new_run_state}
use norma.Executor.Delegations.{
  StakeError, DelegateTarget, UndelegateTarget, StakeReport, exec_verify_stakes, exec_delegate,
  exec_undelegate, delegate_one, undelegate_one, undelegate_external, resolve_validator_id,
  get_or_create_delegator, verify_from, verify_one,
}
use norma.Executor.Delegations.Tracked.{IsLedger}
use norma.Executor.Delegations.Verified.{
  untouched, StakeStep, delegates, undelegates, exec_stakes, IsQueryFailure, exec_stakes_verified,
}

abbrev Table : Type 0
Table = ℕ → ℕ → ℕ

abbrev put : Table → ℕ → ℕ → ℕ → Table
put w a i n b j = if b == a && j == i then n else w b j

abbrev stake_of : Table → ℕ → ℕ → ℕ
stake_of w a i = w a i % 2 ^ 64

abbrev keys : Crypto
keys = record {
  derive = λ name. if name == "alice" then some 7 else none;
  address_of = λ key. key + 100;
}

abbrev table_delegate : Table → ℕ → ℕ → ℕ → Result String Table
table_delegate w id n key =
    if ltb (stake_of w (key + 100) id + n) (2 ^ 64)
    then ok (put w (key + 100) id (stake_of w (key + 100) id + n))
    else err "too much"

abbrev table_undelegate : Table → ℕ → ℕ → ℕ → Result String Table
table_undelegate w id n key =
    if ltb (stake_of w (key + 100) id) n
    then err "too little"
    else ok (put w (key + 100) id (if n == 0 then 0 else stake_of w (key + 100) id - n))

abbrev table_registry : Registry Table
table_registry = record {
  unregister_validator = λ w id n. ok w;
  delegate = table_delegate;
  undelegate_as = table_undelegate;
  fund_delegator = λ w a n. ok w;
  get_delegator_stake = λ w a i. ok (stake_of w a i);
}

table_delegates :
    (w w' : Table) (id n key : ℕ)
    → table_delegate w id n key ≡ ok w'
    → (b i : ℕ)
    → stake_of w' b i ≡ (if b == key + 100 && i == id then stake_of w b i + n else stake_of w b i)
table_delegates w w' id n key h b i =
    elim (Bool-cases (ltb (stake_of w (key + 100) id + n) (2 ^ 64))) [
      | inr large ↦ absurd (ground arith)
      | inl small ↦
          let next = put w (key + 100) id (stake_of w (key + 100) id + n) in
          let same : next ≡ w' = ok_injective {E = String} next w' (rw small at h) in
          subst
            (λ z.
              stake_of z b i
              ≡ (if b == key + 100 && i == id then stake_of w b i + n else stake_of w b i))
            same (ground arith)
    ]

table_undelegates :
    (w w' : Table) (id n key : ℕ)
    → table_undelegate w id n key ≡ ok w'
    → (b i : ℕ)
    → stake_of w' b i ≡ (
        if b == key + 100 && i == id
        then (if n == 0 then 0 else stake_of w b i - n)
        else stake_of w b i)
table_undelegates w w' id n key h b i = elim (Bool-cases (ltb (stake_of w (key + 100) id) n)) [
  | inl little ↦ absurd (ground arith)
  | inr enough ↦
      let next = put w (key + 100) id (if n == 0 then 0 else stake_of w (key + 100) id - n) in
      let same : next ≡ w' = ok_injective {E = String} next w' (rw enough at h) in
      subst
        (λ z. stake_of z b i ≡ (
          if b == key + 100 && i == id
          then (if n == 0 then 0 else stake_of w b i - n)
          else stake_of w b i))
        same (ground arith)
]

table-IsLedger : IsLedger keys table_registry stake_of
table-IsLedger = record {
  word = λ w a i. omega arith;
  reads = λ w a i n h. ground arith;
  funds = λ w w' a n h b i. ap (λ z. stake_of z b i) (ok_injective {E = String} w' w (sym h));
  delegates = table_delegates;
  undelegates = table_undelegates;
  unregisters = λ w w' id n h name key i d.
      ap (λ z. stake_of z (key + 100) i) (ok_injective {E = String} w' w (sym h));
  separate = λ n m k l d e same.
      ground (arith, string_comparable.same_iff n "alice", string_comparable.same_iff m "alice");
}

abbrev empty_table : Table
empty_table a i = 0

abbrev started : RunState
started = record (new_run_state []) {
  nodes = ("V", record { handle = 1; validator_id = some 3 }) ∷ [];
}

abbrev to_v : ℕ → DelegateTarget
to_v n = record { node = "V"; delegator = "alice"; stake = n }

abbrev from_v : Option ℕ → UndelegateTarget
from_v n = record { node = "V"; delegator = "alice"; stake = n }

abbrev moved : Result StakeError (RunState × Table)
moved =
    exec_stakes keys table_registry
      (delegates (to_v 50 ∷ to_v 20 ∷ []) ∷ undelegates (from_v (some 30) ∷ []) ∷ [])
      (started, empty_table)

abbrev expected_of : Result StakeError (RunState × Table) → Map StakeKey ℕ
expected_of (ok (s, w)) = s.expected_stakes
expected_of (err e) = []

abbrev reported : Result StakeError (RunState × Table) → List StakeReport
reported (ok (s, w)) = exec_verify_stakes keys table_registry s w
reported (err e) = []

expected_forty : expected_of moved ≡ (record { delegator = "alice"; validator_id = 3 }, 40) ∷ []
unfolding exec_stakes exec_delegate exec_undelegate delegate_one undelegate_one undelegate_external
    resolve_validator_id get_or_create_delegator lookup insert
expected_forty = refl

reported_nothing : reported moved ≡ []
unfolding exec_stakes exec_delegate exec_undelegate delegate_one undelegate_one undelegate_external
    resolve_validator_id get_or_create_delegator lookup insert verify_from verify_one
reported_nothing = refl

abbrev steps : List StakeStep
steps = delegates (to_v 50 ∷ []) ∷ undelegates (from_v none ∷ []) ∷ []

abbrev after_steps : RunState × Table
after_steps = (
  record started {
    delegators = ("alice", record { name = "alice"; private_key = 7; address = 107 }) ∷ [];
    expected_stakes = (record { delegator = "alice"; validator_id = 3 }, 0) ∷ [];
  },
  put (put empty_table 107 3 50) 107 3 0,
)

steps_run : exec_stakes keys table_registry steps (untouched started, empty_table) ≡ ok after_steps
unfolding exec_stakes exec_delegate exec_undelegate delegate_one undelegate_one undelegate_external
    resolve_validator_id get_or_create_delegator lookup insert
steps_run = refl

exec_stakes_verified_example :
    All IsQueryFailure (exec_verify_stakes keys table_registry after_steps.0 after_steps.1)
exec_stakes_verified_example =
    exec_stakes_verified keys table_registry stake_of table-IsLedger steps started empty_table
      after_steps (λ name key i d. refl) steps_run
