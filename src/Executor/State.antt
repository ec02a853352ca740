-- ===== src/Executor/State.antt =====
-- The state that driver/executor/run.go keeps while it runs a scenario, and the interface
-- `validatorRegistry` of driver/executor/validator_registry.go that its stake operations call.
use norma.Base.{
  ℕ, ◌≡◌, ◌↔◌, Bool, ◌&&◌, Option, true, [], ap, String, arith, Comparable, ◌==◌, nat_comparable,
  string_comparable,
}
use norma.Base.Map.{Map}
use norma.Base.Results.{Result}

-- A node of the network as the executor holds it. `handle` tells the objects apart.
pub record Node : Type 0 where
  pub handle : ℕ
  pub validator_id : Option ℕ

-- A private key and the address derived from it.
pub record DelegatorAccount : Type 0 where
  pub name : String
  pub private_key : ℕ
  pub address : ℕ

pub record StakeKey : Type 0 where
  pub delegator : String
  pub validator_id : ℕ

abbrev stake_key_beq : StakeKey → StakeKey → Bool
stake_key_beq a b = a.delegator == b.delegator && a.validator_id == b.validator_id

pub stake_key_beq_iff : (a b : StakeKey) → (stake_key_beq a b ≡ true) ↔ (a ≡ b)
stake_key_beq_iff a b =
    let (to, from) = string_comparable.same_iff a.delegator b.delegator in
    let (to', from') = nat_comparable.same_iff a.validator_id b.validator_id in
    (
      λ h.
          let names : a.delegator ≡ b.delegator = to (ground arith) in
          let ids : a.validator_id ≡ b.validator_id = to' (ground arith) in
          λ i. record { delegator = names i; validator_id = ids i },
      λ e. rw (from (ap (λ k. k.delegator) e), from' (ap (λ k. k.validator_id) e)),
    )

instance abbrev pub stake_key_comparable : Comparable StakeKey
stake_key_comparable = record { same_as = stake_key_beq; same_iff = stake_key_beq_iff }

pub record RunState : Type 0 where
  pub nodes : Map String Node
  pub apps : Map String ℕ
  pub node_history : Map String Bool
  pub validator_ids : Map String ℕ
  pub delegators : Map String DelegatorAccount
  pub expected_stakes : Map StakeKey ℕ

-- The stake operations of the registry, on the state `W` of the network. Stakes are 64-bit words
-- that count S. An operation that fails ends the run, so what it leaves behind is not read again.
pub record Registry (W : Type 0) : Type 0 where
  pub unregister_validator : W → ℕ → ℕ → Result String W
  pub delegate : W → ℕ → ℕ → ℕ → Result String W
  pub undelegate_as : W → ℕ → ℕ → ℕ → Result String W
  pub fund_delegator : W → ℕ → ℕ → Result String W
  pub get_delegator_stake : W → ℕ → ℕ → Result String ℕ

-- The key derivation of the crypto library: the key of a delegator's name, where it is one, and the
-- address of a key.
pub record Crypto : Type 0 where
  pub derive : String → Option ℕ
  pub address_of : ℕ → ℕ

-- The state at the start of `runWithObserver`: the ids of the genesis validators are known.
abbrev pub new_run_state : Map String ℕ → RunState
new_run_state genesis_validator_ids = record {
  nodes = [];
  apps = [];
  node_history = [];
  validator_ids = genesis_validator_ids;
  delegators = [];
  expected_stakes = [];
}
