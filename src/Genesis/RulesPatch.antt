-- ===== src/Genesis/RulesPatch.antt =====
-- The patches of network rules in genesis/rules_patch.go: every rule is optional, and a patch sets
-- those that are given. A duration is a 64-bit number of nanoseconds.
use norma.Base.{ℕ, ◌*◌, Bool, true, false, ◌&&◌, Option, none, some}
use norma.Base.{String}
use norma.Base.Int.{ℤ}
use norma.Base.Results.{Result, ok, err}

pub record DagPatch : Type 0 where
  pub max_parents : Option ℕ
  pub max_free_parents : Option ℕ
  pub max_extra_data : Option ℕ

pub record EmitterPatch : Type 0 where
  pub interval : Option ℕ
  pub stall_threshold : Option ℕ
  pub stalled_interval : Option ℕ

pub record EpochsPatch : Type 0 where
  pub max_epoch_gas : Option ℕ
  pub max_epoch_duration : Option ℕ

pub record BlocksPatch : Type 0 where
  pub max_block_gas : Option ℕ
  pub max_empty_block_skip_period : Option ℕ

pub record GasPatch : Type 0 where
  pub max_event_gas : Option ℕ
  pub event_gas : Option ℕ
  pub parent_gas : Option ℕ
  pub extra_data_gas : Option ℕ
  pub block_votes_base_gas : Option ℕ
  pub block_vote_gas : Option ℕ
  pub epoch_vote_gas : Option ℕ
  pub misbehaviour_proof_gas : Option ℕ

pub record GasPowerPatch : Type 0 where
  pub alloc_per_sec : Option ℕ
  pub max_alloc_period : Option ℕ
  pub startup_alloc_period : Option ℕ
  pub min_startup_gas : Option ℕ

pub record EconomyPatch : Type 0 where
  pub block_missed_slack : Option ℕ
  pub gas : Option GasPatch
  pub min_gas_price : Option ℤ
  pub min_base_fee : Option ℤ
  pub short_gas_power : Option GasPowerPatch
  pub long_gas_power : Option GasPowerPatch

pub record UpgradesPatch : Type 0 where
  pub berlin : Option Bool
  pub london : Option Bool
  pub llr : Option Bool
  pub sonic : Option Bool
  pub allegro : Option Bool
  pub brio : Option Bool
  pub single_proposer_block_formation : Option Bool
  pub gas_subsidies : Option Bool
  pub transaction_bundles : Option Bool
  pub transaction_priorities : Option Bool

pub record NetworkRulesPatch : Type 0 where
  pub dag : Option DagPatch
  pub emitter : Option EmitterPatch
  pub epochs : Option EpochsPatch
  pub blocks : Option BlocksPatch
  pub economy : Option EconomyPatch
  pub upgrades : Option UpgradesPatch

abbrev pub no_rules : NetworkRulesPatch
no_rules = record {
  dag = none;
  emitter = none;
  epochs = none;
  blocks = none;
  economy = none;
  upgrades = none;
}

abbrev pub is_nil {ℓ} : {A : Type ℓ} → Option A → Bool
is_nil none = true
is_nil (some a) = false

-- `patch == NetworkRulesPatch{}`, which is also when its JSON is `{}`.
abbrev pub sets_nothing : NetworkRulesPatch → Bool
sets_nothing p =
    is_nil p.dag
    && (is_nil p.emitter
        && (is_nil p.epochs && (is_nil p.blocks && (is_nil p.economy && is_nil p.upgrades))))

-- DefaultMaxEpochDuration of driver/parser/defaults.go
abbrev pub default_max_epoch_duration : ℕ
default_max_epoch_duration = 15 * 1_000_000_000

-- The epochs with the default in place of a missing duration.
abbrev with_duration : EpochsPatch → EpochsPatch
with_duration e = elim e.max_epoch_duration [
  | none ↦ record e { max_epoch_duration = some default_max_epoch_duration }
  | some d ↦ e
]

abbrev epochs_or_empty : Option EpochsPatch → EpochsPatch
epochs_or_empty none = record { max_epoch_gas = none; max_epoch_duration = none }
epochs_or_empty (some e) = e

-- ensureDefaultEpochDuration of driver/parser/defaults.go
abbrev pub ensure_default_epoch_duration : NetworkRulesPatch → NetworkRulesPatch
ensure_default_epoch_duration p = record p {
  epochs = some (with_duration (epochs_or_empty p.epochs));
}

-- What is not of this repository: the JSON encoder, opera.UpdateRules, and reflect.DeepEqual on
-- opera.Rules.
pub record Opera (Rules : Type 0) : Type 0 where
  pub marshal : NetworkRulesPatch → Option String
  pub update_rules : Rules → String → Option Rules
  pub deep_equal : Rules → Rules → Bool

pub data PatchError : Type 0 where
  unmarshalled : PatchError
  rejected : PatchError

-- ApplyNetworkRulesPatch; the updated rules are the result.
unfoldable pub apply_network_rules_patch :
    {Rules : Type 0} → Opera Rules → Rules → NetworkRulesPatch → Result PatchError Rules
apply_network_rules_patch o rules patch = elim (o.marshal patch) [
  | none ↦ err unmarshalled
  | some body ↦ elim (o.update_rules rules body) [ none ↦ err rejected | some updated ↦ ok updated ]
]
