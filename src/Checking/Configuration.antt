-- ===== src/Checking/Configuration.antt =====
-- The configuration of checks: CheckerConfig and failingChecker of driver/checking/checker.go, and
-- the Configure of driver/checking/blocks_rolling.go and of driver/checking/block_gas_rate.go. A type assertion that fails is a panic, `none`.
pub mod Typed
use norma.Base.{
  ℕ, Bool, true, false, not, Option, none, some, List, [], ◌∷◌, ◌++◌, String, if◌then◌else◌,
  string_comparable,
}
use norma.Base.Int.{ℤ, pos, ltb_ℤ}
use norma.Base.Map.{Map, lookup}
use norma.Checking.Blocks.{Config}
use norma.Checking.GasRate.{GasConfig}

-- What a configuration holds under a key.
pub data Value : Type 0 where
  a_bool : Bool → Value
  an_int : ℤ → Value
  an_int64 : ℤ → Value
  a_map : Value
  a_rules_patch : Value
  another : Value

abbrev pub CheckerConfig : Type 0
CheckerConfig = Map String Value

abbrev pub is_bool : Value → Bool
is_bool v = elim v [ a_bool b ↦ true | _ ↦ false ]

abbrev pub is_positive_int : Value → Bool
is_positive_int v = elim v [ an_int i ↦ not (ltb_ℤ i (pos 0)) | _ ↦ false ]

abbrev pub is_non_negative_int64 : Value → Bool
is_non_negative_int64 v = elim v [ an_int64 i ↦ not (ltb_ℤ i (pos 0)) | _ ↦ false ]

abbrev pub is_rules_patch : Value → Bool
is_rules_patch v = elim v [ a_map ↦ true | a_rules_patch ↦ true | _ ↦ false ]

-- The error of one key, if there is one.
unfoldable pub key_error : String → (Value → Bool) → CheckerConfig → List String
key_error key test c = elim (lookup key c) [ none ↦ [] | some v ↦ if test v then [] else key ∷ [] ]

-- CheckerConfig.Check: the keys with a wrong value. The order of Go's map is not fixed.
unfoldable pub check_config : CheckerConfig → List String
check_config c =
    key_error "failing" is_bool c
    ++ (key_error "tolerance" is_positive_int c
        ++ (key_error "duration" is_non_negative_int64 c
            ++ (key_error "ceiling" is_positive_int c
                ++ (key_error "slack" is_positive_int c ++ key_error "rules" is_rules_patch c))))

abbrev pub as_int : Value → Option ℤ
as_int v = elim v [ an_int i ↦ some i | _ ↦ none ]

abbrev pub as_int64 : Value → Option ℤ
as_int64 v = elim v [ an_int64 i ↦ some i | _ ↦ none ]

abbrev pub as_bool : Value → Option Bool
as_bool v = elim v [ a_bool b ↦ some b | _ ↦ none ]

-- The value under a key, or the one that the checker has.
unfoldable pub or_default {ℓ} :
    {A : Type ℓ} → (Value → Option A) → A → String → CheckerConfig → Option A
or_default read default key c = elim (lookup key c) [ none ↦ some default | some v ↦ read v ]

-- blocksRollingChecker.Configure
unfoldable pub configure : Config → CheckerConfig → Option Config
configure checker c = elim (or_default as_int checker.tolerance_samples "tolerance" c) [
  | none ↦ none
  | some tolerance ↦ elim (or_default as_int64 checker.duration "duration" c) [
    | none ↦ none
    | some duration ↦ some (record { tolerance_samples = tolerance; duration = duration })
  ]
]

-- The ceiling, an int that becomes a float64.
abbrev pub as_gas_rate : {F : Type 0} → (ℤ → F) → Value → Option F
as_gas_rate of_int v = elim v [ an_int i ↦ some (of_int i) | _ ↦ none ]

-- blockGasRateChecker.Configure
unfoldable pub configure_gas_rate :
    {F : Type 0} → (ℤ → F) → GasConfig F → CheckerConfig → Option (GasConfig F)
configure_gas_rate of_int checker c =
    elim (or_default (as_gas_rate of_int) checker.ceiling "ceiling" c) [
      | none ↦ none
      | some ceiling ↦ elim (or_default as_int checker.tolerance_samples "tolerance" c) [
        | none ↦ none
        | some tolerance ↦ elim (or_default as_int64 checker.duration "duration" c) [
          | none ↦ none
          | some duration ↦
              some
                (record { ceiling = ceiling; tolerance_samples = tolerance; duration = duration })
        ]
      ]
    ]

-- Whether failingChecker.Configure keeps the wrapper.
unfoldable pub stays_failing : CheckerConfig → Option Bool
stays_failing c = or_default as_bool false "failing" c

-- failingChecker.Check: an error is expected.
unfoldable pub failing_check : Option String → Option String
failing_check none = some "failure expected"
failing_check (some e) = none
