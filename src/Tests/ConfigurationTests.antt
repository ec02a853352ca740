-- ===== src/Tests/ConfigurationTests.antt =====
-- The configuration of checks at concrete values.
use norma.Base.{◌≡◌, refl, Bool, true, some, [], ◌∷◌, arith, string_comparable}
use norma.Base.Int.{ℤ, pos, negsuc, ◌≤ℤ◌}
use norma.Base.Map.{lookup}
use norma.Checking.Blocks.{Config}
use norma.Checking.GasRate.{GasConfig}
use norma.Checking.Configuration.{
  a_bool, an_int, an_int64, CheckerConfig, key_error, check_config, configure, stays_failing,
  configure_gas_rate,
}
use norma.Checking.Configuration.Typed.{IsConfigured, configure-passes}

abbrev settings : CheckerConfig
settings =
    ("failing", a_bool true) ∷ ("tolerance", an_int (pos 4)) ∷ ("ceiling", an_int (pos 9)) ∷ []

abbrev preset : Config
preset = record { tolerance_samples = pos 10; duration = pos 0 }

settings_pass : check_config settings ≡ []
unfolding check_config key_error lookup
settings_pass = refl

wrong_duration : check_config (("duration", an_int64 (negsuc 4)) ∷ []) ≡ "duration" ∷ []
unfolding check_config key_error lookup
wrong_duration = refl

abbrev gas_preset : GasConfig ℤ
gas_preset = record { ceiling = pos 5; tolerance_samples = pos 10; duration = pos 0 }

configure-passes_example :
    ((result : Config) × (configure preset settings ≡ some result)
      × (pos 0 ≤ℤ result.tolerance_samples)
      × (pos 0 ≤ℤ result.duration))
    × ((result : GasConfig ℤ) × (configure_gas_rate (λ i. i) gas_preset settings ≡ some result)
        × IsConfigured (λ i. i) gas_preset result)
    × ((b : Bool) × (stays_failing settings ≡ some b))
configure-passes_example =
    configure-passes (λ i. i) preset gas_preset settings settings_pass (omega arith) (omega arith)
      (omega arith) (omega arith)
