-- ===== src/Checking/Configuration/Typed.antt =====
-- A configuration that passes its check configures a checker without a panic.
use norma.Base.{
  ◌≡◌, refl, Bool, true, false, Option, some, inl, inr, [], String, string_comparable, arith, ◌⊎◌,
  Option-cases, append_nil,
}
use norma.Base.Int.{ℤ, pos, ◌≤ℤ◌}
use norma.Base.Map.{lookup}
use norma.Checking.Blocks.{Config}
use norma.Checking.GasRate.{GasConfig}
use norma.Checking.Configuration.{
  Value, a_bool, an_int, an_int64, a_map, a_rules_patch, another, CheckerConfig, is_bool,
  is_positive_int, is_non_negative_int64, key_error, check_config, as_int, as_int64, as_bool,
  or_default, configure, stays_failing, as_gas_rate, configure_gas_rate,
}

accepted :
    (key : String) (test : Value → Bool) (c : CheckerConfig) (v : Value)
    → key_error key test c ≡ []
    → lookup key c ≡ some v
    → test v ≡ true
unfolding key_error
accepted key test c v h e = ground arith

bool_value : (v : Value) → is_bool v ≡ true → (b : Bool) × (as_bool v ≡ some b)
bool_value (a_bool b) h = (b, refl)
bool_value (an_int i) h = absurd (cc)
bool_value (an_int64 i) h = absurd (cc)
bool_value a_map h = absurd (cc)
bool_value a_rules_patch h = absurd (cc)
bool_value another h = absurd (cc)

int_value : (v : Value) → is_positive_int v ≡ true → (i : ℤ) × (as_int v ≡ some i) × (pos 0 ≤ℤ i)
int_value (a_bool b) h = absurd (cc)
int_value (an_int i) h = (i, refl, ground arith)
int_value (an_int64 i) h = absurd (cc)
int_value a_map h = absurd (cc)
int_value a_rules_patch h = absurd (cc)
int_value another h = absurd (cc)

int64_value :
    (v : Value) → is_non_negative_int64 v ≡ true → (i : ℤ) × (as_int64 v ≡ some i) × (pos 0 ≤ℤ i)
int64_value (a_bool b) h = absurd (cc)
int64_value (an_int i) h = absurd (cc)
int64_value (an_int64 i) h = (i, refl, ground arith)
int64_value a_map h = absurd (cc)
int64_value a_rules_patch h = absurd (cc)
int64_value another h = absurd (cc)

read_default :
    {A : Type 0} (P : A → Type 0) (read : Value → Option A) (default : A) (key : String)
    (test : Value → Bool) (c : CheckerConfig)
    → ((v : Value) → test v ≡ true → (a : A) × (read v ≡ some a) × P a)
    → P default
    → key_error key test c ≡ []
    → (a : A) × (or_default read default key c ≡ some a) × P a
unfolding or_default
read_default P read default key test c good held none_wrong = elim (Option-cases (lookup key c)) [
  | inl e ↦ (default, rw (or_default, e), held)
  | inr (v, e) ↦
      let (a, f, p) = good v (accepted key test c v none_wrong e) in (a, rw (or_default, e) f, p)
]

rate_value :
    {F : Type 0} (of_int : ℤ → F) (default : F) (v : Value)
    → is_positive_int v ≡ true
    → (x : F) × (as_gas_rate of_int v ≡ some x)
      × ((x ≡ default) ⊎ ((i : ℤ) × (pos 0 ≤ℤ i) × (x ≡ of_int i)))
rate_value of_int default (a_bool b) h = absurd cc
rate_value of_int default (an_int i) h = (of_int i, refl, inr (i, ground arith, refl))
rate_value of_int default (an_int64 i) h = absurd cc
rate_value of_int default a_map h = absurd cc
rate_value of_int default a_rules_patch h = absurd cc
rate_value of_int default another h = absurd cc

-- No key has a wrong value.
right_values :
    (c : CheckerConfig)
    → check_config c ≡ []
    → (key_error "failing" is_bool c ≡ [])
      × (key_error "tolerance" is_positive_int c ≡ [])
      × (key_error "duration" is_non_negative_int64 c ≡ [])
      × (key_error "ceiling" is_positive_int c ≡ [])
unfolding check_config
right_values c h =
    let (failing, h1) = append_nil (key_error "failing" is_bool c) _ h in
    let (tolerance, h2) = append_nil (key_error "tolerance" is_positive_int c) _ h1 in
    let (duration, h3) = append_nil (key_error "duration" is_non_negative_int64 c) _ h2 in
    let (ceiling, h4) = append_nil (key_error "ceiling" is_positive_int c) _ h3 in
    (failing, tolerance, duration, ceiling)

tolerance_read :
    (c : CheckerConfig) (default : ℤ)
    → check_config c ≡ []
    → pos 0 ≤ℤ default
    → (i : ℤ) × (or_default as_int default "tolerance" c ≡ some i) × (pos 0 ≤ℤ i)
tolerance_read c default h held =
    read_default (λ z. pos 0 ≤ℤ z) as_int default "tolerance" is_positive_int c int_value held
      (right_values c h).1

duration_read :
    (c : CheckerConfig) (default : ℤ)
    → check_config c ≡ []
    → pos 0 ≤ℤ default
    → (i : ℤ) × (or_default as_int64 default "duration" c ≡ some i) × (pos 0 ≤ℤ i)
duration_read c default h held =
    read_default (λ z. pos 0 ≤ℤ z) as_int64 default "duration" is_non_negative_int64 c int64_value
      held (right_values c h).2

-- The settings of a gas rate check after a configuration: the ceiling is the one it had or a number
-- that is not negative.
abbrev pub IsConfigured : {F : Type 0} → (ℤ → F) → GasConfig F → GasConfig F → Type 0
IsConfigured of_int gas result =
    ((result.ceiling ≡ gas.ceiling) ⊎ ((i : ℤ) × (pos 0 ≤ℤ i) × (result.ceiling ≡ of_int i)))
    × (pos 0 ≤ℤ result.tolerance_samples)
    × (pos 0 ≤ℤ result.duration)

gas_rate_passes :
    {F : Type 0} (of_int : ℤ → F) (gas : GasConfig F) (c : CheckerConfig)
    → check_config c ≡ []
    → pos 0 ≤ℤ gas.tolerance_samples
    → pos 0 ≤ℤ gas.duration
    → (result : GasConfig F) × (configure_gas_rate of_int gas c ≡ some result)
      × IsConfigured of_int gas result
unfolding configure_gas_rate
gas_rate_passes of_int gas c h t d =
    let (i, e, p) = tolerance_read c gas.tolerance_samples h t in
    let (j, f, q) = duration_read c gas.duration h d in
    let (x, g, r) =
      read_default (λ x. (x ≡ gas.ceiling) ⊎ ((i : ℤ) × (pos 0 ≤ℤ i) × (x ≡ of_int i)))
        (as_gas_rate of_int) gas.ceiling "ceiling" is_positive_int c (rate_value of_int gas.ceiling)
        (inl refl) (right_values c h).3 in
    (
      record { ceiling = x; tolerance_samples = i; duration = j },
      rw (configure_gas_rate, g, e, f) refl,
      (r, p, q),
    )

-- A configuration that passes its check configures a block production check and a gas rate check,
-- and decides whether a failure is expected, without a panic; tolerances and durations that are not
-- negative stay so, and the ceiling is the one that was or a number that is not negative.
pub configure-passes :
    {F : Type 0} (of_int : ℤ → F) (checker : Config) (gas : GasConfig F) (c : CheckerConfig)
    → check_config c ≡ []
    → pos 0 ≤ℤ checker.tolerance_samples
    → pos 0 ≤ℤ checker.duration
    → pos 0 ≤ℤ gas.tolerance_samples
    → pos 0 ≤ℤ gas.duration
    → ((result : Config) × (configure checker c ≡ some result)
        × (pos 0 ≤ℤ result.tolerance_samples)
        × (pos 0 ≤ℤ result.duration))
      × ((result : GasConfig F) × (configure_gas_rate of_int gas c ≡ some result)
          × IsConfigured of_int gas result)
      × ((b : Bool) × (stays_failing c ≡ some b))
unfolding configure stays_failing
configure-passes of_int checker gas c h t d t' d' =
    let (i, e, p) = tolerance_read c checker.tolerance_samples h t in
    let (j, f, q) = duration_read c checker.duration h d in
    let (b, g, u) =
      read_default (λ z. Unit {0}) as_bool false "failing" is_bool c
        (λ v ok. let (b, g) = bool_value v ok in (b, g, tt)) tt (right_values c h).0 in
    (
      (record { tolerance_samples = i; duration = j }, rw (configure, e, f), p, q),
      gas_rate_passes of_int gas c h t' d',
      (b, g),
    )
