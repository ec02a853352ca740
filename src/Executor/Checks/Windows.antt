-- ===== src/Executor/Checks/Windows.antt =====
-- That the observation window of a checked scenario is granted when its check runs: the check of
-- driver/parser/check.go, the configuration of driver/executor/run.go, and the checkers' Configure
-- and observationWindow.
use norma.Base.{
  Bool-cases, inl, inr, ◌*◌, ◌≡◌, refl, ◌≤◌, ◌∙◌, ap, true, false, Option, none, some, [], String,
  ◌==◌, string_comparable, arith, append_nil,
}
use norma.Base.Int.{ℤ, pos, negsuc, ◌≤ℤ◌}
use norma.Base.Map.{lookup, lookup-insert, lookup-insert_self}
use norma.Base.Results.{ok}
use norma.Parser.Functions.{CheckFunction}
use norma.Parser.Scenario.{CheckSpec}
use norma.Parser.Check.{Checks, observes, check_window, check_sub_check}
use norma.Checking.Timing.{
  second, observation_window, observation_window_tolerance, observation_window_duration,
  default_tolerance_samples,
}
use norma.Checking.Blocks.{Config}
use norma.Checking.GasRate.{GasConfig}
use norma.Checking.Configuration.{
  Value, a_bool, an_int, an_int64, CheckerConfig, configure, configure_gas_rate, stays_failing,
  or_default, as_int, as_int64, as_gas_rate,
}
use norma.Executor.Checks.{put_value, map_value, value_if, tolerance_key, config_of}

-- A value that is put leaves the other keys as they were.
lookup-put_other :
    (v : Option Value) (key other : String) (c : CheckerConfig)
    → (key == other) ≡ false
    → lookup other (put_value v key c) ≡ lookup other c
unfolding put_value
lookup-put_other none key other c e = refl
lookup-put_other (some v) key other c e = rw (lookup-insert key other v c, e) refl

-- A value that is put is found, and where there is none the key leads where it did.
lookup-put_self :
    (v : Option Value) (key : String) (c : CheckerConfig)
    → lookup key c ≡ none
    → lookup key (put_value v key c) ≡ v
unfolding put_value
lookup-put_self none key c e = e
lookup-put_self (some v) key c e = lookup-insert_self key v c

observes-key : (f : CheckFunction) → observes f ≡ true → tolerance_key f ≡ "tolerance"
observes-key CheckFunction.block_gas_rate h = refl
observes-key CheckFunction.blocks_halted h = refl
observes-key CheckFunction.blocks_produced h = refl
observes-key CheckFunction.block_hashes h = refl
observes-key CheckFunction.block_heights h = absurd cc
observes-key CheckFunction.event_throttled h = refl
observes-key CheckFunction.network_rules h = refl
observes-key CheckFunction.validators_active h = refl

module _ {F : Type 0} (to_int : F → ℤ) (f : CheckFunction) (c : CheckSpec F) where
  lookup-tolerance :
      observes f ≡ true → lookup "tolerance" (config_of to_int f c) ≡ map_value an_int c.tolerance
  unfolding config_of lookup
  lookup-tolerance h =
      rw
        (
          observes-key f h,
          lookup-put_other _ "throttledNodes" "tolerance" _ refl,
          lookup-put_other _ "rules" "tolerance" _ refl,
          lookup-put_other _ "ceiling" "tolerance" _ refl,
          lookup-put_other _ "duration" "tolerance" _ refl,
        )
        (lookup-put_self _ "tolerance" _ (lookup-put_other _ "failing" "tolerance" [] refl))

  lookup-duration :
      observes f ≡ true → lookup "duration" (config_of to_int f c) ≡ map_value an_int64 c.duration
  unfolding config_of lookup
  lookup-duration h =
      rw
        (
          observes-key f h,
          lookup-put_other _ "throttledNodes" "duration" _ refl,
          lookup-put_other _ "rules" "duration" _ refl,
          lookup-put_other _ "ceiling" "duration" _ refl,
        )
        (lookup-put_self _ "duration" _ (
          lookup-put_other _ "tolerance" "duration" _ refl
          ∙ lookup-put_other _ "failing" "duration" [] refl))

  lookup-ceiling :
      observes f ≡ true
      → lookup "ceiling" (config_of to_int f c) ≡ map_value (λ x. an_int (to_int x)) c.ceiling
  unfolding config_of lookup
  lookup-ceiling h =
      rw
        (
          observes-key f h,
          lookup-put_other _ "throttledNodes" "ceiling" _ refl,
          lookup-put_other _ "rules" "ceiling" _ refl,
        )
        (lookup-put_self _ "ceiling" _ (
          lookup-put_other _ "duration" "ceiling" _ refl
          ∙ lookup-put_other _ "tolerance" "ceiling" _ refl
          ∙ lookup-put_other _ "failing" "ceiling" [] refl))

  lookup-failing :
      observes f ≡ true → lookup "failing" (config_of to_int f c) ≡ value_if c.failing (a_bool true)
  unfolding config_of lookup
  lookup-failing h =
      rw
        (
          observes-key f h,
          lookup-put_other _ "throttledNodes" "failing" _ refl,
          lookup-put_other _ "rules" "failing" _ refl,
          lookup-put_other _ "ceiling" "failing" _ refl,
          lookup-put_other _ "duration" "failing" _ refl,
          lookup-put_other _ "tolerance" "failing" _ refl,
        )
        (lookup-put_self _ "failing" [] refl)

  -- NewFailingChecker finds what the check of the scenario says.
  failing-reads : observes f ≡ true → stays_failing (config_of to_int f c) ≡ some c.failing
  unfolding stays_failing or_default
  failing-reads h = elim (Bool-cases c.failing) [
    | inl e ↦ rw (stays_failing, or_default, lookup-failing h, e)
    | inr e ↦ rw (stays_failing, or_default, lookup-failing h, e)
  ]

abbrev or_else : Option ℤ → ℤ → ℤ
or_else none d = d
or_else (some x) d = x

-- What Configure takes for a key.
int-read :
    (d : ℤ) (key : String) (c : CheckerConfig) (o : Option ℤ)
    → lookup key c ≡ map_value an_int o
    → or_default as_int d key c ≡ some (or_else o d)
unfolding or_default
int-read d key c none e = rw (or_default, e) refl
int-read d key c (some x) e = rw (or_default, e) refl

int64-read :
    (d : ℤ) (key : String) (c : CheckerConfig) (o : Option ℤ)
    → lookup key c ≡ map_value an_int64 o
    → or_default as_int64 d key c ≡ some (or_else o d)
unfolding or_default
int64-read d key c none e = rw (or_default, e) refl
int64-read d key c (some x) e = rw (or_default, e) refl

ceiling-read :
    {F G : Type 0} (to_int : F → ℤ) (of_int : ℤ → G) (d : G) (key : String) (c : CheckerConfig)
    (o : Option F)
    → lookup key c ≡ map_value (λ x. an_int (to_int x)) o
    → (g : G) × (or_default (as_gas_rate of_int) d key c ≡ some g)
unfolding or_default
ceiling-read to_int of_int d key c none e = (d, rw (or_default, e) refl)
ceiling-read to_int of_int d key c (some x) e = (of_int (to_int x), rw (or_default, e) refl)

-- The checkers as they are registered: ten samples, and no duration.
abbrev pub registered : Config
registered = record { tolerance_samples = pos default_tolerance_samples; duration = pos 0 }

abbrev IsGranted : ℤ → ℤ → Type 0
IsGranted d t = (w : ℤ) × (observation_window d t ≡ ok w) × (pos (2 * second) ≤ℤ w)

granted :
    (d t : Option ℤ)
    → check_window d t ≡ []
    → ((n : ℤ) → t ≡ some n → n ≤ℤ pos 9_223_372_036)
    → IsGranted (or_else d (pos 0)) (or_else t (pos default_tolerance_samples))
granted (some d) t h small =
    let long : pos (2 * second) ≤ℤ d = ground (arith, h) in
    (d, observation_window_duration d _ long, long)
granted none none h small = (
  pos (10 * second),
  observation_window_tolerance (pos 0) 10 (omega arith) (omega arith) (omega arith),
  omega arith,
)
granted none (some (pos t)) h small =
    let enough : 2 ≤ t = ground (arith, h) in
    (
      pos (t * second),
      observation_window_tolerance (pos 0) t (omega arith) enough
          (omega (arith, small (pos t) refl)),
      ground (arith, enough),
    )
granted none (some (negsuc t)) h small = absurd (ground (arith, h))

window_passes :
    {F : Type 0} (checks : Checks F) (c : CheckSpec F) (f : CheckFunction)
    → c.function ≡ some f
    → observes f ≡ true
    → check_sub_check checks c ≡ []
    → check_window c.duration c.tolerance ≡ []
unfolding check_sub_check
window_passes checks c f e o h = (append_nil _ _ (rw (e, o) at h)).1

-- The gas rate checker as it is registered, with its default ceiling.
abbrev pub registered_gas_rate : {G : Type 0} → G → GasConfig G
registered_gas_rate ceiling = record {
  ceiling = ceiling;
  tolerance_samples = pos default_tolerance_samples;
  duration = pos 0;
}

abbrev gas_window : {G : Type 0} → Option (GasConfig G) → Option (ℤ × ℤ)
gas_window none = none
gas_window (some g) = some (g.tolerance_samples, g.duration)

abbrev rolling_window : Option Config → Option (ℤ × ℤ)
rolling_window none = none
rolling_window (some g) = some (g.tolerance_samples, g.duration)

-- The tolerance and the duration after the Configure of the checker that is registered for a function;
-- none is a panic. The halted checker reads its own like the rolling one.
abbrev pub window_of : {G : Type 0} → (ℤ → G) → G → CheckFunction → CheckerConfig → Option (ℤ × ℤ)
window_of of_int ceiling f c = elim f [
  | CheckFunction.block_gas_rate ↦
      gas_window (configure_gas_rate of_int (registered_gas_rate ceiling) c)
  | _ ↦ rolling_window (configure registered c)
]

module _ {G : Type 0} (of_int : ℤ → G) (ceiling g : G) (c : CheckerConfig) (t d : ℤ)
    (tolerance : or_default as_int (pos default_tolerance_samples) "tolerance" c ≡ some t)
    (duration : or_default as_int64 (pos 0) "duration" c ≡ some d)
    (top : or_default (as_gas_rate of_int) ceiling "ceiling" c ≡ some g) where
  gas_rate-configured :
      configure_gas_rate of_int (registered_gas_rate ceiling) c
      ≡ some (record { ceiling = g; tolerance_samples = t; duration = d })
  unfolding configure_gas_rate
  gas_rate-configured = rw (configure_gas_rate, top, tolerance, duration) refl

  rolling-configured :
      configure registered c ≡ some (record { tolerance_samples = t; duration = d })
  unfolding configure
  rolling-configured = rw (configure, tolerance, duration) refl

  read_window : (f : CheckFunction) → window_of of_int ceiling f c ≡ some (t, d)
  read_window CheckFunction.block_gas_rate = ap gas_window gas_rate-configured
  read_window CheckFunction.block_hashes = ap rolling_window rolling-configured
  read_window CheckFunction.block_heights = ap rolling_window rolling-configured
  read_window CheckFunction.blocks_halted = ap rolling_window rolling-configured
  read_window CheckFunction.blocks_produced = ap rolling_window rolling-configured
  read_window CheckFunction.event_throttled = ap rolling_window rolling-configured
  read_window CheckFunction.network_rules = ap rolling_window rolling-configured
  read_window CheckFunction.validators_active = ap rolling_window rolling-configured

window-reads :
    {F G : Type 0} (to_int : F → ℤ) (of_int : ℤ → G) (ceiling : G) (f : CheckFunction)
    (c : CheckSpec F)
    → observes f ≡ true
    → window_of of_int ceiling f (config_of to_int f c)
      ≡ some (or_else c.tolerance (pos default_tolerance_samples), or_else c.duration (pos 0))
window-reads to_int of_int ceiling f c o =
    let cfg = config_of to_int f c in
    let (g, e'') =
      ceiling-read to_int of_int ceiling "ceiling" cfg c.ceiling (lookup-ceiling to_int f c o) in
    read_window of_int ceiling g cfg _ _
      (int-read _ "tolerance" cfg c.tolerance (lookup-tolerance to_int f c o))
      (int64-read _ "duration" cfg c.duration (lookup-duration to_int f c o)) e'' f

-- A check that observes the network and passed the check of its scenario gets its window: its
-- configuration is read by the checker that is registered for it and by NewFailingChecker without a
-- panic, which finds whether it is expected to fail; and the observation that follows lasts at least
-- two samples, if a tolerance that is given is at most 9223372036 samples.
pub checked_window_granted :
    {F G : Type 0} (checks : Checks F) (to_int : F → ℤ) (of_int : ℤ → G) (ceiling : G)
    (c : CheckSpec F) (f : CheckFunction)
    → c.function ≡ some f
    → observes f ≡ true
    → check_sub_check checks c ≡ []
    → ((n : ℤ) → c.tolerance ≡ some n → n ≤ℤ pos 9_223_372_036)
    → (tolerance duration window : ℤ) × (window_of of_int ceiling f (config_of to_int f c)
        ≡ some (tolerance, duration))
      × (stays_failing (config_of to_int f c) ≡ some c.failing)
      × (observation_window duration tolerance ≡ ok window)
      × (pos (2 * second) ≤ℤ window)
checked_window_granted checks to_int of_int ceiling c f e o h small =
    let (w, g, long) = granted c.duration c.tolerance (window_passes checks c f e o h) small in
    (_, _, w, window-reads to_int of_int ceiling f c o, failing-reads to_int f c o, g, long)
