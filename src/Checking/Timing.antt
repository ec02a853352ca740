-- ===== src/Checking/Timing.antt =====
-- driver/checking/timing.go, with the sampling constants of driver/checking/blocks_rolling.go. A
-- `time.Duration` is a signed 64-bit number of nanoseconds.
use norma.Base.{ℕ, ◌-◌, ◌*◌, ◌%◌, ◌^◌, ◌≤◌, ◌<◌, ◌≡◌, ltb, arith, if◌then◌else◌, ◌⊎◌}
use norma.Base.Int.{ℤ, pos, negsuc, ltb_ℤ, ◌≤ℤ◌, ◌<ℤ◌, pos_part}
use norma.Base.Results.{Result, ok, err}

abbrev pub second : ℕ
second = 1_000_000_000

abbrev pub block_sample_interval : ℕ
block_sample_interval = second

abbrev pub default_tolerance_samples : ℕ
default_tolerance_samples = 10

abbrev pub min_observation_samples : ℕ
min_observation_samples = 2

-- The conversion of a non-negative number to a signed 64-bit word.
unfoldable pub to_int64 : ℕ → ℤ
to_int64 n = let low = n % 2 ^ 64 in if ltb low (2 ^ 63) then pos low else negsuc (2 ^ 64 - low - 1)

pub data WindowError : Type 0 where
  tolerance_not_positive : ℤ → WindowError
  window_too_short : ℤ → WindowError

-- `window < minimum`
long_enough : ℤ → Result WindowError ℤ
long_enough window =
    if ltb_ℤ window (pos (min_observation_samples * block_sample_interval))
    then err (window_too_short window)
    else ok window

-- A positive tolerance is its own positive part.
unfoldable pub observation_window : ℤ → ℤ → Result WindowError ℤ
unfolding long_enough
observation_window duration tolerance =
    if ltb_ℤ (pos 0) duration
    then long_enough duration
    else if ltb_ℤ (pos 0) tolerance
    then long_enough (to_int64 (pos_part tolerance * block_sample_interval))
    else err (tolerance_not_positive tolerance)

long_enough_granted : (w v : ℤ) → long_enough w ≡ ok v → (v ≡ w) × (pos (2 * second) ≤ℤ v)
unfolding long_enough
long_enough_granted w v h = ground arith

to_int64_small : (n : ℕ) → n < 2 ^ 63 → to_int64 n ≡ pos n
unfolding to_int64
to_int64_small n h = ground arith

-- A window that is granted holds at least two samples; it is the explicit duration where one is
-- given, and the tolerance in samples where none is.
pub observation_window_granted :
    (duration tolerance window : ℤ)
    → observation_window duration tolerance ≡ ok window
    → (pos (2 * second) ≤ℤ window)
      × ((pos 0 <ℤ duration) × (window ≡ duration)
          ⊎ (duration ≤ℤ pos 0)
            × (pos 0 <ℤ tolerance)
            × (window ≡ to_int64 (pos_part tolerance * second)))
unfolding observation_window
observation_window_granted duration tolerance window h = ground (
  arith,
  long_enough_granted duration window,
  long_enough_granted (to_int64 (pos_part tolerance * second)) window,
)

-- Every tolerance from two samples to 292 years is granted, and is not cut by the word size.
pub observation_window_tolerance :
    (duration : ℤ) (samples : ℕ)
    → duration ≤ℤ pos 0
    → 2 ≤ samples
    → samples ≤ 9_223_372_036
    → observation_window duration (pos samples) ≡ ok (pos (samples * second))
unfolding observation_window long_enough
observation_window_tolerance duration samples none_given low high =
    ground (arith, to_int64_small (samples * second))

-- A duration of two samples or more is granted as it is.
pub observation_window_duration :
    (duration tolerance : ℤ)
    → pos (2 * second) ≤ℤ duration
    → observation_window duration tolerance ≡ ok duration
unfolding observation_window long_enough
observation_window_duration duration tolerance h = ground arith
