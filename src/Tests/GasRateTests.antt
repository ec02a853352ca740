-- ===== src/Tests/GasRateTests.antt =====
-- The gas rate check of driver/checking/block_gas_rate.go at concrete series.
use norma.Base.{ℕ, ◌≡◌, ◌↔◌, refl, ap, some, none, keep, last?, ltb, true, [], ◌∷◌, arith}
use norma.Base.Int.{pos}
use norma.Base.Results.{ok, err}
use norma.Series.{DataPoint, SyncedSeries, as_series, get_range, get_latest}
use norma.Series.Search.{search}
use norma.Checking.Timing.{observation_window, to_int64}
use norma.Checking.GasRate.{GasConfig, exceeded, within_ceiling, judge, check_gas_rate}
use norma.Checking.GasRate.Ceiling.{IsWithin, is_newer, check_gas_rate_iff}

abbrev gas_at : ℕ → ℕ → DataPoint ℕ
gas_at block rate = record { position = block; value = rate }

-- The spike of block 4 is before the head at the start.
abbrev at_start : SyncedSeries ℕ
at_start = record { points = gas_at 4 900 ∷ gas_at 5 20 ∷ [] }

abbrev calm : SyncedSeries ℕ
calm = record { points = gas_at 4 900 ∷ gas_at 5 20 ∷ gas_at 6 40 ∷ gas_at 7 100 ∷ [] }

abbrev spiked : SyncedSeries ℕ
spiked = record { points = gas_at 5 20 ∷ gas_at 6 40 ∷ gas_at 7 101 ∷ [] }

abbrev limits : GasConfig ℕ
limits = record { ceiling = 100; tolerance_samples = pos 10; duration = pos 0 }

ten_seconds : observation_window (pos 0) (pos 10) ≡ ok (pos 10_000_000_000)
unfolding observation_window to_int64
ten_seconds = refl

calm_passes : check_gas_rate ltb limits (as_series at_start) true (as_series calm) ≡ ok tt
unfolding check_gas_rate judge within_ceiling observation_window to_int64 get_range get_latest
    search
calm_passes = refl

spike_fails :
    check_gas_rate ltb limits (as_series at_start) true (as_series spiked) ≡ err (exceeded 7)
unfolding check_gas_rate judge within_ceiling observation_window to_int64 get_range get_latest
    search
spike_fails = refl

check_gas_rate_iff_example :
    (check_gas_rate ltb limits (as_series at_start) true (as_series spiked) ≡ ok tt)
    ↔ IsWithin ltb 100 (keep (is_newer ltb (last? at_start.points)) spiked.points)
check_gas_rate_iff_example =
    check_gas_rate_iff ltb limits at_start spiked (pos 10_000_000_000) ten_seconds
      ((omega arith, (omega arith, tt)), ((omega arith, tt), (tt, tt)))
      (λ q e. ground (arith, ap {B = ℕ} (λ o. elim o [ none ↦ 7 | some r ↦ r.position ]) e))
      (λ q e. ground (arith, ap {B = ℕ} (λ o. elim o [ none ↦ 7 | some r ↦ r.position ]) e))

-- The head at the start is not judged, nor is an earlier block.
hot_head_passes :
    check_gas_rate ltb
      (record limits { ceiling = 10 })
      (as_series at_start)
      true
      (as_series (record { points = gas_at 4 900 ∷ gas_at 5 20 ∷ gas_at 6 9 ∷ [] }))
    ≡ ok tt
unfolding check_gas_rate judge within_ceiling observation_window to_int64 get_range get_latest
    search
hot_head_passes = refl
