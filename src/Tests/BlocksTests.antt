-- ===== src/Tests/BlocksTests.antt =====
-- The block production checks of driver/checking at concrete samples.
use norma.Base.{ℕ, ◌*◌, ◌≡◌, refl, ◌⊎◌, ◌↔◌, List, [], ◌∷◌, All, Some, String, arith, true}
use norma.Base.Int.{pos, ◌≤ℤ◌, ◌<ℤ◌}
use norma.Base.Results.{ok, err}
use norma.Series.{DataPoint, SyncedSeries, as_series, get_range, get_latest}
use norma.Series.Search.{search}
use norma.Checking.Timing.{
  observation_window, observation_window_granted, observation_window_tolerance, second, to_int64,
}
use norma.Checking.Blocks.{
  BlockStatus, Monitored, Config, check_halted, check_rolling, still_producing, observed,
}
use norma.Checking.Blocks.Verdicts.{IsStill, IsGrowing, block_checks_decide}

abbrev sample : ℕ → ℕ → DataPoint BlockStatus
sample time height = record { position = time; value = record { epoch = 1; block_height = height } }

abbrev growing : SyncedSeries BlockStatus
growing = record { points = sample 90 7 ∷ sample 100 7 ∷ sample 101 8 ∷ sample 102 8 ∷ [] }

abbrev stuck : SyncedSeries BlockStatus
stuck = record { points = sample 90 3 ∷ sample 99 7 ∷ sample 100 7 ∷ sample 101 7 ∷ [] }

abbrev nodes : List Monitored
nodes = ("A", as_series stuck) ∷ ("B", as_series growing) ∷ []

abbrev defaults : Config
defaults = record { tolerance_samples = pos 10; duration = pos 0 }

halted_fails : check_halted defaults 100 true nodes ≡ err (still_producing "B")
unfolding check_halted observation_window to_int64 observed get_range get_latest search
halted_fails = refl

rolling_passes : check_rolling defaults 100 true nodes ≡ ok tt
unfolding check_rolling observation_window to_int64 observed get_range get_latest search
rolling_passes = refl

default_window : observation_window (pos 0) (pos 10) ≡ ok (pos 10_000_000_000)
default_window = observation_window_tolerance (pos 0) 10 (omega arith) (omega arith) (omega arith)

block_checks_decide_example :
    ((check_halted defaults 100 true nodes ≡ ok tt) ↔ All (IsStill 100) nodes)
    × ((check_rolling defaults 100 true nodes ≡ ok tt) ↔ Some (IsGrowing 100) nodes)
    × (check_rolling defaults 100 true nodes ≡ ok tt
        → (name : String) × (check_halted defaults 100 true nodes ≡ err (still_producing name)))
block_checks_decide_example =
    block_checks_decide defaults (pos 10_000_000_000) default_window 100 nodes

window_granted :
    (pos (2 * second) ≤ℤ pos 10_000_000_000)
    × ((pos 0 <ℤ pos 0) × (pos 10_000_000_000 ≡ pos 0)
        ⊎ (pos 0 ≤ℤ pos 0) × (pos 0 <ℤ pos 10) × (pos 10_000_000_000 ≡ to_int64 (10 * second)))
window_granted = observation_window_granted (pos 0) (pos 10) (pos 10_000_000_000) default_window
