-- ===== src/Tracker/Samples.antt =====
-- driver/monitoring/transactions/samples.go: a bounded selection of measurements.
pub mod Bounds
use norma.Base.{
  ℕ, zero, suc, ◌+◌, ◌*◌, ◌%◌, List, [], ◌∷◌, ◌++◌, length, ltb, leb, if◌then◌else◌, ◌==◌,
  nat_comparable,
}

abbrev pub max_samples_per_set : ℕ
max_samples_per_set = 10_000

-- A duration positioned at the moment of the submission.
pub record Sample : Type 0 where
  pub at : ℕ
  pub duration : ℕ

pub record SampleSet : Type 0 where
  pub samples : List Sample
  pub seen : ℕ
  pub stride : ℕ

abbrev pub no_samples : SampleSet
no_samples = record { samples = []; seen = 0; stride = 0 }

-- The entries at even indices, `i%2 == 0`.
pub every_second : List Sample → List Sample
every_second [] = []
every_second (x ∷ []) = x ∷ []
every_second (x ∷ y ∷ ys) = x ∷ every_second ys

-- Halves a set that is full.
halve : SampleSet → SampleSet
halve s =
    if ltb (length s.samples) max_samples_per_set
    then s
    else record s { samples = every_second s.samples; stride = s.stride * 2 }

abbrev offered : SampleSet → SampleSet
offered s = record s { seen = s.seen + 1; stride = if s.stride == 0 then 1 else s.stride }

accept : SampleSet → ℕ → ℕ → SampleSet
accept s at duration =
    if s.seen % s.stride == 0
    then halve (record s { samples = s.samples ++ record { at = at; duration = duration } ∷ [] })
    else s

unfoldable pub add : SampleSet → ℕ → ℕ → SampleSet
unfolding accept halve
add s at duration = accept (offered s) at duration
