-- ===== src/Checking/GasRate.antt =====
-- driver/checking/block_gas_rate.go: the blocks that are produced while the check observes the network
-- stay at or below a ceiling. A gas rate is a float64, a value of a type `F` with the comparison `<`.
pub mod Ceiling
use norma.Base.{
  ℕ, ◌+◌, ◌%◌, ◌^◌, Bool, true, false, Option, none, some, List, [], ◌∷◌, ltb, if◌then◌else◌,
}
use norma.Base.Int.{ℤ}
use norma.Base.Results.{Result, ok, err, ◌>>=◌}
use norma.Series.{DataPoint, Series}
use norma.Checking.Timing.{WindowError, observation_window}

pub record GasConfig (F : Type 0) : Type 0 where
  pub ceiling : F
  pub tolerance_samples : ℤ
  pub duration : ℤ

pub data GasError : Type 0 where
  bad_window : WindowError → GasError
  interrupted : GasError
  exceeded : ℕ → GasError

abbrev or_bad_window : Result WindowError ℤ → Result GasError ℤ
or_bad_window (ok w) = ok w
or_bad_window (err e) = err (bad_window e)

abbrev after_sleep : Bool → Result GasError (Unit {0})
after_sleep slept = if slept then ok tt else err interrupted

-- The block after the head; positions are 64-bit words.
abbrev pub first_block : {F : Type 0} → Series F → ℕ
first_block series = elim series.get_latest [ none ↦ 0 | some head ↦ (head.position + 1) % 2 ^ 64 ]

module _ {F : Type 0} (less : F → F → Bool) where
  unfoldable pub within_ceiling : F → List (DataPoint F) → Result GasError (Unit {0})
  within_ceiling ceiling [] = ok tt
  within_ceiling ceiling (p ∷ ps) =
      let rest = within_ceiling ceiling ps in
      if less ceiling p.value then err (exceeded p.position) else rest

  -- What is said of the blocks from the first one on; without a new block there is nothing to check.
  unfoldable pub judge : F → ℕ → Series F → Result GasError (Unit {0})
  judge ceiling first series = elim series.get_latest [
    | none ↦ ok tt
    | some head ↦
        if ltb head.position first
        then ok tt
        else within_ceiling ceiling (series.get_range first ((head.position + 1) % 2 ^ 64))
  ]

  -- Check, on the series before and after its wait, which may be interrupted.
  unfoldable pub check_gas_rate :
      GasConfig F → Series F → Bool → Series F → Result GasError (Unit {0})
  check_gas_rate c before slept after = do
    window ← or_bad_window (observation_window c.duration c.tolerance_samples)
    _ ← after_sleep slept
    judge c.ceiling (first_block before) after
