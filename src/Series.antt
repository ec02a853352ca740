-- ===== src/Series.antt =====
-- driver/monitoring/series.go and driver/monitoring/synced_series.go: a series of points in the
-- order of their positions. Positions are numbers (block heights, times in nanoseconds); the mutex
-- makes each operation one step, so an operation is a function on the state.
pub mod Search
pub mod Range
pub mod Order
use norma.Base.{
  ℕ, ◌-◌, Bool, true, Option, none, some, List, [], ◌∷◌, ◌++◌, length, get_elem?, take, drop, last?,
  ltb, leb, ◌==◌, if◌then◌else◌, nat_comparable,
}
use Search.{search}

pub record DataPoint {ℓ} (T : Type ℓ) : Type ℓ where
  pub position : ℕ
  pub value : T

-- What a client of `Series` sees: a snapshot of a half-open range, and the latest point.
pub record Series {ℓ} (T : Type ℓ) : Type ℓ where
  pub get_range : ℕ → ℕ → List (DataPoint T)
  pub get_latest : Option (DataPoint T)

pub record SyncedSeries {ℓ} (T : Type ℓ) : Type ℓ where
  pub points : List (DataPoint T)

pub data AppendError : Type 0 where
  out_of_order_append : AppendError

module _ {ℓ} {T : Type ℓ} where
  abbrev pub empty : SyncedSeries T
  empty = record { points = [] }

  -- `k <= s.data[i].Position`; an index past the end is never asked for.
  abbrev pub reached : ℕ → List (DataPoint T) → ℕ → Bool
  reached k points i = elim (get_elem? points i) [ none ↦ true | some p ↦ leb k p.position ]

  unfoldable pub get_range : SyncedSeries T → ℕ → ℕ → List (DataPoint T)
  get_range s from to =
      let start = search (length s.points) (reached from s.points) in
      let end = search (length s.points) (reached to s.points) in
      if ltb to from
      then []
      else if start == end
      then []
      else take (end - start) (drop start s.points)

  unfoldable pub get_latest : SyncedSeries T → Option (DataPoint T)
  get_latest s = last? s.points

  -- The new state, and the error if there was one.
  unfoldable pub append : SyncedSeries T → ℕ → T → SyncedSeries T × Option AppendError
  append s point value = elim (last? s.points) [
    | none ↦
        (record s { points = s.points ++ record { position = point; value = value } ∷ [] }, none)
    | some p ↦ if leb point p.position then (s, some out_of_order_append) else (
      record s { points = s.points ++ record { position = point; value = value } ∷ [] },
      none,
    )
  ]

  abbrev pub as_series : SyncedSeries T → Series T
  as_series s = record { get_range = get_range s; get_latest = get_latest s }
