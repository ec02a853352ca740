-- ===== src/Tests/SeriesTests.antt =====
-- The series of driver/monitoring at concrete points.
use norma.Base.{ℕ, ◌≡◌, refl, none, some, [], ◌∷◌, arith, ◌⊎◌, ◌≤◌, last?, ◌++◌}
use norma.Series.{DataPoint, SyncedSeries, get_range, append, out_of_order_append}
use norma.Series.Search.{search}
use norma.Series.Order.{IsSorted, EndsBelow, append-IsSorted}
use norma.Series.Range.{in_range, get_range-in_range}

abbrev point : ℕ → ℕ → DataPoint ℕ
point k v = record { position = k; value = v }

abbrev four_points : SyncedSeries ℕ
four_points = record { points = point 2 20 ∷ point 3 30 ∷ point 5 50 ∷ point 9 90 ∷ [] }

abbrev four_points_sorted : IsSorted four_points.points
four_points_sorted = omega arith

get_range_middle : get_range four_points 3 9 ≡ point 3 30 ∷ point 5 50 ∷ []
unfolding get_range search
get_range_middle = refl

get_range_inverted : get_range four_points 9 3 ≡ []
unfolding get_range search
get_range_inverted = refl

append_equal : (append four_points 9 1).1 ≡ some out_of_order_append
unfolding append
append_equal = refl

get_range-in_range_example : get_range four_points 3 9 ≡ in_range 3 9 four_points.points
get_range-in_range_example = get_range-in_range four_points 3 9 four_points_sorted

append_in_order :
    IsSorted (append four_points 10 1).0.points
    × ((EndsBelow 10 four_points
          × (append four_points 10 1
              ≡ (record four_points { points = four_points.points ++ point 10 1 ∷ [] }, none)))
        ⊎ ((q : DataPoint ℕ) × (last? four_points.points ≡ some q)
            × (10 ≤ q.position)
            × (append four_points 10 1 ≡ (four_points, some out_of_order_append))))
append_in_order = append-IsSorted four_points 10 1 four_points_sorted
