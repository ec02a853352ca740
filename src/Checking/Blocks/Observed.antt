-- ===== src/Checking/Blocks/Observed.antt =====
-- What the block production checks observe of a series that a monitor filled.
use norma.Base.{ℕ, ◌+◌, ◌%◌, ◌^◌, ◌-◌, ◌<◌, ◌≡◌, ap, some, keep, last?, leb, arith}
use norma.Series.{DataPoint, SyncedSeries, as_series, get_latest}
use norma.Series.Order.{IsSorted}
use norma.Series.Range.{get_range-in_range, last-highest, in_range-below}
use norma.Checking.Blocks.{BlockStatus, observed}

-- Of a sorted series with a last point `q` whose position is below the greatest 64-bit word, a check
-- observes all the points from the start of its window on, the last one included.
observed-since :
    (start : ℕ) (s : SyncedSeries BlockStatus) (q : DataPoint BlockStatus)
    → IsSorted s.points
    → last? s.points ≡ some q
    → q.position < 2 ^ 64 - 1
    → observed start (as_series s) ≡ some (keep (λ p. leb start p.position) s.points)
unfolding observed get_latest
observed-since start s q sorted e small =
    let word : (q.position + 1) % 2 ^ 64 ≡ q.position + 1 = omega arith in
    rw (e, word, get_range-in_range s start (q.position + 1) sorted)
      (ap some (in_range-below start q.position s.points (last-highest s.points q sorted e)))
