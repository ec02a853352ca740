-- ===== src/Checking/Blocks.antt =====
-- driver/checking/blocks_halted.go and driver/checking/blocks_rolling.go: no node, or some node,
-- advances its block height while the check observes the network. A check is a function of what it
-- finds after its wait: the start of the observation, how the wait ended, and the series of each
-- monitored node.
pub mod Verdicts
pub mod Observed
use norma.Base.{
  ℕ, zero, suc, ◌+◌, ◌%◌, ◌^◌, Option, none, some, Bool, true, false, List, [], ◌∷◌, String, length,
  last?, ltb, if◌then◌else◌, ◌==◌, nat_comparable,
}
use norma.Base.Int.{ℤ}
use norma.Base.Results.{Result, ok, err, ◌>>=◌, ◌>>◌}
use norma.Series.{DataPoint, Series}
use norma.Checking.Timing.{WindowError, observation_window, min_observation_samples}

-- monitoring.BlockStatus
pub record BlockStatus : Type 0 where
  pub epoch : ℕ
  pub block_height : ℕ

abbrev pub Points : Type 0
Points = List (DataPoint BlockStatus)

-- What `MonitoringData` yields for one node: its name and its series.
abbrev pub Monitored : Type 0
Monitored = String × Series BlockStatus

pub data CheckError : Type 0 where
  bad_window : WindowError → CheckError
  cancelled : CheckError
  still_producing : String → CheckError
  network_down : CheckError

pub record Config : Type 0 where
  pub tolerance_samples : ℤ
  pub duration : ℤ

-- The points since the start of the observation; `none` where the node has no point at all.
unfoldable pub observed : ℕ → Series BlockStatus → Option Points
observed start series = elim series.get_latest [
  | none ↦ none
  | some last ↦ some (series.get_range start ((last.position + 1) % 2 ^ 64))
]

abbrev pub height_of : DataPoint BlockStatus → ℕ
height_of p = p.value.block_height

-- for i := 1; i < len(points); i++ { if points[i] > points[i-1] … }
pub advances : Points → Bool
advances [] = false
advances (p ∷ []) = false
advances (p ∷ q ∷ ps) =
    let rest = advances (q ∷ ps) in if ltb (height_of p) (height_of q) then true else rest

-- Fewer than two samples do not witness a change.
points_still : Points → Bool
points_still points =
    if ltb (length points) min_observation_samples
    then true
    else if advances points
    then false
    else true

halted_node : ℕ → Monitored → Bool
unfolding points_still
halted_node start (name, series) = elim (observed start series) [
  | none ↦ true
  | some points ↦ points_still points
]

pub halted_nodes : ℕ → List Monitored → Result CheckError (Unit {0})
halted_nodes start [] = ok tt
halted_nodes start (node ∷ nodes) =
    let rest = halted_nodes start nodes in
    if halted_node start node then rest else err (still_producing node.0)

abbrev or_bad_window : Result WindowError ℤ → Result CheckError ℤ
or_bad_window (ok w) = ok w
or_bad_window (err e) = err (bad_window e)

-- `sleep` either waits for the window or reports that the context ended.
abbrev waited : Bool → Result CheckError (Unit {0})
waited true = ok tt
waited false = err cancelled

unfoldable pub check_halted : Config → ℕ → Bool → List Monitored → Result CheckError (Unit {0})
unfolding halted_nodes halted_node advances
check_halted c start slept nodes = do
  window ← or_bad_window (observation_window c.duration c.tolerance_samples)
  waited slept
  halted_nodes start nodes

-- items[0] < items[len(items)-1]
abbrev grew : Points → Bool
grew [] = false
grew (p ∷ ps) = elim (last? (p ∷ ps)) [ none ↦ false | some q ↦ ltb (height_of p) (height_of q) ]

rolling_node : ℕ → Monitored → Bool
rolling_node start (name, series) = elim (observed start series) [
  | none ↦ false
  | some points ↦ grew points
]

pub rolling_nodes : ℕ → List Monitored → Result CheckError (Unit {0})
rolling_nodes start [] = err network_down
rolling_nodes start (node ∷ nodes) =
    let rest = rolling_nodes start nodes in if rolling_node start node then ok tt else rest

unfoldable pub check_rolling : Config → ℕ → Bool → List Monitored → Result CheckError (Unit {0})
unfolding rolling_nodes rolling_node
check_rolling c start slept nodes = do
  window ← or_bad_window (observation_window c.duration c.tolerance_samples)
  waited slept
  rolling_nodes start nodes
