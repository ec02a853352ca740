-- ===== src/Checking/Throttling.antt =====
-- driver/checking/event_throttled.go: every validator that is listed as throttled emits at most half
-- as many events as each of the others. Rates are a type `F` with the operations on float64 that the
-- check uses.
pub mod Best
pub mod Verdict
pub mod Attempts
pub mod Passed
use norma.Base.{
  ℕ, zero, suc, ◌-◌, Bool, true, false, Option, none, some, List, [], ◌∷◌, String, contains, leb,
  ltb, nat_comparable, string_comparable, ◌==◌, not, if◌then◌else◌,
}
use norma.Base.Int.{ℤ, pos, ◌-ℤ◌}
use norma.Base.Map.{Map, lookup, insert}
use norma.Base.Results.{Result, ok, err, ◌>>=◌}
use norma.Checking.Snapshots.{
  ThrottleError, no_throttled_nodes, no_active_nodes, unknown_label, unreachable, interrupted,
  epoch_changed, not_apart, unstable, unsampled, none_listed, none_unlisted, none_emitted,
  not_throttled, DagClient, DagSnapshot, count_of, snapshot_epoch_counts,
}

-- float64: comparison, the test for zero, `low / high >= minGapRatio`, and the events of an interval
-- of nanoseconds by its seconds.
pub record RateArithmetic (F : Type 0) : Type 0 where
  pub less : F → F → Bool
  pub is_zero : F → Bool
  pub ratio_reached : F → F → Bool
  pub per_second : ℤ → ℕ → F

module _ {F : Type 0} (arithmetic : RateArithmetic F) where
  open arithmetic use {less, is_zero, ratio_reached, per_second}

  abbrev pub rate_between : ℕ → Map ℕ ℕ → ℕ × ℕ → ℕ × F
  rate_between elapsed first (id, n) = (id, per_second (pos n -ℤ pos (count_of id first)) elapsed)

  unfoldable pub rates_between : ℕ → Map ℕ ℕ → Map ℕ ℕ → Map ℕ F
  rates_between elapsed first [] = []
  rates_between elapsed first (entry ∷ second) =
      rate_between elapsed first entry ∷ rates_between elapsed first second

  -- sampleEmissionRates, from the second snapshot on.
  unfoldable pub rates_of : DagSnapshot → DagSnapshot → Result ThrottleError (Map ℕ F)
  rates_of first second =
      if not (first.epoch == second.epoch)
      then err (epoch_changed first.epoch second.epoch)
      else if leb second.taken_at first.taken_at
      then err (not_apart (pos second.taken_at -ℤ pos first.taken_at))
      else ok (rates_between (second.taken_at - first.taken_at) first.counts second.counts)

  -- sampleEmissionRates, with the clients of the two snapshots and whether the wait was not cancelled.
  unfoldable pub sample_emission_rates :
      ℕ → DagClient → Bool → DagClient → Option (Result ThrottleError (Map ℕ F))
  sample_emission_rates fuel client slept client' = elim (snapshot_epoch_counts client fuel) [
    | none ↦ none
    | some (err e) ↦ some (err e)
    | some (ok first) ↦
        if not slept then some (err interrupted) else elim (snapshot_epoch_counts client' fuel) [
          | none ↦ none
          | some (err e) ↦ some (err e)
          | some (ok second) ↦ some (rates_of first second)
        ]
  ]

  -- `if !have || r > max { max = r }`, and the other way round for the slowest; `yields m r` says that
  -- `m` gives its place to `r`.
  abbrev pub better : (F → F → Bool) → Option F → F → Option F
  better yields none r = some r
  better yields (some m) r = if yields m r then some r else some m

  -- The loop of verifyThrottled: the fastest listed and the slowest unlisted rate.
  unfoldable pub extremes : List ℕ → Map ℕ F → Option F × Option F → Option F × Option F
  extremes expected [] found = found
  extremes expected ((id, r) ∷ rates) (listed, unlisted) = extremes expected rates (
      if contains expected id
      then (better less listed r, unlisted)
      else (listed, better (λ a b. less b a) unlisted r))

  unfoldable pub judge_extremes : Option F × Option F → Result ThrottleError (Unit {0})
  judge_extremes (none, unlisted) = err none_listed
  judge_extremes (some m, none) = err none_unlisted
  judge_extremes (some m, some u) =
      if is_zero m
      then (if is_zero u then err none_emitted else ok tt)
      else if ratio_reached u m
      then ok tt
      else err not_throttled

  -- verifyThrottled
  abbrev pub verify_throttled : List ℕ → Map ℕ F → Result ThrottleError (Unit {0})
  verify_throttled expected rates = judge_extremes (extremes expected rates (none, none))

abbrev pub max_sample_attempts : ℕ
max_sample_attempts = 5

abbrev pub give_up : Option ThrottleError → ThrottleError
give_up none = unsampled
give_up (some e) = unstable e

-- The attempts of collectEmissionRates from number `i` on; `left` are left. After a failed one the
-- context has ended or not, and the pause before the next may be interrupted.
unfoldable pub collect_from :
    {R : Type 0}
    → (ℕ → Result ThrottleError R)
    → (ℕ → Bool)
    → (ℕ → Bool)
    → ℕ
    → ℕ
    → Option ThrottleError
    → Result ThrottleError R
collect_from sample cancelled slept zero i last = err (give_up last)
collect_from sample cancelled slept (suc left) i last = elim (sample i) [
  | ok rates ↦ ok rates
  | err e ↦
      let next = collect_from sample cancelled slept left (suc i) (some e) in
      if cancelled i
      then err interrupted
      else if ltb i (max_sample_attempts - 1)
      then (if slept i then next else err interrupted)
      else next
]

-- collectEmissionRates
abbrev pub collect_emission_rates :
    {R : Type 0} → (ℕ → Result ThrottleError R) → (ℕ → Bool) → (ℕ → Bool) → Result ThrottleError R
collect_emission_rates sample cancelled slept =
    collect_from sample cancelled slept max_sample_attempts 0 none

-- A node of the network: its client is none where it cannot be dialed.
pub record ThrottleNode (C : Type 0) : Type 0 where
  pub label : String
  pub validator_id : Option ℕ
  pub expected_failure : Bool
  pub client : Option C

-- The ids of the active validators by their labels, in resolveLabels.
unfoldable pub by_label : {C : Type 0} → Map String ℕ → List (ThrottleNode C) → Map String ℕ
by_label m [] = m
by_label m (n ∷ ns) = by_label (elim n.validator_id [ none ↦ m | some id ↦ insert n.label id m ]) ns

-- The second loop of resolveLabels; a set of ids, as a list.
unfoldable pub throttled_ids : Map String ℕ → List String → Result ThrottleError (List ℕ)
throttled_ids m [] = ok []
throttled_ids m (label ∷ labels) = elim (lookup label m) [
  | none ↦ err (unknown_label label)
  | some id ↦ throttled_ids m labels >>= (λ ids. ok (id ∷ ids))
]

-- dialFirstReachable
unfoldable pub dial_first_reachable : {C : Type 0} → List (ThrottleNode C) → Result ThrottleError C
dial_first_reachable [] = err unreachable
dial_first_reachable (n ∷ ns) =
    let rest = dial_first_reachable ns in
    if n.expected_failure then rest else elim n.client [ none ↦ rest | some c ↦ ok c ]

-- Check; `rates` is the function that measures the rates, which tests may replace.
unfoldable pub check_throttled :
    {C F : Type 0}
    → RateArithmetic F
    → (C → Result ThrottleError (Map ℕ F))
    → List String
    → List (ThrottleNode C)
    → Result ThrottleError (Unit {0})
check_throttled arithmetic rates [] nodes = err no_throttled_nodes
check_throttled arithmetic rates (label ∷ labels) [] = err no_active_nodes
check_throttled arithmetic rates (label ∷ labels) (node ∷ nodes) = do
  expected ← throttled_ids (by_label [] (node ∷ nodes)) (label ∷ labels)
  client ← dial_first_reachable (node ∷ nodes)
  measured ← rates client
  verify_throttled arithmetic expected measured
