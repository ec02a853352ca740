-- ===== src/Checking/Snapshots.antt =====
-- driver/checking/event_throttled.go: a snapshot of the DAG of one epoch, which counts the events of
-- every validator. Hashes, validator ids and times in nanoseconds are numbers.
pub mod Pushed
pub mod Counted
pub mod Later
use norma.Base.{
  ℕ, zero, suc, ◌+◌, Bool, true, false, Option, none, some, List, [], ◌∷◌, String, contains,
  nat_comparable, if◌then◌else◌,
}
use norma.Base.Int.{ℤ}
use norma.Base.Map.{Map, lookup, insert}
use norma.Base.Results.{Result, ok, err, ◌>>=◌}
use norma.Dag.{push_all}

pub data ThrottleError : Type 0 where
  no_throttled_nodes : ThrottleError
  no_active_nodes : ThrottleError
  unknown_label : String → ThrottleError
  unreachable : ThrottleError
  no_epoch : ThrottleError
  no_heads : ThrottleError
  heads_missing : ℕ → ThrottleError
  no_event : ℕ → ThrottleError
  no_events : ThrottleError
  interrupted : ThrottleError
  epoch_changed : ℕ → ℕ → ThrottleError
  not_apart : ℤ → ThrottleError
  unstable : ThrottleError → ThrottleError
  unsampled : ThrottleError
  none_listed : ThrottleError
  none_unlisted : ThrottleError
  none_emitted : ThrottleError
  not_throttled : ThrottleError

pub record RawEvent : Type 0 where
  pub creator : ℕ
  pub parents : List ℕ

-- A client during one snapshot, with the time that the snapshot is taken at.
pub record DagClient : Type 0 where
  pub current_epoch : Option ℕ
  pub taken_at : ℕ
  pub heads_of : ℕ → Option (List ℕ)
  pub dag_event : ℕ → Result ThrottleError (Option RawEvent)
  pub cancelled : ℕ → Bool

pub record DagSnapshot : Type 0 where
  pub epoch : ℕ
  pub taken_at : ℕ
  pub counts : Map ℕ ℕ

abbrev pub count_of : ℕ → Map ℕ ℕ → ℕ
count_of id counts = elim (lookup id counts) [ none ↦ 0 | some n ↦ n ]

-- `counts[creator]++`
abbrev pub count_event : RawEvent → Map ℕ ℕ → Map ℕ ℕ
count_event e counts = insert e.creator (count_of e.creator counts + 1) counts

-- The parents that were not seen go on the stack.
unfoldable pub push_unseen : List ℕ → List ℕ → List ℕ → List ℕ
push_unseen visited [] stack = stack
push_unseen visited (x ∷ xs) stack =
    push_unseen visited xs (if contains visited x then stack else x ∷ stack)

module _ (client : DagClient) where
  -- The loop of countEventsFromHeads, in its round `i`. Without fuel it has not returned.
  unfoldable pub count_from :
      ℕ → ℕ → List ℕ → List ℕ → Map ℕ ℕ → Option (Result ThrottleError (Map ℕ ℕ))
  count_from zero i queue visited counts = none
  count_from (suc fuel) i [] visited counts = some (ok counts)
  count_from (suc fuel) i (id ∷ queue) visited counts =
      let skip = count_from fuel (suc i) queue visited counts in
      let miss = count_from fuel (suc i) queue (id ∷ visited) counts in
      if client.cancelled i
      then some (err interrupted)
      else if contains visited id
      then skip
      else elim (client.dag_event id) [
        | err e ↦ some (err e)
        | ok none ↦ miss
        | ok (some e) ↦
            count_from fuel (suc i) (push_unseen (id ∷ visited) e.parents queue) (id ∷ visited)
              (count_event e counts)
      ]

  -- countEventsFromHeads
  abbrev pub count_events_from_heads : ℕ → List ℕ → Option (Result ThrottleError (Map ℕ ℕ))
  count_events_from_heads fuel heads = count_from fuel 0 (push_all heads []) [] []

  abbrev pub snapshot_of : ℕ → Map ℕ ℕ → Result ThrottleError DagSnapshot
  snapshot_of epoch [] = err no_events
  snapshot_of epoch (entry ∷ counts) =
      ok (record { epoch = epoch; taken_at = client.taken_at; counts = entry ∷ counts })

  -- The rest of snapshotEpochCounts, from the heads on.
  abbrev pub snapshot_heads : ℕ → ℕ → List ℕ → Option (Result ThrottleError DagSnapshot)
  snapshot_heads fuel epoch [] = some (err (heads_missing epoch))
  snapshot_heads fuel epoch (head ∷ heads) = elim (count_events_from_heads fuel (head ∷ heads)) [
    | none ↦ none
    | some counted ↦ some (counted >>= snapshot_of epoch)
  ]

  -- snapshotEpochCounts
  unfoldable pub snapshot_epoch_counts : ℕ → Option (Result ThrottleError DagSnapshot)
  snapshot_epoch_counts fuel = elim client.current_epoch [
    | none ↦ some (err no_epoch)
    | some epoch ↦ elim (client.heads_of epoch) [
      | none ↦ some (err no_heads)
      | some heads ↦ snapshot_heads fuel epoch heads
    ]
  ]
