-- ===== src/Tracker/Emissions.antt =====
-- driver/monitoring/transactions/emissions.go: the observer that walks the DAG of events and marks
-- the transactions of every event as emitted. Hashes are numbers; what a client answers during one
-- poll is a record of functions.
pub mod Once
pub mod Followed
pub mod Explored
use norma.Base.{
  ℕ, zero, suc, ◌+◌, Bool, true, false, ◌||◌, Option, none, some, List, [], ◌∷◌, contains,
  nat_comparable, if◌then◌else◌,
}
use norma.Base.Results.{Result, ok, err}
use norma.Dag.{push_all}
use norma.Tracker.Data.{Tracker}
use norma.Tracker.{mark_emitted}

-- An event as the walk reads it: its creation time is the instant that time.Unix makes of the 64-bit
-- nanoseconds of the payload, which is never the zero time.
pub record DagEvent : Type 0 where
  pub creation_time : ℕ
  pub parents : List ℕ
  pub transactions : List ℕ

pub data EmissionError : Type 0 where
  no_epoch : EmissionError
  no_heads : ℕ → EmissionError
  no_payload : ℕ → EmissionError

-- What the client answers: the current epoch, the heads of an epoch, and the payload of an event,
-- where `ok none` is the payload of an event that does not exist.
pub record Client : Type 0 where
  pub current_epoch : Option ℕ
  pub heads_of : ℕ → Option (List ℕ)
  pub event_payload : ℕ → Result EmissionError (Option DagEvent)

-- The clients and the context are arguments of the operations.
pub record EmissionObserver : Type 0 where
  pub tracker : Tracker
  pub visited : List ℕ
  pub events : ℕ
  pub failures : ℕ

abbrev pub new_emission_observer : Tracker → EmissionObserver
new_emission_observer t = record { tracker = t; visited = []; events = 0; failures = 0 }

unfoldable pub mark_all : Tracker → ℕ → List ℕ → Tracker
mark_all t at [] = t
mark_all t at (hash ∷ hashes) = mark_all (mark_emitted t hash at) at hashes

abbrev pub visit : ℕ → EmissionObserver → EmissionObserver
visit id o = record o { visited = id ∷ o.visited }

-- What the walk does with an event that it read.
unfoldable pub take_event : DagEvent → EmissionObserver → EmissionObserver
take_event e o = record o {
  events = o.events + 1;
  tracker = mark_all o.tracker e.creation_time e.transactions;
}

module _ (client : Client) (cancelled : ℕ → Bool) where
  -- walk, in its round `i`; the error is none where it returns nil. Without fuel it has not returned.
  unfoldable pub walk :
      ℕ
      → ℕ
      → List ℕ
      → EmissionObserver
      → Option (EmissionObserver × Result EmissionError (Unit {0}))
  walk zero i pending o = none
  walk (suc fuel) i [] o = some (o, ok tt)
  walk (suc fuel) i (id ∷ pending) o =
      let skip = walk fuel (suc i) pending o in
      let miss = walk fuel (suc i) pending (visit id o) in
      if cancelled i
      then some (o, ok tt)
      else if contains o.visited id
      then skip
      else elim (client.event_payload id) [
        | err e ↦ some (visit id o, err e)
        | ok none ↦ miss
        | ok (some e) ↦ walk fuel (suc i) (push_all e.parents pending) (take_event e (visit id o))
      ]

  -- poll, with fuel for its walk.
  unfoldable pub poll_events :
      ℕ → EmissionObserver → Option (EmissionObserver × Result EmissionError (Unit {0}))
  poll_events fuel o = elim client.current_epoch [
    | none ↦ some (o, err no_epoch)
    | some epoch ↦ elim (client.heads_of epoch) [
      | none ↦ some (o, err (no_heads epoch))
      | some heads ↦ walk fuel 0 (push_all heads []) o
    ]
  ]

-- A tick of the loop of `run`: whether a dial succeeds, the client's answers, and in which rounds
-- of the walk the context has ended.
pub record Tick : Type 0 where
  pub dials : Bool
  pub client : Client
  pub cancelled : ℕ → Bool

-- The observer, and whether it holds a connection.
pub record Follower : Type 0 where
  pub connected : Bool
  pub observer : EmissionObserver

abbrev count_failure : EmissionObserver → EmissionObserver
count_failure o = record o { failures = o.failures + 1 }

-- A poll that fails closes the connection.
abbrev pub after_poll : EmissionObserver × Result EmissionError (Unit {0}) → Follower
after_poll (o, ok u) = record { connected = true; observer = o }
after_poll (o, err e) = record { connected = false; observer = count_failure o }

unfoldable pub follow_tick : ℕ → Follower → Tick → Option Follower
follow_tick fuel f t =
    if f.connected || t.dials
    then elim (poll_events t.client t.cancelled fuel f.observer) [
      | none ↦ none
      | some polled ↦ some (after_poll polled)
    ]
    else some f

-- run, over the ticks until the context ends.
unfoldable pub follow_events : ℕ → Follower → List Tick → Option Follower
follow_events fuel f [] = some f
follow_events fuel f (t ∷ ts) = elim (follow_tick fuel f t) [
  | none ↦ none
  | some f' ↦ follow_events fuel f' ts
]
