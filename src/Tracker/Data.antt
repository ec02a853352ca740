-- ===== src/Tracker/Data.antt =====
-- The state of driver/monitoring/transactions/tracker.go: the transactions in flight, the accounts,
-- the applications with their counters and samples, the blocks, and the diagnostics.
use norma.Base.{ℕ, Bool, Option, none, some, [], String, nat_comparable, string_comparable}
use norma.Base.Int.{ℤ, pos}
use norma.Base.Map.{Map, lookup, insert}
use norma.Tracker.Samples.{SampleSet, no_samples}
use norma.Tracker.Nonces.{Sender}
use norma.Tracker.Blocks.{BlockLimit, Composition}

pub data CountKind : Type 0 where
  pending stalled emitted included rejected : CountKind

pub record Counts : Type 0 where
  pub pending : ℤ
  pub stalled : ℤ
  pub emitted : ℤ
  pub included : ℤ
  pub rejected : ℤ

-- Counts.Get
abbrev pub get : Counts → CountKind → ℤ
get c CountKind.pending = c.pending
get c CountKind.stalled = c.stalled
get c CountKind.emitted = c.emitted
get c CountKind.included = c.included
get c CountKind.rejected = c.rejected

pub record Application : Type 0 where
  pub counts : Counts
  pub time_to_emit : SampleSet
  pub time_to_include : SampleSet
  pub time_emit_to_include : SampleSet

abbrev pub new_application : Application
new_application = record {
  counts = record {
    pending = pos 0;
    stalled = pos 0;
    emitted = pos 0;
    included = pos 0;
    rejected = pos 0;
  };
  time_to_emit = no_samples;
  time_to_include = no_samples;
  time_emit_to_include = no_samples;
}

pub record Transaction : Type 0 where
  pub app : String
  pub sender : ℕ
  pub nonce : ℕ
  pub submitted_at : ℕ
  pub emitted_at : ℕ
  pub blocked : Bool

-- What `OnTransactionSubmitted` reads of a transaction; `from` is none where the signature could
-- not be attributed to a sender.
pub record SubmittedTx : Type 0 where
  pub hash : ℕ
  pub nonce : ℕ
  pub from : Option ℕ

pub record Tracker : Type 0 where
  pub txs : Map ℕ Transaction
  pub senders : Map ℕ Sender
  pub apps : Map String Application
  pub blocks : Map ℕ Composition
  pub limits : Map ℕ BlockLimit
  pub untracked : ℕ
  pub unknown_sender : ℕ
  pub included_not_seen : ℕ
  pub inconsistent_time : ℕ

abbrev pub max_tracked_transactions : ℕ
max_tracked_transactions = 500_000

abbrev pub new_tracker : Tracker
new_tracker = record {
  txs = [];
  senders = [];
  apps = [];
  blocks = [];
  limits = [];
  untracked = 0;
  unknown_sender = 0;
  included_not_seen = 0;
  inconsistent_time = 0;
}

abbrev pub or_new : Option Application → Application
or_new none = new_application
or_new (some a) = a

-- `application`: the state of an application, empty before its first use.
unfoldable pub application : Tracker → String → Application
application t name = or_new (lookup name t.apps)

-- A change to the application that `application` returns, which is created on first use.
unfoldable pub update_app : String → (Application → Application) → Tracker → Tracker
unfolding application
update_app name f t = record t { apps = insert name (f (application t name)) t.apps }

abbrev pub on_counts : (Counts → Counts) → Application → Application
on_counts f a = record a { counts = f a.counts }

abbrev pub update_counts : String → (Counts → Counts) → Tracker → Tracker
update_counts name f = update_app name (on_counts f)
