-- ===== src/Tracker.antt =====
-- driver/monitoring/transactions/tracker.go. Every method holds the tracker's lock, so a method is
-- a function from the state before to the state after. Hashes and addresses are numbers, times are
-- nanoseconds with 0 for the zero time, and the counters are signed as in the source.
pub mod Samples
pub mod Nonces
pub mod Blocks
pub mod Data
pub mod Populations
pub mod Composed
pub mod Repeats
pub mod Inclusions
pub mod Emissions
use norma.Base.{
  ℕ, suc, ◌+◌, ◌-◌, Bool, true, false, not, ◌&&◌, Option, none, some, List, [], ◌∷◌, String, length,
  ltb, leb, ◌==◌, nat_comparable, string_comparable, if◌then◌else◌,
}
use norma.Base.Int.{ℤ, pos, inc, dec}
use norma.Base.Map.{Map, lookup, insert, delete, has}
use Samples.{SampleSet, no_samples, add}
use Nonces.{Sender, new_sender, executable, extend_run, release}
use Blocks.{BlockLimit, Composition, attribute, other_transactions}
use Data.{
  Counts, Application, Transaction, SubmittedTx, Tracker, max_tracked_transactions, application,
  update_app, update_counts,
}

abbrev pub free_count : Counts → Counts
free_count c = record c { stalled = dec c.stalled; pending = inc c.pending }

-- `unblock`
unfoldable pub unblock : Tracker → ℕ → Tracker
unblock t hash = elim (lookup hash t.txs) [
  | none ↦ t
  | some entry ↦
      if not entry.blocked
      then t
      else let t' = record t { txs = insert hash (record entry { blocked = false }) t.txs } in
        if not (entry.emitted_at == 0) then t' else update_counts entry.app free_count t'
]

unfoldable pub unblock_all : Tracker → List ℕ → Tracker
unblock_all t [] = t
unblock_all t (h ∷ hs) = unblock_all (unblock t h) hs

abbrev pub sender_of : Option ℕ → ℕ
sender_of none = 0
sender_of (some a) = a

abbrev account_of : Option Sender → ℕ → Sender
account_of none nonce = new_sender nonce
account_of (some s) nonce = s

abbrev count_unknown : Option ℕ → ℕ → ℕ
count_unknown none n = n + 1
count_unknown (some a) n = n

abbrev pub enter_count : Bool → Counts → Counts
enter_count blocked c =
    if blocked then record c { stalled = inc c.stalled } else record c { pending = inc c.pending }

-- Stores the transaction and counts it; the pool of its account has its nonce already.
unfoldable pub enter : Tracker → String → SubmittedTx → ℕ → Sender → Tracker
enter t app tx at account =
    let blocked = not (executable account tx.nonce) in
    update_counts app (enter_count blocked) (record t {
      txs =
          insert tx.hash
            (record {
              app = app;
              sender = sender_of tx.from;
              nonce = tx.nonce;
              submitted_at = at;
              emitted_at = 0;
              blocked = blocked;
            })
            t.txs;
      unknown_sender = count_unknown tx.from t.unknown_sender;
    })

-- The part of `OnTransactionSubmitted` for a transaction that is followed from now on.
unfoldable pub follow : Tracker → String → SubmittedTx → ℕ → Tracker
follow t app tx at =
    let from = sender_of tx.from in
    let found = account_of (lookup from t.senders) tx.nonce in
    let account = record found { in_flight = insert tx.nonce tx.hash found.in_flight } in
    let (extended, unblocked) = extend_run account in
    let t' = enter t app tx at account in
    unblock_all (record t' { senders = insert from extended t'.senders }) unblocked

abbrev pub reject_count : Counts → Counts
reject_count c = record c { rejected = inc c.rejected }

-- OnTransactionSubmitted
unfoldable pub submitted : Tracker → String → SubmittedTx → ℕ → Bool → Tracker
submitted t app tx at refused =
    if refused
    then update_counts app reject_count t
    else let t' = update_app app (λ a. a) t in
      if leb max_tracked_transactions (length t.txs)
      then record t' { untracked = t'.untracked + 1 }
      else if has tx.hash t.txs
      then t'
      else follow t' app tx at

abbrev pub leave : Transaction → Counts → Counts
leave entry c =
    if entry.blocked
    then record c { stalled = dec c.stalled }
    else record c { pending = dec c.pending }

abbrev pub emit_count : Transaction → Counts → Counts
emit_count entry c = record (leave entry c) { emitted = inc c.emitted }

abbrev pub emit_sample : Transaction → ℕ → Application → Application
emit_sample entry at a = record a {
  time_to_emit = add a.time_to_emit entry.submitted_at (at - entry.submitted_at);
}

-- MarkEmitted
unfoldable pub mark_emitted : Tracker → ℕ → ℕ → Tracker
mark_emitted t hash at = elim (lookup hash t.txs) [
  | none ↦ t
  | some entry ↦
      if not (entry.emitted_at == 0)
      then t
      else let t' = record t { txs = insert hash (record entry { emitted_at = at }) t.txs } in
        let t'' = update_counts entry.app (emit_count entry) t' in
        if leb entry.submitted_at at
        then update_app entry.app (emit_sample entry at) t''
        else record t'' { inconsistent_time = t''.inconsistent_time + 1 }
]

-- `releaseNonce`
abbrev pub release_nonce : Transaction → Map ℕ Sender → Map ℕ Sender
release_nonce entry senders = elim (lookup entry.sender senders) [
  | none ↦ senders
  | some account ↦ insert entry.sender (release account entry.nonce) senders
]

abbrev pub include_emitted_count : Transaction → Counts → Counts
include_emitted_count entry c = record c { emitted = dec c.emitted; included = inc c.included }

abbrev pub include_count : Transaction → Counts → Counts
include_count entry c = record (leave entry c) { included = inc c.included }

-- The counters of `markIncluded`.
unfoldable pub count_inclusion : Tracker → Transaction → Tracker
count_inclusion t entry =
    if not (entry.emitted_at == 0)
    then update_counts entry.app (include_emitted_count entry) t
    else update_counts entry.app (include_count entry)
        (record t { included_not_seen = t.included_not_seen + 1 })

abbrev pub latency_sample : Transaction → ℕ → Application → Application
latency_sample entry at a = record a {
  time_to_include = add a.time_to_include entry.submitted_at (at - entry.submitted_at);
}

abbrev pub consensus_sample : Transaction → ℕ → Application → Application
consensus_sample entry at a = record a {
  time_emit_to_include = add a.time_emit_to_include entry.submitted_at (at - entry.emitted_at);
}

-- The samples of `markIncluded`: the latency, and the consensus time of an emitted transaction.
unfoldable pub sample_latency : Tracker → Transaction → ℕ → Tracker
sample_latency t entry at =
    if leb entry.submitted_at at
    then update_app entry.app (latency_sample entry at) t
    else record t { inconsistent_time = t.inconsistent_time + 1 }

unfoldable pub sample_consensus : Tracker → Transaction → ℕ → Tracker
sample_consensus t entry at =
    if not (entry.emitted_at == 0) && leb entry.emitted_at at
    then update_app entry.app (consensus_sample entry at) t
    else t

abbrev pub sample_inclusion : Tracker → Transaction → ℕ → Tracker
sample_inclusion t entry at = sample_consensus (sample_latency t entry at) entry at

-- `markIncluded`: the new state, and the application of the transaction if it was followed.
unfoldable pub mark_included_app : Tracker → ℕ → ℕ → Tracker × Option String
mark_included_app t hash at = elim (lookup hash t.txs) [
  | none ↦ (t, none)
  | some entry ↦
      let t' = sample_inclusion (count_inclusion t entry) entry at in
      (
        record t' { txs = delete hash t'.txs; senders = release_nonce entry t'.senders },
        some entry.app,
      )
]

-- MarkIncluded
abbrev pub mark_included : Tracker → ℕ → ℕ → Tracker
mark_included t hash at = (mark_included_app t hash at).0

abbrev or_other : Option String → String
or_other none = other_transactions
or_other (some app) = app

-- The loop of `MarkBlock`.
unfoldable pub mark_transactions :
    ℕ → ℕ → List (ℕ × ℕ) → Tracker → Composition → Tracker × Composition
mark_transactions height at [] t composition = (t, composition)
mark_transactions height at ((hash, gas_used) ∷ txs) t composition =
    let (t', app) = mark_included_app t hash at in
    mark_transactions height at txs t' (attribute height (or_other app) gas_used composition)

-- MarkBlock; a transaction of a block is its hash and the gas that it used.
unfoldable pub mark_block : Tracker → ℕ → ℕ → List (ℕ × ℕ) → Tracker
mark_block t height at txs =
    let (t', composition) = mark_transactions height at txs t [] in
    if length composition == 0
    then t'
    else record t' { blocks = insert height composition t'.blocks }

-- MarkBlockLimits
unfoldable pub mark_block_limits : Tracker → ℕ → BlockLimit → Tracker
mark_block_limits t height limits = record t {
  limits = insert height (record limits { block = height }) t.limits;
}

-- Counts
abbrev pub counts : Tracker → String → Counts
counts t app = (application t app).counts
