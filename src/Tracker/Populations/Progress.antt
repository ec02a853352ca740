-- ===== src/Tracker/Populations/Progress.antt =====
-- Emissions and inclusions keep the counters equal to the populations.
use norma.Base.{
  ℕ, ◌+◌, ◌≡◌, ◌≢◌, refl, inl, inr, true, false, not, ◌&&◌, some, ◌==◌, nat_comparable,
  string_comparable, arith, Bool-cases, Option-cases, leb,
}
use norma.Base.Int.{pos}
use norma.Base.Map.{Map, lookup, delete, one_if}
use norma.Tracker.Data.{CountKind, get, Application, Transaction, Tracker, update_app, on_counts}
use norma.Tracker.Populations.{
  phase, IsInFlight, IsCounted, keep-IsCounted, replace-IsCounted, delete-IsCounted,
}
use norma.Tracker.{
  mark_emitted, count_inclusion, sample_inclusion, sample_latency, sample_consensus, emit_sample,
  latency_sample, consensus_sample, mark_included_app, mark_included, emit_count,
  include_emitted_count, include_count,
}
use norma.Tracker.Populations.Submission.{Counted}

emit_moves :
    (w : Transaction) (at : ℕ) (k : CountKind) (a : Application) (n m : ℕ)
    → (w.emitted_at == 0) ≡ true
    → at ≢ 0
    → IsInFlight k
    → get a.counts k ≡ pos n
    → m + one_if (phase k w) ≡ one_if (phase k (record w { emitted_at = at })) + n
    → get (emit_count w a.counts) k ≡ pos m
emit_moves w at CountKind.pending a n m e z live c s = ground arith
emit_moves w at CountKind.stalled a n m e z live c s = ground arith
emit_moves w at CountKind.emitted a n m e z live c s = ground arith
emit_moves w at CountKind.included a n m e z live c s = elim live [ ]
emit_moves w at CountKind.rejected a n m e z live c s = elim live [ ]

pub mark_emitted-Counted :
    (t : Tracker) (hash at : ℕ) → at ≢ 0 → Counted t → Counted (mark_emitted t hash at)
unfolding mark_emitted update_app
mark_emitted-Counted t hash at z c = elim (Option-cases (lookup hash t.txs)) [
  | inl e ↦ rw (e, mark_emitted) c
  | inr (w, e) ↦ elim (Bool-cases (w.emitted_at == 0)) [
    | inr sent ↦ rw (e, mark_emitted) (rw sent c)
    | inl waiting ↦
        let c' =
          replace-IsCounted t.apps t.txs hash (on_counts (emit_count w)) w e
            (record w { emitted_at = at }) refl (λ k a n m. emit_moves w at k a n m waiting z) c in
        elim (Bool-cases (leb w.submitted_at at)) [
          | inl after ↦
              rw (e, mark_emitted)
                (rw (waiting, after)
                  (keep-IsCounted _ _ w.app (emit_sample w at) (λ k a live. refl) c'))
          | inr before ↦ rw (e, mark_emitted) (rw (waiting, before) c')
        ]
  ]
]

include_emitted_moves :
    (w : Transaction) (k : CountKind) (a : Application) (n m : ℕ)
    → (w.emitted_at == 0) ≡ false
    → IsInFlight k
    → get a.counts k ≡ pos n
    → m + one_if (phase k w) ≡ n
    → get (include_emitted_count w a.counts) k ≡ pos m
include_emitted_moves w CountKind.pending a n m e live c s = ground arith
include_emitted_moves w CountKind.stalled a n m e live c s = ground arith
include_emitted_moves w CountKind.emitted a n m e live c s = ground arith
include_emitted_moves w CountKind.included a n m e live c s = elim live [ ]
include_emitted_moves w CountKind.rejected a n m e live c s = elim live [ ]

include_moves :
    (w : Transaction) (k : CountKind) (a : Application) (n m : ℕ)
    → (w.emitted_at == 0) ≡ true
    → IsInFlight k
    → get a.counts k ≡ pos n
    → m + one_if (phase k w) ≡ n
    → get (include_count w a.counts) k ≡ pos m
include_moves w CountKind.pending a n m e live c s = ground arith
include_moves w CountKind.stalled a n m e live c s = ground arith
include_moves w CountKind.emitted a n m e live c s = ground arith
include_moves w CountKind.included a n m e live c s = elim live [ ]
include_moves w CountKind.rejected a n m e live c s = elim live [ ]

count_inclusion-IsCounted :
    (t : Tracker) (hash : ℕ) (w : Transaction)
    → lookup hash t.txs ≡ some w
    → Counted t
    → IsCounted (count_inclusion t w).apps (delete hash t.txs)
unfolding count_inclusion update_app
count_inclusion-IsCounted t hash w e c = elim (Bool-cases (w.emitted_at == 0)) [
  | inl waiting ↦ rw waiting (
      delete-IsCounted t.apps t.txs hash (on_counts (include_count w)) w e
        (λ k a n m. include_moves w k a n m waiting) c)
  | inr sent ↦ rw sent (
      delete-IsCounted t.apps t.txs hash (on_counts (include_emitted_count w)) w e
        (λ k a n m. include_emitted_moves w k a n m sent) c)
]

sample_latency-IsCounted :
    (t : Tracker) (w : Transaction) (at : ℕ) (txs : Map ℕ Transaction)
    → IsCounted t.apps txs
    → IsCounted (sample_latency t w at).apps txs
unfolding sample_latency update_app
sample_latency-IsCounted t w at txs c = elim (Bool-cases (leb w.submitted_at at)) [
  | inl after ↦
      rw after (keep-IsCounted t.apps txs w.app (latency_sample w at) (λ k a live. refl) c)
  | inr before ↦ rw before c
]

sample_consensus-IsCounted :
    (t : Tracker) (w : Transaction) (at : ℕ) (txs : Map ℕ Transaction)
    → IsCounted t.apps txs
    → IsCounted (sample_consensus t w at).apps txs
unfolding sample_consensus update_app
sample_consensus-IsCounted t w at txs c =
    elim (Bool-cases (not (w.emitted_at == 0) && leb w.emitted_at at)) [
      | inl after ↦
          rw after (keep-IsCounted t.apps txs w.app (consensus_sample w at) (λ k a live. refl) c)
      | inr before ↦ rw before c
    ]

sample_inclusion_txs :
    (t : Tracker) (w : Transaction) (at : ℕ)
    → (sample_inclusion (count_inclusion t w) w at).txs ≡ t.txs
unfolding sample_latency sample_consensus count_inclusion update_app
sample_inclusion_txs t w at = ground arith

pub mark_included-Counted :
    (t : Tracker) (hash at : ℕ) → Counted t → Counted (mark_included t hash at)
unfolding mark_included_app
mark_included-Counted t hash at c = elim (Option-cases (lookup hash t.txs)) [
  | inl e ↦ rw (e, mark_included, mark_included_app) c
  | inr (w, e) ↦
      rw (e, mark_included, mark_included_app)
        (rw (sample_inclusion_txs t w at) (
          sample_consensus-IsCounted _ w at (delete hash t.txs) (
            sample_latency-IsCounted (count_inclusion t w) w at (delete hash t.txs)
              (count_inclusion-IsCounted t hash w e c))))
]
