-- ===== src/Tracker/Populations/Submission.antt =====
-- A submission keeps the counters equal to the populations.
use norma.Base.{
  ℕ, suc, ◌+◌, ◌≡◌, refl, inl, inr, Bool, true, false, not, none, List, [], ◌∷◌, String, ◌==◌,
  nat_comparable, string_comparable, arith, Bool-cases, Option-cases, length, leb,
}
use norma.Base.Int.{pos, dec}
use norma.Base.Map.{Map, lookup, one_if, has}
use norma.Tracker.Nonces.{Sender, executable}
use norma.Tracker.Data.{
  CountKind, get, Application, Transaction, SubmittedTx, Tracker, update_app, on_counts,
  max_tracked_transactions,
}
use norma.Tracker.Populations.{
  phase, IsInFlight, IsCounted, keep-IsCounted, insert-IsCounted, replace-IsCounted,
  retag-IsCounted,
}
use norma.Tracker.{
  unblock, unblock_all, enter, follow, submitted, free_count, enter_count, reject_count, sender_of,
}

-- The counters of a tracker are the sizes of its populations.
abbrev pub Counted : Tracker → Type 0
Counted t = IsCounted t.apps t.txs

dec_pos : (n m : ℕ) → n ≡ suc m → dec (pos n) ≡ pos m
dec_pos n m e = rw e

unblock_moves :
    (w : Transaction) (k : CountKind) (a : Application) (n m : ℕ)
    → w.blocked ≡ true
    → (w.emitted_at == 0) ≡ true
    → IsInFlight k
    → get a.counts k ≡ pos n
    → m + one_if (phase k w) ≡ one_if (phase k (record w { blocked = false })) + n
    → get (free_count a.counts) k ≡ pos m
unblock_moves w CountKind.pending a n m b e live c s = ground arith
unblock_moves w CountKind.stalled a n m b e live c s = ground arith
unblock_moves w CountKind.emitted a n m b e live c s = ground arith
unblock_moves w CountKind.included a n m b e live c s = elim live [ ]
unblock_moves w CountKind.rejected a n m b e live c s = elim live [ ]

unblock_phase :
    (w : Transaction)
    → (w.emitted_at == 0) ≡ false
    → (k : CountKind) → phase k (record w { blocked = false }) ≡ phase k w
unblock_phase w sent CountKind.pending = ground arith
unblock_phase w sent CountKind.stalled = ground arith
unblock_phase w sent CountKind.emitted = refl
unblock_phase w sent CountKind.included = refl
unblock_phase w sent CountKind.rejected = refl

pub unblock-Counted : (t : Tracker) (hash : ℕ) → Counted t → Counted (unblock t hash)
unfolding unblock update_app
unblock-Counted t hash c = elim (Option-cases (lookup hash t.txs)) [
  | inl e ↦ rw (e, unblock) c
  | inr (w, e) ↦ elim (Bool-cases w.blocked) [
    | inr free ↦ rw (e, unblock) (rw free c)
    | inl held ↦ elim (Bool-cases (w.emitted_at == 0)) [
      | inl waiting ↦
          rw (e, unblock)
            (rw (held, waiting)
              (replace-IsCounted t.apps t.txs hash (on_counts free_count) w e
                (record w { blocked = false }) refl
                (λ k a n m. unblock_moves w k a n m held waiting) c))
      | inr sent ↦
          rw (e, unblock)
            (rw (held, sent)
              (retag-IsCounted t.apps t.txs hash (λ a. a) w e (record w { blocked = false }) refl
                (unblock_phase w sent) c))
    ]
  ]
]

pub unblock_all-Counted :
    (t : Tracker) (hashes : List ℕ) → Counted t → Counted (unblock_all t hashes)
unfolding unblock_all
unblock_all-Counted t [] c = c
unblock_all-Counted t (h ∷ hs) c = unblock_all-Counted (unblock t h) hs (unblock-Counted t h c)

enter_moves :
    (v : Transaction) (k : CountKind) (a : Application) (n : ℕ)
    → v.emitted_at ≡ 0
    → IsInFlight k
    → get a.counts k ≡ pos n
    → get (enter_count v.blocked a.counts) k ≡ pos (one_if (phase k v) + n)
enter_moves v CountKind.pending a n e live c = ground arith
enter_moves v CountKind.stalled a n e live c = ground arith
enter_moves v CountKind.emitted a n e live c = ground arith
enter_moves v CountKind.included a n e live c = elim live [ ]
enter_moves v CountKind.rejected a n e live c = elim live [ ]

enter-Counted :
    (t : Tracker) (app : String) (tx : SubmittedTx) (at : ℕ) (account : Sender)
    → lookup tx.hash t.txs ≡ none
    → Counted t
    → Counted (enter t app tx at account)
unfolding enter update_app
enter-Counted t app tx at account fresh c =
    insert-IsCounted t.apps t.txs tx.hash
      (on_counts (enter_count (not (executable account tx.nonce)))) v fresh
      (λ k a n. enter_moves v k a n refl) c
  where
    v : Transaction
    v = record {
      app = app;
      sender = sender_of tx.from;
      nonce = tx.nonce;
      submitted_at = at;
      emitted_at = 0;
      blocked = not (executable account tx.nonce);
    }

follow-Counted :
    (t : Tracker) (app : String) (tx : SubmittedTx) (at : ℕ)
    → lookup tx.hash t.txs ≡ none
    → Counted t
    → Counted (follow t app tx at)
unfolding follow
follow-Counted t app tx at fresh c = unblock_all-Counted _ _ (enter-Counted t app tx at _ fresh c)

touch-Counted : (t : Tracker) (app : String) → Counted t → Counted (update_app app (λ a. a) t)
unfolding update_app
touch-Counted t app c = keep-IsCounted t.apps t.txs app (λ a. a) (λ k a live. refl) c

reject_same :
    (k : CountKind) (a : Application)
    → IsInFlight k
    → get (on_counts reject_count a).counts k ≡ get a.counts k
reject_same CountKind.pending a live = refl
reject_same CountKind.stalled a live = refl
reject_same CountKind.emitted a live = refl
reject_same CountKind.included a live = elim live [ ]
reject_same CountKind.rejected a live = elim live [ ]

has-none : (hash : ℕ) (txs : Map ℕ Transaction) → has hash txs ≡ false → lookup hash txs ≡ none
has-none hash txs h = elim (Option-cases (lookup hash txs)) [
  | inl e ↦ e
  | inr (w, e) ↦ ground arith
]

pub submitted-Counted :
    (t : Tracker) (app : String) (tx : SubmittedTx) (at : ℕ) (refused : Bool)
    → Counted t
    → Counted (submitted t app tx at refused)
unfolding submitted
submitted-Counted t app tx at true c =
    unfold update_app in keep-IsCounted t.apps t.txs app (on_counts reject_count) reject_same c
submitted-Counted t app tx at false c =
    elim (Bool-cases (leb max_tracked_transactions (length t.txs))) [
      | inl full ↦ rw full (touch-Counted t app c)
      | inr room ↦ elim (Bool-cases (has tx.hash t.txs)) [
        | inl known ↦ rw (room, known) (touch-Counted t app c)
        | inr fresh ↦
            rw (room, fresh)
              (follow-Counted _ app tx at (unfold update_app in has-none tx.hash t.txs fresh)
                (touch-Counted t app c))
      ]
    ]
