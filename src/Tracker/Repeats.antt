-- ===== src/Tracker/Repeats.antt =====
-- Every node announces a block and every event may be met again, so reports come repeatedly.
use norma.Base.{
  ℕ, ◌≡◌, ◌≢◌, ◌⊎◌, true, none, some, inl, inr, ◌==◌, nat_comparable, arith, Option-cases,
  Bool-cases,
}
use norma.Base.Map.{lookup, insert, lookup-insert_self, lookup-delete_self}
use norma.Tracker.Data.{Transaction, Tracker, update_app}
use norma.Tracker.{mark_emitted, mark_included, mark_included_app}

abbrev Settled : Tracker → ℕ → Type 0
Settled t hash =
    (lookup hash t.txs ≡ none)
    ⊎ ((w : Transaction) × (lookup hash t.txs ≡ some w) × (w.emitted_at ≢ 0))

-- A transaction that is not in flight, or was emitted, is not touched by an emission report.
mark_emitted-Settled : (t : Tracker) (hash at : ℕ) → Settled t hash → mark_emitted t hash at ≡ t
unfolding mark_emitted
mark_emitted-Settled t hash at (inl e) = rw (e, mark_emitted)
mark_emitted-Settled t hash at (inr (w, e, sent)) = rw (e, mark_emitted) (ground arith)

emitted_txs :
    (t : Tracker) (hash at : ℕ) (w : Transaction)
    → lookup hash t.txs ≡ some w
    → (w.emitted_at == 0) ≡ true
    → (mark_emitted t hash at).txs ≡ insert hash (record w { emitted_at = at }) t.txs
unfolding mark_emitted update_app
emitted_txs t hash at w e waiting = rw (e, mark_emitted) (rw waiting (ground arith))

-- Repeated emission reports for a transaction count once: the first creation time stands.
mark_emitted_twice :
    (t : Tracker) (hash at later : ℕ)
    → at ≢ 0
    → mark_emitted (mark_emitted t hash at) hash later ≡ mark_emitted t hash at
mark_emitted_twice t hash at later z = elim (Option-cases (lookup hash t.txs)) [
  | inl e ↦ rw (mark_emitted-Settled t hash at (inl e)) (mark_emitted-Settled t hash later (inl e))
  | inr (w, e) ↦ elim (Bool-cases (w.emitted_at == 0)) [
    | inr sent ↦
        let settled : Settled t hash = inr (w, e, λ zero_time. ground arith) in
        rw (mark_emitted-Settled t hash at settled) (mark_emitted-Settled t hash later settled)
    | inl waiting ↦ mark_emitted-Settled (mark_emitted t hash at) hash later (
        inr (
          record w { emitted_at = at },
          rw (emitted_txs t hash at w e waiting) (lookup-insert_self hash _ t.txs),
          z,
        ))
  ]
]

released_txs : (t : Tracker) (hash at : ℕ) → lookup hash (mark_included t hash at).txs ≡ none
unfolding mark_included_app
released_txs t hash at = elim (Option-cases (lookup hash t.txs)) [
  | inl e ↦ rw (e, mark_included, mark_included_app) e
  | inr (w, e) ↦ rw (e, mark_included, mark_included_app) (lookup-delete_self hash _)
]

missing_app :
    (t : Tracker) (hash at : ℕ) → lookup hash t.txs ≡ none → mark_included_app t hash at ≡ (t, none)
unfolding mark_included_app
missing_app t hash at e = rw (e, mark_included_app)

-- An included transaction is done: a second inclusion report and a late emission report change
-- nothing, and the second inclusion is attributed to no application.
mark_included_twice :
    (t : Tracker) (hash at later : ℕ)
    → (mark_included_app (mark_included t hash at) hash later ≡ (mark_included t hash at, none))
      × (mark_emitted (mark_included t hash at) hash later ≡ mark_included t hash at)
mark_included_twice t hash at later =
    let gone = released_txs t hash at in
    (
      missing_app (mark_included t hash at) hash later gone,
      mark_emitted-Settled _ hash later (inl gone),
    )

-- Reports count once, whatever the tracker knows of the transaction: of two emission reports the first
-- creation time stands, where it is a time; and once a transaction was included, a second inclusion report
-- and a late emission report change nothing, and the second inclusion is attributed to no application.
pub reports_count_once :
    (t : Tracker) (hash at later : ℕ)
    → at ≢ 0
    → (mark_emitted (mark_emitted t hash at) hash later ≡ mark_emitted t hash at)
      × (mark_included_app (mark_included t hash at) hash later ≡ (mark_included t hash at, none))
      × (mark_emitted (mark_included t hash at) hash later ≡ mark_included t hash at)
reports_count_once t hash at later z =
    let (included, emitted) = mark_included_twice t hash at later in
    (mark_emitted_twice t hash at later z, included, emitted)
