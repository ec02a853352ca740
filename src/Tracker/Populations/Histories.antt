-- ===== src/Tracker/Populations/Histories.antt =====
-- The tracker over a whole run: submissions, emissions, inclusions and blocks are reported from
-- independent goroutines, so a history is any sequence of reports.
use norma.Base.{
  ℕ, ◌≡◌, ◌≢◌, refl, Bool, String, List, [], ◌∷◌, length, ◌==◌, nat_comparable, All, Bool-cases,
  some, ltb, arith, inl, inr,
}
use norma.Base.Int.{pos}
use norma.Base.Map.{lookup, count, lookup-insert_self}
use norma.Tracker.Data.{
  update_app, Transaction, CountKind, get, SubmittedTx, Tracker, new_tracker, application,
}
use norma.Tracker.Blocks.{BlockLimit, Composition, attribute}
use norma.Tracker.Populations.{IsInFlight, population, app_in}
use norma.Tracker.Populations.Submission.{Counted, submitted-Counted}
use norma.Tracker.Populations.Progress.{mark_emitted-Counted, mark_included-Counted}
use norma.Tracker.{
  submitted, mark_emitted, mark_included, mark_included_app, mark_block, mark_transactions,
  mark_block_limits, counts, or_other, enter,
}
use norma.Tracker.Nonces.{Sender}

pub data Report : Type 0 where
  submits : String → SubmittedTx → ℕ → Bool → Report
  emits : ℕ → ℕ → Report
  includes : ℕ → ℕ → Report
  blocks : ℕ → ℕ → List (ℕ × ℕ) → Report
  limits : ℕ → BlockLimit → Report

unfoldable pub step : Tracker → Report → Tracker
step t (submits app tx at refused) = submitted t app tx at refused
step t (emits hash at) = mark_emitted t hash at
step t (includes hash at) = mark_included t hash at
step t (blocks height at txs) = mark_block t height at txs
step t (limits height l) = mark_block_limits t height l

unfoldable pub run : Tracker → List Report → Tracker
run t [] = t
run t (r ∷ rs) = run (step t r) rs

-- An event carries its creation time, which is not the zero time.
abbrev pub HasTime : Report → Type 0
HasTime (emits hash at) = at ≢ 0
HasTime (submits app tx at refused) = Unit
HasTime (includes hash at) = Unit
HasTime (blocks height at txs) = Unit
HasTime (limits height l) = Unit

mark_transactions-Counted :
    (height at : ℕ) (txs : List (ℕ × ℕ)) (t : Tracker) (composition : Composition)
    → Counted t
    → Counted (mark_transactions height at txs t composition).0
unfolding mark_transactions
mark_transactions-Counted height at [] t composition c = c
mark_transactions-Counted height at ((hash, gas) ∷ txs) t composition c =
    let (t', app) = mark_included_app t hash at in
    mark_transactions-Counted height at txs t' (attribute height (or_other app) gas composition)
      (mark_included-Counted t hash at c)

step-Counted : (t : Tracker) (r : Report) → HasTime r → Counted t → Counted (step t r)
unfolding step mark_block mark_block_limits
step-Counted t (submits app tx at refused) h c = submitted-Counted t app tx at refused c
step-Counted t (emits hash at) h c = mark_emitted-Counted t hash at h c
step-Counted t (includes hash at) h c = mark_included-Counted t hash at c
step-Counted t (blocks height at txs) h c =
    let c' = mark_transactions-Counted height at txs t [] c in
    elim (Bool-cases (length (mark_transactions height at txs t []).1 == 0)) [
      | inl none_seen ↦ rw none_seen c'
      | inr some_seen ↦ rw some_seen (record { unique = c'.unique; tally = c'.tally })
    ]
step-Counted t (limits height l) h c = record { unique = c.unique; tally = c.tally }

run-Counted : (t : Tracker) (rs : List Report) → All HasTime rs → Counted t → Counted (run t rs)
unfolding run
run-Counted t [] h c = c
run-Counted t (r ∷ rs) h c = run-Counted (step t r) rs h.1 (step-Counted t r h.0 c)

new_tracker-Counted : Counted new_tracker
unfolding lookup population count application
new_tracker-Counted = record { unique = tt; tally = empty_tally }
  where
    empty_tally :
        (k : CountKind) (app : String)
        → IsInFlight k
        → get (app_in new_tracker.apps app).counts k ≡ pos (population k app new_tracker.txs)
    empty_tally CountKind.pending app live = refl
    empty_tally CountKind.stalled app live = refl
    empty_tally CountKind.emitted app live = refl
    empty_tally CountKind.included app live = elim live [ ]
    empty_tally CountKind.rejected app live = elim live [ ]

enter-blocked :
    (t : Tracker) (app : String) (tx : SubmittedTx) (at : ℕ) (account : Sender)
    → (entry : Transaction) × (lookup tx.hash (enter t app tx at account).txs ≡ some entry)
      × (entry.blocked ≡ ltb account.run_end tx.nonce)
unfolding enter update_app
enter-blocked t app tx at account = (_, lookup-insert_self tx.hash _ t.txs, ground arith)

pub counts-population :
    (rs : List Report) (k : CountKind) (app : String)
    → All HasTime rs
    → IsInFlight k
    → (get (counts (run new_tracker rs) app) k ≡ pos (population k app (run new_tracker rs).txs))
      × ((tx : SubmittedTx) (at : ℕ) (account : Sender)
          → (entry : Transaction) × (lookup tx.hash
                (enter (run new_tracker rs) app tx at account).txs
              ≡ some entry)
            × (entry.blocked ≡ ltb account.run_end tx.nonce))
unfolding application
counts-population rs k app h live = (
  (run-Counted new_tracker rs h new_tracker-Counted).tally k app live,
  λ tx at account. enter-blocked (run new_tracker rs) app tx at account,
)
