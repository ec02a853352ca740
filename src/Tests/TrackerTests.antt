-- ===== src/Tests/TrackerTests.antt =====
-- The tracker at concrete histories.
use norma.Base.{
  ltb, ℕ, ◌≤◌, ◌≡◌, refl, ◌⊎◌, ◌%◌, ◌^◌, false, none, some, List, [], ◌∷◌, arith, nat_comparable,
  string_comparable,
}
use norma.Base.Int.{pos}
use norma.Base.Map.{lookup, insert}
use norma.Tracker.Samples.{no_samples, add}
use norma.Tracker.Samples.Bounds.{IsExact, add-IsExact}
use norma.Tracker.Nonces.{Sender, extend_from, extend_run, release}
use norma.Tracker.Nonces.Run.{IsRun, IsExtended, extend_run-IsExtended, release-IsRun}
use norma.Tracker.Blocks.{Composition}
use norma.Tracker.Blocks.Totals.{total}
use norma.Tracker.Data.{
  CountKind, get, SubmittedTx, Transaction, Tracker, new_tracker, application, update_app,
}
use norma.Tracker.Populations.{population}
use norma.Tracker.Populations.Histories.{Report, submits, step, run, counts-population}
use norma.Tracker.Composed.{mark_block_totals}
use norma.Tracker.Repeats.{reports_count_once}
use norma.Tracker.{
  submitted, follow, enter, unblock, unblock_all, mark_emitted, mark_included, mark_included_app,
  mark_block, counts,
}

abbrev tx : ℕ → ℕ → SubmittedTx
tx hash nonce = record { hash = hash; nonce = nonce; from = some 77 }

-- Nonce 4, then 6 and 7 behind a gap.
abbrev history : List Report
history =
    submits "app" (tx 104 4) 10 false
    ∷ submits "app" (tx 106 6) 11 false
    ∷ submits "app" (tx 107 7) 12 false
    ∷ []

abbrev gapped : Tracker
gapped = run new_tracker history

history_stalled : get (counts gapped "app") CountKind.stalled ≡ pos 2
unfolding run step submitted follow enter unblock unblock_all extend_run extend_from application
    update_app lookup insert
history_stalled = refl

-- The gap is closed by nonce 5.
closed_stalled :
    get (counts (submitted gapped "app" (tx 105 5) 13 false) "app") CountKind.stalled ≡ pos 0
unfolding run step submitted follow enter unblock unblock_all extend_run extend_from application
    update_app lookup insert
closed_stalled = refl

counts-population_example :
    (get (counts (run new_tracker history) "app") CountKind.stalled
      ≡ pos (population CountKind.stalled "app" (run new_tracker history).txs))
    × ((t : SubmittedTx) (at : ℕ) (account : Sender)
        → (entry : Transaction) × (lookup t.hash
              (enter (run new_tracker history) "app" t at account).txs
            ≡ some entry)
          × (entry.blocked ≡ ltb account.run_end t.nonce))
counts-population_example =
    counts-population history CountKind.stalled "app" (tt, (tt, (tt, tt))) tt

abbrev foreign_block : List (ℕ × ℕ)
foreign_block = (104, 5) ∷ (9, 6) ∷ []

mark_block_totals_example :
    ((foreign_block ≡ []) × ((mark_block gapped 3 20 foreign_block).blocks ≡ gapped.blocks))
    ⊎ ((m : Composition) × (lookup 3 (mark_block gapped 3 20 foreign_block).blocks ≡ some m)
        × (total (λ c. c.transactions) m ≡ 2)
        × (total (λ c. c.gas) m % 2 ^ 64 ≡ 11 % 2 ^ 64))
mark_block_totals_example = mark_block_totals gapped 3 20 foreign_block

reports_count_once_example :
    (mark_emitted (mark_emitted gapped 104 15) 104 18 ≡ mark_emitted gapped 104 15)
    × (mark_included_app (mark_included gapped 104 15) 104 18 ≡ (mark_included gapped 104 15, none))
    × (mark_emitted (mark_included gapped 104 15) 104 18 ≡ mark_included gapped 104 15)
reports_count_once_example = reports_count_once gapped 104 15 18 (omega arith)

abbrev pool : Sender
pool = record { next = 4; run_end = 4; in_flight = (4, 104) ∷ (5, 105) ∷ (7, 107) ∷ [] }

pool-IsRun : IsRun pool
unfolding lookup
pool-IsRun = record {
  ordered = omega arith;
  filled = λ n lo hi. absurd (omega arith);
  nonces = λ n h e. ground arith;
}

extended_run : extend_run pool ≡ (record pool { run_end = 6 }, 105 ∷ [])
unfolding extend_run extend_from lookup
extended_run = refl

extend_run-IsExtended_example : IsExtended pool (extend_run pool).0
extend_run-IsExtended_example = extend_run-IsExtended pool pool-IsRun

release-IsRun_example : IsRun (release pool 5) × (lookup 5 (release pool 5).in_flight ≡ none)
release-IsRun_example = release-IsRun pool 5 (omega arith) pool-IsRun

no_samples-IsExact : IsExact no_samples
no_samples-IsExact = record { room = omega arith; exact = omega arith; unset = λ e. (refl, refl) }

add-IsExact_example :
    IsExact (add no_samples 3 5)
    × ((add no_samples 3 5).seen ≡ 1)
    × (0 ≤ (add no_samples 3 5).stride)
add-IsExact_example = add-IsExact no_samples 3 5 no_samples-IsExact
