-- ===== src/Tracker/Composed.antt =====
-- The composition that `MarkBlock` records.
use norma.Base.{
  ℕ, ◌+◌, ◌%◌, ◌^◌, ◌≡◌, refl, ◌⊎◌, ◌∙◌, some, inl, inr, List, [], ◌∷◌, ◌==◌, nat_comparable,
  string_comparable, arith, length, false,
}
use norma.Base.Map.{lookup, lookup-insert_self}
use norma.Tracker.Blocks.{Composition, attribute}
use norma.Tracker.Blocks.Totals.{total, transactions-attribute, gas-attribute, length-total}
use norma.Tracker.Data.{Tracker}
use norma.Tracker.{mark_included_app, mark_transactions, mark_block, or_other}

-- The gas that the transactions of a block used.
abbrev pub gas_used : List (ℕ × ℕ) → ℕ
gas_used [] = 0
gas_used ((hash, gas) ∷ txs) = gas + gas_used txs

mark_transactions-total :
    (height at : ℕ) (txs : List (ℕ × ℕ)) (t : Tracker) (m : Composition)
    → let m' = (mark_transactions height at txs t m).1 in
      (total (λ c. c.transactions) m' ≡ total (λ c. c.transactions) m + length txs)
      × (total (λ c. c.gas) m' % 2 ^ 64 ≡ (total (λ c. c.gas) m + gas_used txs) % 2 ^ 64)
unfolding mark_transactions
mark_transactions-total height at [] t m = (omega arith, omega arith)
mark_transactions-total height at ((hash, gas) ∷ txs) t m =
    let (t', app) = mark_included_app t hash at in
    let m' = attribute height (or_other app) gas m in
    let ih = mark_transactions-total height at txs t' m' in
    (
      omega (arith, ih.0, transactions-attribute height (or_other app) gas m),
      omega (arith, ih.1, gas-attribute height (or_other app) gas m),
    )

-- Whatever the tracker follows, a block with transactions is recorded with a composition whose
-- contributions add up to the number of its transactions, and to the gas that they used (as a
-- 64-bit word); a block without transactions records no composition.
pub mark_block_totals :
    (t : Tracker) (height at : ℕ) (txs : List (ℕ × ℕ))
    → ((txs ≡ []) × ((mark_block t height at txs).blocks ≡ t.blocks))
      ⊎ ((m : Composition) × (lookup height (mark_block t height at txs).blocks ≡ some m)
          × (total (λ c. c.transactions) m ≡ length txs)
          × (total (λ c. c.gas) m % 2 ^ 64 ≡ gas_used txs % 2 ^ 64))
unfolding mark_block mark_transactions total
mark_block_totals t height at [] = inl (refl, refl)
mark_block_totals t height at (tx ∷ txs) =
    let done = mark_transactions height at (tx ∷ txs) t [] in
    let sums = mark_transactions-total height at (tx ∷ txs) t [] in
    let some_seen : (length done.1 == 0) ≡ false =
      length-total (λ c. c.transactions) done.1 (omega arith) in
    inr (
      done.1,
      rw some_seen (lookup-insert_self height done.1 done.0.blocks),
      sums.0 ∙ omega arith,
      sums.1 ∙ omega arith,
    )
