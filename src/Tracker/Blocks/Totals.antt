-- ===== src/Tracker/Blocks/Totals.antt =====
-- What the applications contributed to a block adds up to the block.
use norma.Base.{
  ℕ, ◌+◌, ◌%◌, ◌^◌, ◌<◌, ◌≡◌, false, Option, none, some, inl, inr, [], ◌∷◌, String, ◌==◌,
  string_comparable, nat_comparable, arith, Option-cases, length,
}
use norma.Base.Map.{lookup, insert}
use norma.Tracker.Blocks.{Contribution, Composition, attribute, or_first, plus}

-- The sum of a figure over the applications.
unfoldable pub total : (Contribution → ℕ) → Composition → ℕ
total f [] = 0
total f ((app, c) ∷ m) = f c + total f m

abbrev of_old : (Contribution → ℕ) → Option Contribution → ℕ
of_old f none = 0
of_old f (some c) = f c

total-insert :
    (f : Contribution → ℕ) (app : String) (c : Contribution) (m : Composition)
    → total f (insert app c m) + of_old f (lookup app m) ≡ f c + total f m
unfolding total insert lookup
total-insert f app c [] = omega arith
total-insert f app c ((k, d) ∷ m) = ground (arith, total-insert f app c m)

pub transactions-attribute :
    (height : ℕ) (app : String) (gas : ℕ) (m : Composition)
    → total (λ c. c.transactions) (attribute height app gas m) ≡ total (λ c. c.transactions) m + 1
unfolding attribute
transactions-attribute height app gas m = elim (Option-cases (lookup app m)) [
  | inl e ↦
      ground (arith, total-insert (λ c. c.transactions) app (plus (or_first none height) gas) m)
  | inr (c, e) ↦ ground (arith, total-insert (λ c. c.transactions) app (plus c gas) m)
]

pub gas-attribute :
    (height : ℕ) (app : String) (gas : ℕ) (m : Composition)
    → total (λ c. c.gas) (attribute height app gas m) % 2 ^ 64
      ≡ (total (λ c. c.gas) m + gas) % 2 ^ 64
unfolding attribute
gas-attribute height app gas m = elim (Option-cases (lookup app m)) [
  | inl e ↦ ground (arith, total-insert (λ c. c.gas) app (plus (or_first none height) gas) m)
  | inr (c, e) ↦ ground (arith, total-insert (λ c. c.gas) app (plus c gas) m)
]

pub length-total :
    (f : Contribution → ℕ) (m : Composition) → 0 < total f m → (length m == 0) ≡ false
unfolding total
length-total f [] h = absurd (omega arith)
length-total f (c ∷ m) h = ground arith
