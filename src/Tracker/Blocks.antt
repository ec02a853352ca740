-- ===== src/Tracker/Blocks.antt =====
-- The composition of the blocks, and their gas ceilings.
pub mod Totals
use norma.Base.{
  ℕ, suc, ◌+◌, ◌%◌, ◌^◌, Option, none, some, List, [], ◌∷◌, String, ◌==◌, string_comparable,
  if◌then◌else◌,
}
use norma.Base.Map.{Map, lookup, insert}

-- OtherTransactions
abbrev pub other_transactions : String
other_transactions = "(other)"

-- BlockContribution; gas is a 64-bit word.
pub record Contribution : Type 0 where
  pub block : ℕ
  pub transactions : ℕ
  pub gas : ℕ

pub record BlockLimit : Type 0 where
  pub block : ℕ
  pub gas_limit : ℕ
  pub event_gas_limit : ℕ
  pub gas_power_per_sec : ℕ

abbrev pub Composition : Type 0
Composition = Map String Contribution

abbrev pub or_first : Option Contribution → ℕ → Contribution
or_first none height = record { block = height; transactions = 0; gas = 0 }
or_first (some c) height = c

abbrev pub plus : Contribution → ℕ → Contribution
plus c gas_used = record c { transactions = c.transactions + 1; gas = (c.gas + gas_used) % 2 ^ 64 }

-- Adds one transaction of the block to what its application contributed.
unfoldable pub attribute : ℕ → String → ℕ → Composition → Composition
attribute height app gas_used composition =
    insert app (plus (or_first (lookup app composition) height) gas_used) composition
