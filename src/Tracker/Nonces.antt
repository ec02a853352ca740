-- ===== src/Tracker/Nonces.antt =====
-- The nonce bookkeeping of one account, `sender` of driver/monitoring/transactions/tracker.go. A
-- nonce is a 64-bit word.
pub mod Run
use norma.Base.{
  ℕ, zero, suc, ◌+◌, ◌%◌, ◌^◌, Bool, Option, none, some, List, [], ◌∷◌, length, ltb, leb,
  if◌then◌else◌, nat_comparable,
}
use norma.Base.Map.{Map, lookup, insert, delete}

pub record Sender : Type 0 where
  pub next : ℕ
  pub run_end : ℕ
  pub in_flight : Map ℕ ℕ

abbrev pub u64 : ℕ → ℕ
u64 n = n % 2 ^ 64

abbrev pub new_sender : ℕ → Sender
new_sender nonce = record { next = nonce; run_end = nonce; in_flight = [] }

abbrev pub executable : Sender → ℕ → Bool
executable s nonce = leb nonce s.run_end

-- One found nonce of the run: it is unblocked unless it is the one that executes next.
abbrev advance_run : Sender → Sender
advance_run s = record s { run_end = u64 (s.run_end + 1) }

unfoldable pub extend_from : ℕ → Sender → Sender × List ℕ
extend_from zero s = (s, [])
extend_from (suc fuel) s =
    let (s', rest) = extend_from fuel (advance_run s) in
    elim (lookup s.run_end s.in_flight) [
      | none ↦ (s, [])
      | some hash ↦ (s', if ltb s.next s.run_end then hash ∷ rest else rest)
    ]

-- Each round finds another nonce, so one round more than there are nonces is fuel enough.
unfoldable pub extend_run : Sender → Sender × List ℕ
unfolding extend_from
extend_run s = extend_from (suc (length s.in_flight)) s

-- The account's part of `releaseNonce`.
unfoldable pub release : Sender → ℕ → Sender
release s nonce =
    let left = delete nonce s.in_flight in
    let after = u64 (nonce + 1) in
    if ltb nonce s.next then record s { in_flight = left } else record s {
      next = after;
      run_end = if ltb s.run_end after then after else s.run_end;
      in_flight = left;
    }
