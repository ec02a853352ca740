-- ===== src/Executor/Run/Production.antt =====
-- waitForBlockProduction of driver/executor/run.go: the loop until a node reports a block above the
-- one it reported first. The context of a run has a deadline (`defaultScenarioTimeout`), so in some
-- round it has ended.
use norma.Base.{
  ℕ, zero, suc, ◌+◌, ◌≡◌, ◌≤◌, ◌<◌, ◌∙◌, Bool, true, Option, none, some, String, arith, ltb, inl,
  inr, if◌then◌else◌, Bool-cases,
}
use norma.Base.Results.{Result, ok, err, Result-cases}

-- A node as the loop sees it: the first block number, the ones of the rounds, and the rounds in
-- which the context has ended.
pub record Client : Type 0 where
  pub baseline : Result String ℕ
  pub block_number : ℕ → Result String ℕ
  pub done : ℕ → Bool

pub data WaitError : Type 0 where
  unreadable : String → WaitError
  context_ended : WaitError

unfoldable pub wait_from : Client → ℕ → ℕ → ℕ → Option (Result WaitError (Unit {0}))
wait_from c baseline zero i = none
wait_from c baseline (suc fuel) i =
    let rest = wait_from c baseline fuel (suc i) in
    if c.done i then some (err context_ended) else elim (c.block_number i) [
      | err e ↦ some (err (unreadable e))
      | ok block ↦ if ltb baseline block then some (ok tt) else rest
    ]

-- Without a node to ask, the wait is skipped.
unfoldable pub wait_for_block_production : Option Client → ℕ → Option (Result WaitError (Unit {0}))
wait_for_block_production none fuel = some (ok tt)
wait_for_block_production (some c) fuel = elim c.baseline [
  | err e ↦ some (err (unreadable e))
  | ok baseline ↦ wait_from c baseline fuel 0
]

-- A round before `d` that reads a block above the first one.
abbrev pub Produced : Client → ℕ → ℕ → Type 0
Produced c baseline d = (n block : ℕ) × (n < d) × (c.block_number n ≡ ok block) × (baseline < block)

wait_from_ends :
    (c : Client) (baseline fuel i d : ℕ)
    → c.done d ≡ true
    → i ≤ d
    → d < i + fuel
    → (r : Result WaitError (Unit {0})) × (wait_from c baseline fuel i ≡ some r)
      × (r ≡ ok tt → Produced c baseline d)
unfolding wait_from
wait_from_ends c baseline zero i d h lo hi = absurd (omega arith)
wait_from_ends c baseline (suc fuel) i d h lo hi = elim (Bool-cases (c.done i)) [
  | inl late ↦ (err context_ended, rw (late, wait_from), λ p. absurd (cc))
  | inr early ↦
      let before : i < d = ground arith in
      elim (Result-cases (c.block_number i)) [
        | inr (x, e) ↦ (err (unreadable x), rw (wait_from, early, e), λ p. absurd (cc))
        | inl (block, e) ↦ elim (Bool-cases (ltb baseline block)) [
          | inl above ↦
              (ok tt, rw (wait_from, early, e, above), λ p. (i, block, before, e, ground arith))
          | inr below ↦
              let (r, f, g) =
                wait_from_ends c baseline fuel (suc i) d h (omega arith) (omega arith) in
              (r, rw (wait_from, early, e, below) f, g)
        ]
      ]
]

asked :
    (c : Client) (fuel baseline : ℕ)
    → c.baseline ≡ ok baseline
    → wait_for_block_production (some c) fuel ≡ wait_from c baseline fuel 0
unfolding wait_for_block_production wait_from
asked c fuel baseline e = rw (wait_for_block_production, e)

-- Once the context has ended in some round `d`, the wait has answered; and where it passed for a
-- node that could be asked, that node reported a block above the first one in a round before.
pub wait_for_block_production_answers :
    (c : Client) (d : ℕ)
    → c.done d ≡ true
    → (r : Result WaitError (Unit {0})) × (wait_for_block_production (some c) (suc d) ≡ some r)
      × (r ≡ ok tt → (baseline : ℕ) × (c.baseline ≡ ok baseline) × Produced c baseline d)
unfolding wait_for_block_production
wait_for_block_production_answers c d h = elim (Result-cases c.baseline) [
  | inr (x, e) ↦ (err (unreadable x), rw (wait_for_block_production, e), λ p. absurd (cc))
  | inl (baseline, e) ↦
      let (r, f, g) = wait_from_ends c baseline (suc d) 0 d h (omega arith) (omega arith) in
      (r, asked c (suc d) baseline e ∙ f, λ p. (baseline, e, g p))
]
