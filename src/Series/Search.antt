-- ===== src/Series/Search.antt =====
-- `sort.Search(n, f)`: the binary search that the series use.
use norma.Base.{
  ℕ, zero, suc, ◌+◌, ◌-◌, ◌/◌, ◌≤◌, ◌<◌, ◌≡◌, Bool, arith, ltb, leb, if◌then◌else◌, Bool-cases, inl,
  inr,
}

-- for i < j { h := (i+j)/2; if !f(h) { i = h+1 } else { j = h } }
search_from : ℕ → (ℕ → Bool) → ℕ → ℕ → ℕ
search_from zero f i j = i
search_from (suc fuel) f i j =
    let h = (i + j) / 2 in
    let left = search_from fuel f i h in
    let right = search_from fuel f (h + 1) j in if ltb i j then (if f h then left else right) else i

-- The interval shrinks each round, so its length is fuel enough.
unfoldable pub search : ℕ → (ℕ → Bool) → ℕ
unfolding search_from
search n f = search_from n f 0 n

module _ (f : ℕ → Bool) (n r : ℕ) (steps : (h : ℕ) → h < n → f h ≡ leb r h) where
  search_from_lem :
      (fuel i j : ℕ) → j - i ≤ fuel → i ≤ r → r ≤ j → j ≤ n → search_from fuel f i j ≡ r
  unfolding search_from
  search_from_lem zero i j m lo hi top = omega arith
  search_from_lem (suc fuel) i j m lo hi top = elim (Bool-cases (ltb i j)) [
    | inr stop ↦ rw stop (ground arith)
    | inl go ↦
        let h = (i + j) / 2 in
        let lt : h < j = ground arith in
        let low : i ≤ h = ground arith in
        rw (go, steps h (omega arith))
          (elim (Bool-cases (leb r h)) [
            | inl at ↦
                rw at (search_from_lem fuel i h (omega arith) lo (ground arith) (omega arith))
            | inr above ↦
                rw above (search_from_lem fuel (h + 1) j (omega arith) (ground arith) hi top)
          ])
  ]

  -- On a test that holds from index `r` on, the search finds `r`.
  pub search_lem : r ≤ n → search n f ≡ r
  unfolding search
  search_lem h = search_from_lem n 0 n (omega arith) (omega arith) h (omega arith)
