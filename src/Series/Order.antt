-- ===== src/Series/Order.antt =====
-- The order of the points of a series, and what an append does to it.
use norma.Base.{
  ℕ, ◌≤◌, ◌<◌, ◌≡◌, refl, ◌⊎◌, inl, inr, none, some, List, [], ◌∷◌, ◌++◌, All, last?, leb, arith,
  Option-cases, Bool-cases,
}
use norma.Series.{DataPoint, SyncedSeries, out_of_order_append, append}

module _ {ℓ} {T : Type ℓ} where
  -- Positions rise strictly.
  abbrev pub IsSorted : List (DataPoint T) → Type 0
  IsSorted [] = Unit
  IsSorted (p ∷ ps) = All (λ q. p.position < q.position) ps × IsSorted ps

  pub All-lt_mono :
      (j k : ℕ) (ps : List (DataPoint T))
      → j ≤ k
      → All (λ q. k < q.position) ps
      → All (λ q. j < q.position) ps
  All-lt_mono j k [] h a = tt
  All-lt_mono j k (p ∷ ps) h a = (omega arith, All-lt_mono j k ps h a.1)

  snoc-IsSorted :
      (ps : List (DataPoint T)) (x : DataPoint T)
      → IsSorted ps
      → ((q : DataPoint T) → last? ps ≡ some q → q.position < x.position)
      → IsSorted (ps ++ x ∷ [])
  snoc-IsSorted [] x s h = (tt, tt)
  snoc-IsSorted (p ∷ []) x s h = ((h p refl, tt), (tt, tt))
  snoc-IsSorted (p ∷ r ∷ ps) x s h =
      let ih : IsSorted ((r ∷ ps) ++ x ∷ []) = snoc-IsSorted (r ∷ ps) x s.1 h in
      ((s.0.0, All-lt_mono p.position r.position (ps ++ x ∷ []) (omega arith) ih.0), ih)

  -- The position of the last point is below `k`, or there is no point.
  abbrev pub EndsBelow : ℕ → SyncedSeries T → Type ℓ
  EndsBelow k s = (q : DataPoint T) → last? s.points ≡ some q → q.position < k

  append_below :
      (s : SyncedSeries T) (k : ℕ) (v : T)
      → EndsBelow k s
      → append s k v
        ≡ (record s { points = s.points ++ record { position = k; value = v } ∷ [] }, none)
  unfolding append
  append_below s k v h = elim (Option-cases (last? s.points)) [
    | inl e ↦ rw (e, append)
    | inr (q, e) ↦ let lt = h q e in rw (e, append) (ground arith)
  ]

  append_above :
      (s : SyncedSeries T) (k : ℕ) (v : T) (q : DataPoint T)
      → last? s.points ≡ some q
      → k ≤ q.position
      → append s k v ≡ (s, some out_of_order_append)
  unfolding append
  append_above s k v q e h = rw (e, append) (ground arith)

  -- Appending in order stores the point at the end; appending out of order fails and stores
  -- nothing. Either way a sorted series stays sorted.
  pub append-IsSorted :
      (s : SyncedSeries T) (k : ℕ) (v : T)
      → IsSorted s.points
      → IsSorted (append s k v).0.points
        × ((EndsBelow k s
              × (append s k v ≡ (
                record s { points = s.points ++ record { position = k; value = v } ∷ [] },
                none,
              )))
            ⊎ ((q : DataPoint T) × (last? s.points ≡ some q)
                × (k ≤ q.position)
                × (append s k v ≡ (s, some out_of_order_append))))
  append-IsSorted s k v sorted = elim (Option-cases (last? s.points)) [
    | inl e ↦ below (λ q e'. cc)
    | inr (q, e) ↦ elim (Bool-cases (leb k q.position)) [
      | inl at ↦
          let same = append_above s k v q e (ground arith) in
          (rw same sorted, inr (q, e, ground arith, same))
      | inr above ↦ below (λ q' e'. ground arith)
    ]
  ]
    where
      below :
          EndsBelow k s
          → IsSorted (append s k v).0.points
            × ((EndsBelow k s
                  × (append s k v ≡ (
                    record s { points = s.points ++ record { position = k; value = v } ∷ [] },
                    none,
                  )))
                ⊎ ((q : DataPoint T) × (last? s.points ≡ some q)
                    × (k ≤ q.position)
                    × (append s k v ≡ (s, some out_of_order_append))))
      below h =
          let stored = append_below s k v h in
          (rw stored (snoc-IsSorted s.points _ sorted h), inl (h, stored))
