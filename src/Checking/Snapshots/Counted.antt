-- ===== src/Checking/Snapshots/Counted.antt =====
-- What a snapshot counts: the events of every validator among the heads and their ancestors.
use norma.Base.{
  ℕ, zero, suc, ◌+◌, ◌<◌, ◌≡◌, ◌↔◌, inl, inr, refl, ap, ◌∙◌, true, false, Option, none, some, List,
  [], ◌∷◌, contains, nat_comparable, Bool-cases, Option-cases, All, All-imp, length, arith,
  some_injective, ◌==◌,
}
use norma.Base.Map.{Map, one_if, lookup, lookup-insert}
use norma.Base.Results.{Result, ok, err, Result-cases, ok_injective}
use norma.Dag.{
  push_all, contains-push_all, length-push_all, finished, Walks, finishes, skips, misses, reads,
  Reaches,
}
use norma.Dag.Once.{IsDistinct, walk-IsDistinct, ids, walk-IsRead}
use norma.Dag.Ancestors.{walk-IsExplored, IsExplored-same}
use norma.Dag.Bound.{degree, unread, IsUniverse, unread_spent}
use norma.Checking.Snapshots.Pushed.{contains-push_unseen, length-push_unseen, push_unseen-IsPushed}
use norma.Checking.Snapshots.{
  ThrottleError, interrupted, RawEvent, DagClient, count_of, count_event, push_unseen, count_from,
  count_events_from_heads,
}

abbrev pub parents_of : RawEvent → List ℕ
parents_of e = e.parents

-- How many of the events a validator created.
unfoldable pub number_by : ℕ → List (ℕ × RawEvent) → ℕ
number_by c [] = 0
number_by c ((id, e) ∷ r) = one_if (e.creator == c) + number_by c r

-- One event counts for its creator.
count_of-count_event :
    (c : ℕ) (e : RawEvent) (counts : Map ℕ ℕ)
    → count_of c (count_event e counts) ≡ count_of c counts + one_if (e.creator == c)
count_of-count_event c e counts = ground (
  arith,
  lookup-insert e.creator c (count_of e.creator counts + 1) counts,
  nat_comparable.same_iff e.creator c,
  ap (λ k. count_of k counts),
)

module _ (client : DagClient) where
  count-Walks :
      (fuel i : ℕ) (queue visited : List ℕ) (counts counts' : Map ℕ ℕ)
      → count_from client fuel i queue visited counts ≡ some (ok counts')
      → (read : List (ℕ × RawEvent)) × (visited' : List ℕ) × Walks client.dag_event parents_of
          visited queue read visited' finished
        × ((c : ℕ) → count_of c counts' ≡ count_of c counts + number_by c read)
  unfolding count_from number_by
  count-Walks zero i queue visited counts counts' h = absurd cc
  count-Walks (suc fuel) i [] visited counts counts' h =
      let same = ok_injective counts counts' (some_injective (ok counts) (ok counts') h) in
      ([], visited, finishes, λ c. omega (arith, ap (count_of c) same))
  count-Walks (suc fuel) i (id ∷ queue) visited counts counts' h =
      elim (Bool-cases (client.cancelled i)) [
        | inl late ↦ absurd (ground (arith, h, late))
        | inr early ↦ elim (Bool-cases (contains visited id)) [
          | inl old ↦
              let (read, v, w, tally) =
                count-Walks fuel (suc i) queue visited counts counts'
                  (rw (count_from, early, old) at h) in
              (read, v, skips id old w, tally)
          | inr new ↦ elim (Result-cases (client.dag_event id)) [
            | inr (e, f) ↦ absurd (ground (arith, h, early, new, f))
            | inl (found, f) ↦ elim (Option-cases found) [
              | inl gone ↦
                  let payload : client.dag_event id ≡ ok none = f ∙ ap ok gone in
                  let (read, v, w, tally) =
                    count-Walks fuel (suc i) queue (id ∷ visited) counts counts'
                      (rw (count_from, early, new, payload) at h) in
                  (read, v, misses id new payload w, tally)
              | inr (event, there) ↦
                  let payload : client.dag_event id ≡ ok (some event) = f ∙ ap ok there in
                  let (read, v, w, tally) =
                    count-Walks fuel (suc i) (push_unseen (id ∷ visited) event.parents queue)
                      (id ∷ visited) (count_event event counts) counts'
                      (rw (count_from, early, new, payload) at h) in
                  (
                    (id, event) ∷ read,
                    v,
                    reads id event new payload
                        (push_unseen-IsPushed (id ∷ visited) event.parents queue) w,
                    λ c. omega (arith, tally c, count_of-count_event c event counts),
                  )
            ]
          ]
        ]
      ]

  -- The events of `read` are the heads and their ancestors, as far as they exist, each once; and every
  -- validator has as many as it created.
  pub record IsCounted (heads : List ℕ) (counts : Map ℕ ℕ) (read : List (ℕ × RawEvent))
      : Type 0 where
    pub distinct : IsDistinct read
    pub listed :
        (x : ℕ)
        → (contains (ids read) x ≡ true) ↔ (
            Reaches client.dag_event parents_of heads x
            × ((e : RawEvent) × (client.dag_event x ≡ ok (some e))))
    pub answered : All (λ entry. client.dag_event entry.0 ≡ ok (some entry.1)) read
    pub tally : (c : ℕ) → count_of c counts ≡ number_by c read

  pub count-IsCounted :
      (fuel : ℕ) (heads : List ℕ) (counts : Map ℕ ℕ)
      → count_events_from_heads client fuel heads ≡ some (ok counts)
      → (read : List (ℕ × RawEvent)) × IsCounted heads counts read
  unfolding lookup
  count-IsCounted fuel heads counts h =
      let (read, v, w, tally) = count-Walks fuel 0 (push_all heads []) [] [] counts h in
      let pushed : (x : ℕ) → contains (push_all heads []) x ≡ contains heads x =
        λ x. ground (arith, contains-push_all heads [] x) in
      let explored =
        IsExplored-same client.dag_event parents_of [] (push_all heads []) heads read v pushed
          (walk-IsExplored client.dag_event parents_of w (λ x y a k. absurd cc)) in
      (
        read,
        record {
          distinct = walk-IsDistinct client.dag_event parents_of w;
          listed = λ x. (
            λ k. let (reached, new, exists) = (explored.listed x).0 k in (reached, exists),
            λ (reached, exists). (explored.listed x).1 (reached, refl, exists),
          );
          answered =
              All-imp read (λ entry r. r.answered) (walk-IsRead client.dag_event parents_of w);
          tally = λ c. omega (arith, tally c);
        },
      )

  -- A count that succeeds has counted; one that fails could not read an event.
  abbrev pub IsTallied : List ℕ → Result ThrottleError (Map ℕ ℕ) → Type 0
  IsTallied heads (ok counts) = (read : List (ℕ × RawEvent)) × IsCounted heads counts read
  IsTallied heads (err e) = (id : ℕ) × (client.dag_event id ≡ err e)

  failed_at :
      (fuel i : ℕ) (queue visited : List ℕ) (counts : Map ℕ ℕ) (e : ThrottleError)
      → ((j : ℕ) → client.cancelled j ≡ false)
      → count_from client fuel i queue visited counts ≡ some (err e)
      → (id : ℕ) × (client.dag_event id ≡ err e)
  unfolding count_from
  failed_at zero i queue visited counts e live h = absurd cc
  failed_at (suc fuel) i [] visited counts e live h = absurd (ground (arith, h))
  failed_at (suc fuel) i (id ∷ queue) visited counts e live h =
      elim (Bool-cases (contains visited id)) [
        | inl old ↦
            failed_at fuel (suc i) queue visited counts e live (rw (count_from, live i, old) at h)
        | inr new ↦ elim (Result-cases (client.dag_event id)) [
          | inr (x, f) ↦ (id, f ∙ err_same x (rw (count_from, live i, new, f) at h))
          | inl (found, f) ↦ elim (Option-cases found) [
            | inl gone ↦
                let payload : client.dag_event id ≡ ok none = f ∙ ap ok gone in
                failed_at fuel (suc i) queue (id ∷ visited) counts e live
                  (rw (count_from, live i, new, payload) at h)
            | inr (event, there) ↦
                let payload : client.dag_event id ≡ ok (some event) = f ∙ ap ok there in
                failed_at fuel (suc i) (push_unseen (id ∷ visited) event.parents queue)
                  (id ∷ visited) (count_event event counts) e live
                  (rw (count_from, live i, new, payload) at h)
          ]
        ]
      ]
    where
      err_same :
          (x : ThrottleError)
          → ◌≡◌ {A = Option (Result ThrottleError (Map ℕ ℕ))} (some (err x)) (some (err e))
          → ◌≡◌ {A = Result ThrottleError (Option RawEvent)} (err x) (err e)
      err_same x same = ap err (ground (arith, same))

  count_ends :
      (us : List ℕ) (fuel i : ℕ) (queue visited : List ℕ) (counts : Map ℕ ℕ)
      → IsUniverse client.dag_event parents_of us
      → ((x : ℕ) → contains queue x ≡ true → contains us x ≡ true)
      → length queue + unread client.dag_event parents_of visited us < fuel
      → (r : Result ThrottleError (Map ℕ ℕ)) × (count_from client fuel i queue visited counts
          ≡ some r)
  unfolding count_from
  count_ends us zero i queue visited counts u within enough = absurd (omega arith)
  count_ends us (suc fuel) i [] visited counts u within enough = (ok counts, refl)
  count_ends us (suc fuel) i (id ∷ queue) visited counts u within enough =
      elim (Bool-cases (client.cancelled i)) [
        | inl late ↦ (err interrupted, rw (count_from, late) refl)
        | inr early ↦ elim (Bool-cases (contains visited id)) [
          | inl old ↦
              let (r, e) =
                count_ends us fuel (suc i) queue visited counts u (λ x h. within x (ground arith))
                  (omega arith) in
              (r, rw (count_from, early, old) e)
          | inr new ↦
              let known = within id (ground (arith, nat_comparable.same_iff id id)) in
              let spent = unread_spent client.dag_event parents_of id visited us new known in
              elim (Result-cases (client.dag_event id)) [
                | inr (e, f) ↦ (err e, rw (count_from, early, new, f) refl)
                | inl (found, f) ↦ elim (Option-cases found) [
                  | inl gone ↦
                      let payload : client.dag_event id ≡ ok none = f ∙ ap ok gone in
                      let (r, e) =
                        count_ends us fuel (suc i) queue (id ∷ visited) counts u
                          (λ x h. within x (ground arith)) (omega arith) in
                      (r, rw (count_from, early, new, payload) e)
                  | inr (event, there) ↦
                      let payload : client.dag_event id ≡ ok (some event) = f ∙ ap ok there in
                      let cost : degree client.dag_event parents_of id ≡ length event.parents =
                        rw (degree, payload) refl in
                      let (r, e) =
                        count_ends us fuel (suc i) (push_unseen (id ∷ visited) event.parents queue)
                          (id ∷ visited) (count_event event counts) u
                          (λ x h.
                            elim (contains-push_unseen (id ∷ visited) event.parents queue x h) [
                              | inl old ↦ within x (ground (arith, old))
                              | inr c ↦ u x id event known payload c
                            ])
                          (omega (arith, length-push_unseen (id ∷ visited) event.parents queue)) in
                      (r, rw (count_from, early, new, payload) e)
                ]
              ]
        ]
      ]

  -- A count in a context that goes on returns, where the heads and all their ancestors are among
  -- finitely many events `us`, with fuel for the heads and the parents of these events. It fails only on an
  -- event that cannot be read; else it has counted, for every validator, the events that it created
  -- among the heads and their ancestors, each event once and no other.
  pub count_events-IsTallied :
      (us : List ℕ) (fuel : ℕ) (heads : List ℕ)
      → ((i : ℕ) → client.cancelled i ≡ false)
      → IsUniverse client.dag_event parents_of us
      → ((x : ℕ) → contains heads x ≡ true → contains us x ≡ true)
      → length heads + unread client.dag_event parents_of [] us < fuel
      → (r : Result ThrottleError (Map ℕ ℕ)) × (count_events_from_heads client fuel heads ≡ some r)
        × IsTallied heads r
  count_events-IsTallied us fuel heads live universe within enough =
      let (r, returns) =
        count_ends us fuel 0 (push_all heads []) [] [] universe
          (λ x h. within x (ground (arith, h, contains-push_all heads [] x)))
          (omega (arith, length-push_all heads [])) in
      (r, returns, tallied r returns)
    where
      tallied :
          (r : Result ThrottleError (Map ℕ ℕ))
          → count_events_from_heads client fuel heads ≡ some r
          → IsTallied heads r
      tallied (err e) h = failed_at fuel 0 (push_all heads []) [] [] e live h
      tallied (ok counts) h = let (read, c) = count-IsCounted fuel heads counts h in (read, c)
