-- ===== src/Dag/Ancestors.antt =====
-- A walk that ends with nothing pending has visited all the ancestors, and it reads nothing else.
use norma.Base.{
  ℕ, ◌≡◌, ◌⊎◌, inl, inr, refl, true, false, Option, some, List, ◌∷◌, contains, nat_comparable, ◌==◌,
  arith, Bool-cases, sym, ◌∙◌, ◌↔◌,
}
use norma.Base.Results.{Result, ok}
use norma.Dag.{
  End, finished, Walks, finishes, stops, breaks, skips, misses, reads, Reaches, pending, parent,
  IsClosed,
}
use norma.Dag.Once.{grows, ids, walk-IsRead, found}

module _ {A E : Type 0} (fetch : ℕ → Result E (Option A)) (parents : A → List ℕ) where
  -- The parents of every visited event are visited or pending.
  IsOpen : List ℕ → List ℕ → Type 0
  IsOpen v p =
      (x y : ℕ) (a : A)
      → contains v y ≡ true
      → fetch y ≡ ok (some a)
      → contains (parents a) x ≡ true
      → (contains v x ≡ true) ⊎ (contains p x ≡ true)

  closes :
      {v p v' : List ℕ} {r : List (ℕ × A)} {end : End E}
      → Walks fetch parents v p r v' end
      → end ≡ finished
      → IsOpen v p
      → IsClosed fetch parents v'
  unfolding IsOpen
  closes finishes e o = λ x y a h f c. elim (o x y a h f c) [ inl k ↦ k | inr none_left ↦ cc ]
  closes stops e o = absurd cc
  closes (breaks id x new f) e o = absurd cc
  closes (skips id old w) e o =
      closes w e λ x y a h f c. ground (arith, o x y a h f c, nat_comparable.same_iff id x)
  closes (misses id new f w) e o = closes w e λ x y a h g c.
      ground (arith, f, o x y a, nat_comparable.same_iff id y, nat_comparable.same_iff id x)
  closes {v = v} {p = p} (reads {p' = p'} id a new f s w) e o = closes w e λ x y b h g c.
      elim (Bool-cases (id == y)) [
        | inl same ↦ ground (arith, s.known x, f, g, c, nat_comparable.same_iff id y)
        | inr other ↦ ground (arith, o x y b, g, c, s.kept x, nat_comparable.same_iff id x)
      ]

  visits :
      {v p v' : List ℕ} {r : List (ℕ × A)} {end : End E}
      → Walks fetch parents v p r v' end
      → end ≡ finished
      → (x : ℕ) → contains p x ≡ true
      → contains v' x ≡ true
  visits finishes e x h = absurd cc
  visits stops e x h = absurd cc
  visits (breaks id y new f) e x h = absurd cc
  visits (skips id old w) e x h =
      ground (arith, visits w e x, grows fetch parents w id, nat_comparable.same_iff id x)
  visits (misses id new f w) e x h = ground (
    arith,
    visits w e x,
    grows fetch parents w id,
    nat_comparable.same_iff id x,
    nat_comparable.same_iff id id,
  )
  visits (reads id a new f s w) e x h = ground (
    arith,
    visits w e x,
    s.kept x,
    grows fetch parents w id,
    nat_comparable.same_iff id x,
    nat_comparable.same_iff id id,
  )

  onward :
      (v p : List ℕ) {x : ℕ}
      → IsClosed fetch parents v
      → ((y : ℕ) → contains p y ≡ true → contains v y ≡ true)
      → Reaches fetch parents p x
      → contains v x ≡ true
  onward v p {x = x} closed within (pending h) = within x h
  onward v p closed within (parent {x = x} {y = y} {a = a} r f c) =
      closed x y a (onward v p closed within r) f c

  through :
      (p q : List ℕ) {x : ℕ}
      → ((y : ℕ) → contains q y ≡ true → Reaches fetch parents p y)
      → Reaches fetch parents q x
      → Reaches fetch parents p x
  through p q {x = x} within (pending h) = within x h
  through p q within (parent r f c) = parent (through p q within r) f c

  first_pending : (id : ℕ) (p : List ℕ) → Reaches fetch parents (id ∷ p) id
  first_pending id p = pending (ground (arith, nat_comparable.same_iff id id))

  pending_later :
      (id : ℕ) (p : List ℕ) {x : ℕ} → Reaches fetch parents p x → Reaches fetch parents (id ∷ p) x
  pending_later id p = through (id ∷ p) p (λ y h. pending (ground arith))

  here_or_before :
      (id x : ℕ) (v p : List ℕ)
      → contains (id ∷ v) x ≡ true
      → (contains v x ≡ true) ⊎ Reaches fetch parents (id ∷ p) x
  here_or_before id x v p h = elim (Bool-cases (id == x)) [
    | inl same ↦ inr (pending (ground (arith, same)))
    | inr other ↦ inl (ground (arith, other))
  ]

  stems :
      {v p v' : List ℕ} {r : List (ℕ × A)} {end : End E}
      → Walks fetch parents v p r v' end
      → (x : ℕ) → contains v' x ≡ true
      → (contains v x ≡ true) ⊎ Reaches fetch parents p x
  stems finishes x h = inl h
  stems stops x h = inl h
  stems {v = v} (breaks {p = p} id e new f) x h = here_or_before id x v p h
  stems (skips {p = p} id old w) x h = elim (stems w x h) [
    | inl k ↦ inl k
    | inr r ↦ inr (pending_later id p r)
  ]
  stems {v = v} (misses {p = p} id new f w) x h = elim (stems w x h) [
    | inl k ↦ here_or_before id x v p k
    | inr r ↦ inr (pending_later id p r)
  ]
  stems {v = v} (reads {p = p} {p' = p'} id a new f s w) x h = elim (stems w x h) [
    | inl k ↦ here_or_before id x v p k
    | inr r ↦ inr (
        through (id ∷ p) p'
          (λ y k. elim (s.origin y k) [
            | inl old ↦ pending_later id p (pending old)
            | inr c ↦ parent (first_pending id p) f c
          ])
          r)
  ]

  read_if_new :
      {v p v' : List ℕ} {r : List (ℕ × A)} {end : End E}
      → Walks fetch parents v p r v' end
      → (x : ℕ) (a : A) → contains v' x ≡ true
      → contains v x ≡ false
      → fetch x ≡ ok (some a)
      → contains (ids r) x ≡ true
  read_if_new finishes x a h n f = absurd (ground arith)
  read_if_new stops x a h n f = absurd (ground arith)
  read_if_new (breaks id e new g) x a h n f = ground (arith, nat_comparable.same_iff id x, f, g)
  read_if_new (skips id old w) x a h n f = read_if_new w x a h n f
  read_if_new (misses id new g w) x a h n f =
      ground (arith, nat_comparable.same_iff id x, f, g, read_if_new w x a h)
  read_if_new (reads id b new g s w) x a h n f =
      ground (arith, nat_comparable.same_iff id x, f, g, read_if_new w x a h)

  -- From a closed set of visited events, a walk that finishes leads to a closed one: of the events
  -- pending and all their ancestors it has added those that were not there, and it has read those
  -- that exist.
  pub record IsExplored (v p : List ℕ) (r : List (ℕ × A)) (v' : List ℕ) : Type 0 where
    pub closed : IsClosed fetch parents v'
    pub visited :
        (x : ℕ) → (contains v' x ≡ true) ↔ ((contains v x ≡ true) ⊎ Reaches fetch parents p x)
    pub listed :
        (x : ℕ)
        → (contains (ids r) x ≡ true) ↔ (
            Reaches fetch parents p x
            × (contains v x ≡ false)
            × ((a : A) × (fetch x ≡ ok (some a))))

  pub walk-IsExplored :
      {v p v' : List ℕ} {r : List (ℕ × A)}
      → Walks fetch parents v p r v' finished
      → IsClosed fetch parents v
      → IsExplored v p r v'
  unfolding IsOpen
  walk-IsExplored {v = v} {p = p} {v' = v'} {r = r} w closed =
      let closed' = closes w refl (λ x y a h f c. inl (closed x y a h f c)) in
      record {
        closed = closed';
        visited = λ x. (
          stems w x,
          λ h. elim h [
            | inl old ↦ grows fetch parents w x old
            | inr reached ↦ onward v' p closed' (visits w refl) reached
          ],
        );
        listed = λ x. (
          λ h.
              let (new, seen, exists) =
                found fetch parents v v' r x (walk-IsRead fetch parents w) h in
              (
                elim (stems w x seen) [
                  | inl old ↦ absurd (ground (arith, old, new))
                  | inr reached ↦ reached
                ],
                new,
                exists,
              ),
          λ (reached, new, (a, f)).
              read_if_new w x a (onward v' p closed' (visits w refl) reached) new f,
        );
      }

  -- The order of what is pending does not matter.
  pub IsExplored-same :
      (v p q : List ℕ) (r : List (ℕ × A)) (v' : List ℕ)
      → ((x : ℕ) → contains p x ≡ contains q x)
      → IsExplored v p r v'
      → IsExplored v q r v'
  IsExplored-same v p q r v' same w =
      let to : (x : ℕ) → Reaches fetch parents p x → Reaches fetch parents q x =
        λ x. through q p (λ y h. pending (sym (same y) ∙ h)) in
      let from : (x : ℕ) → Reaches fetch parents q x → Reaches fetch parents p x =
        λ x. through p q (λ y h. pending (same y ∙ h)) in
      record {
        closed = w.closed;
        visited = λ x. (
          λ h. elim ((w.visited x).0 h) [ inl old ↦ inl old | inr new ↦ inr (to x new) ],
          λ h. (w.visited x).1 (elim h [ inl old ↦ inl old | inr new ↦ inr (from x new) ]),
        );
        listed = λ x. (
          λ h. let (reached, new, exists) = (w.listed x).0 h in (to x reached, new, exists),
          λ (reached, new, exists). (w.listed x).1 (from x reached, new, exists),
        );
      }
