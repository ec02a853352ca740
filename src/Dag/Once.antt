-- ===== src/Dag/Once.antt =====
-- A walk reads an event at most once, and only one that was not visited before.
use norma.Base.{
  ℕ, ◌≡◌, inl, inr, refl, true, false, Option, some, List, [], ◌∷◌, ◌++◌, contains, All, All-imp,
  nat_comparable, arith, subst, ◌==◌, Bool-cases, ◌||◌, ◌∙◌, ap,
}
use norma.Base.Results.{Result, ok, err}
use norma.Dag.{End, broken, Walks, finishes, stops, breaks, skips, misses, reads}

module _ {A : Type 0} where
  abbrev pub ids : List (ℕ × A) → List ℕ
  ids [] = []
  ids ((id, a) ∷ r) = id ∷ ids r

  -- No event stands twice.
  abbrev pub IsDistinct : List (ℕ × A) → Type 0
  IsDistinct [] = Unit
  IsDistinct ((id, a) ∷ r) = (contains (ids r) id ≡ false) × IsDistinct r

module _ {A E : Type 0} (fetch : ℕ → Result E (Option A)) (parents : A → List ℕ) where
  pub grows :
      {v p v' : List ℕ} {r : List (ℕ × A)} {end : End E}
      → Walks fetch parents v p r v' end
      → (x : ℕ) → contains v x ≡ true
      → contains v' x ≡ true
  grows finishes x h = h
  grows stops x h = h
  grows (breaks id e new f) x h = ground arith
  grows (skips id old w) x h = grows w x h
  grows (misses id new f w) x h = grows w x (ground arith)
  grows (reads id a new f s w) x h = grows w x (ground arith)

  -- What is read was new, is visited at the end, and is what the client answered.
  pub record IsRead (v v' : List ℕ) (entry : ℕ × A) : Type 0 where
    pub new : contains v entry.0 ≡ false
    pub visited : contains v' entry.0 ≡ true
    pub answered : fetch entry.0 ≡ ok (some entry.1)

  IsRead-cons :
      (id : ℕ) (v v' : List ℕ) (entry : ℕ × A) → IsRead (id ∷ v) v' entry → IsRead v v' entry
  IsRead-cons id v v' entry r =
      let n = r.new in
      record { new = ground (arith, n); visited = r.visited; answered = r.answered }

  pub walk-IsRead :
      {v p v' : List ℕ} {r : List (ℕ × A)} {end : End E}
      → Walks fetch parents v p r v' end
      → All (IsRead v v') r
  walk-IsRead finishes = tt
  walk-IsRead stops = tt
  walk-IsRead (breaks id e new f) = tt
  walk-IsRead (skips id old w) = walk-IsRead w
  walk-IsRead {v = v} {v' = v'} {r = r} (misses id new f w) =
      All-imp r (IsRead-cons id v v') (walk-IsRead w)
  walk-IsRead {v = v} {v' = v'} (reads {r = r} id a new f s w) = (
    record {
      new = new;
      visited = grows w id (ground (arith, nat_comparable.same_iff id id));
      answered = f;
    },
    All-imp r (IsRead-cons id v v') (walk-IsRead w),
  )

  -- A walk that breaks could not read an event.
  pub walk_broken :
      {v p v' : List ℕ} {r : List (ℕ × A)} {end : End E} (e : E)
      → Walks fetch parents v p r v' end
      → end ≡ broken e
      → (id : ℕ) × (fetch id ≡ err e)
  walk_broken e finishes h = absurd cc
  walk_broken e stops h = absurd cc
  walk_broken e (breaks id x new f) h = (id, f ∙ ap err (ground (arith, h)))
  walk_broken e (skips id old w) h = walk_broken e w h
  walk_broken e (misses id new f w) h = walk_broken e w h
  walk_broken e (reads id a new f s w) h = walk_broken e w h

  -- What stands among the events read.
  pub found :
      (v v' : List ℕ) (r : List (ℕ × A)) (x : ℕ)
      → All (IsRead v v') r
      → contains (ids r) x ≡ true
      → (contains v x ≡ false) × (contains v' x ≡ true) × ((a : A) × (fetch x ≡ ok (some a)))
  found v v' [] x h c = absurd cc
  found v v' (entry ∷ r) x (own, h) c = elim (Bool-cases (entry.0 == x)) [
    | inl same ↦
        let e : entry.0 ≡ x = (nat_comparable.same_iff entry.0 x).0 same in
        (
          subst (λ y. contains v y ≡ false) e own.new,
          subst (λ y. contains v' y ≡ true) e own.visited,
          (entry.1, subst (λ y. fetch y ≡ ok (some entry.1)) e own.answered),
        )
    | inr other ↦ found v v' r x h (ground (arith, other))
  ]

  absent :
      (id : ℕ) (v v' : List ℕ) (r : List (ℕ × A))
      → contains v id ≡ true
      → All (IsRead v v') r
      → contains (ids r) id ≡ false
  absent id v v' [] h a = refl
  absent id v v' (entry ∷ r) h (own, a) =
      let n = own.new in ground (arith, absent id v v' r h a, nat_comparable.same_iff entry.0 id, n)

  pub walk-IsDistinct :
      {v p v' : List ℕ} {r : List (ℕ × A)} {end : End E}
      → Walks fetch parents v p r v' end
      → IsDistinct r
  walk-IsDistinct finishes = tt
  walk-IsDistinct stops = tt
  walk-IsDistinct (breaks id e new f) = tt
  walk-IsDistinct (skips id old w) = walk-IsDistinct w
  walk-IsDistinct (misses id new f w) = walk-IsDistinct w
  walk-IsDistinct {v = v} {v' = v'} (reads {r = r} id a new f s w) = (
    absent id (id ∷ v) v' r (ground (arith, nat_comparable.same_iff id id)) (walk-IsRead w),
    walk-IsDistinct w,
  )

module _ {A : Type 0} where
  pub ids-append :
      (r s : List (ℕ × A)) (x : ℕ)
      → contains (ids (r ++ s)) x ≡ contains (ids r) x || contains (ids s) x
  ids-append [] s x = refl
  ids-append (entry ∷ r) s x = ground (arith, ids-append r s x)

  -- Two readings of different events together.
  pub append-IsDistinct :
      (r s : List (ℕ × A))
      → IsDistinct r
      → IsDistinct s
      → ((x : ℕ) → contains (ids r) x ≡ true → contains (ids s) x ≡ false)
      → IsDistinct (r ++ s)
  append-IsDistinct [] s d e apart = e
  append-IsDistinct (entry ∷ r) s d e apart = (
    ground (arith, ids-append r s entry.0, apart entry.0, nat_comparable.same_iff entry.0 entry.0),
    append-IsDistinct r s d.1 e (λ x h. apart x (ground (arith, h))),
  )
