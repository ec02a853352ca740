-- ===== src/Dag/Bound.antt =====
-- How long a walk can be: every event that is not visited yet pushes its parents once.
use norma.Base.{
  ℕ, ◌+◌, ◌≤◌, ◌≡◌, true, false, Option, some, List, [], ◌∷◌, contains, length, nat_comparable,
  ◌==◌, arith, if◌then◌else◌, Bool-cases, subst, sym, inl, inr, ap,
}
use norma.Base.Results.{Result, ok}

module _ {A E : Type 0} (fetch : ℕ → Result E (Option A)) (parents : A → List ℕ) where
  abbrev pub degree : ℕ → ℕ
  degree id = elim (fetch id) [ ok (some a) ↦ length (parents a) | _ ↦ 0 ]

  -- The parents of the events of `us` that are not visited.
  unfoldable pub unread : List ℕ → List ℕ → ℕ
  unread v [] = 0
  unread v (u ∷ us) = (if contains v u then 0 else degree u) + unread v us

  -- The events of `us` have their parents among them.
  abbrev pub IsUniverse : List ℕ → Type 0
  IsUniverse us =
      (x y : ℕ) (a : A)
      → contains us y ≡ true
      → fetch y ≡ ok (some a)
      → contains (parents a) x ≡ true
      → contains us x ≡ true

  pub unread_less : (id : ℕ) (v us : List ℕ) → unread (id ∷ v) us ≤ unread v us
  unfolding unread
  unread_less id v [] = omega arith
  unread_less id v (u ∷ us) = ground (arith, unread_less id v us)

  pub unread_fewer : (v us : List ℕ) → unread v us ≤ unread [] us
  unfolding unread
  unread_fewer v [] = omega arith
  unread_fewer v (u ∷ us) = ground (arith, unread_fewer v us)

  pub unread_spent :
      (id : ℕ) (v us : List ℕ)
      → contains v id ≡ false
      → contains us id ≡ true
      → unread (id ∷ v) us + degree id ≤ unread v us
  unfolding unread
  unread_spent id v [] n c = absurd cc
  unread_spent id v (u ∷ us) n c = elim (Bool-cases (u == id)) [
    | inr other ↦ ground (arith, other, unread_spent id v us n)
    | inl same ↦
        let e : u ≡ id = (nat_comparable.same_iff u id).0 same in
        let d : degree u ≡ degree id = ap degree e in
        let old : contains v u ≡ false = subst (λ x. contains v x ≡ false) (sym e) n in
        ground (arith, d, old, nat_comparable.same_iff id u, unread_less id v us)
  ]
