-- ===== src/Checking/Snapshots/Pushed.antt =====
-- The stack of a count: parents that were seen are left out.
use norma.Base.{
  ℕ, ◌+◌, ◌≤◌, ◌≡◌, ◌⊎◌, inl, inr, true, List, [], ◌∷◌, contains, nat_comparable, ◌==◌,
  if◌then◌else◌, Bool-cases, length, arith, subst,
}
use norma.Dag.{IsPushed}
use norma.Checking.Snapshots.{push_unseen}

pub contains-push_unseen :
    (v xs stack : List ℕ) (a : ℕ)
    → contains (push_unseen v xs stack) a ≡ true
    → (contains stack a ≡ true) ⊎ (contains xs a ≡ true)
unfolding push_unseen
contains-push_unseen v [] stack a h = inl h
contains-push_unseen v (x ∷ xs) stack a h =
    ground (arith, contains-push_unseen v xs (if contains v x then stack else x ∷ stack) a)

push_unseen-keeps :
    (v xs stack : List ℕ) (a : ℕ)
    → contains stack a ≡ true
    → contains (push_unseen v xs stack) a ≡ true
unfolding push_unseen
push_unseen-keeps v [] stack a h = h
push_unseen-keeps v (x ∷ xs) stack a h =
    push_unseen-keeps v xs (if contains v x then stack else x ∷ stack) a (ground arith)

push_unseen-known :
    (v xs stack : List ℕ) (a : ℕ)
    → contains xs a ≡ true
    → (contains v a ≡ true) ⊎ (contains (push_unseen v xs stack) a ≡ true)
unfolding push_unseen
push_unseen-known v [] stack a h = absurd cc
push_unseen-known v (x ∷ xs) stack a h = elim (Bool-cases (contains v x)) [
  | inl seen ↦ elim (Bool-cases (x == a)) [
    | inl same ↦ inl (subst (λ y. contains v y ≡ true) ((nat_comparable.same_iff x a).0 same) seen)
    | inr other ↦ rw seen (push_unseen-known v xs stack a (ground (arith, other)))
  ]
  | inr new ↦ elim (Bool-cases (x == a)) [
    | inl same ↦ inr (rw new (push_unseen-keeps v xs (x ∷ stack) a (ground (arith, same))))
    | inr other ↦ rw new (push_unseen-known v xs (x ∷ stack) a (ground (arith, other)))
  ]
]

pub length-push_unseen :
    (v xs stack : List ℕ) → length (push_unseen v xs stack) ≤ length xs + length stack
unfolding push_unseen
length-push_unseen v [] stack = omega arith
length-push_unseen v (x ∷ xs) stack =
    ground (arith, length-push_unseen v xs (if contains v x then stack else x ∷ stack))

pub push_unseen-IsPushed : (v ps stack : List ℕ) → IsPushed v ps stack (push_unseen v ps stack)
push_unseen-IsPushed v ps stack = record {
  known = push_unseen-known v ps stack;
  kept = push_unseen-keeps v ps stack;
  origin = contains-push_unseen v ps stack;
}
