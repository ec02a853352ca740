-- ===== src/Base/Lists.antt =====
-- Lists measured and indexed by native numbers, under the library's names.
use Prim.Native.Nat.{ℕ, zero, suc, ◌+◌}
use mathlib.Core.Path.{◌≡◌, refl}
use mathlib.Core.Logic.{◌⊎◌, ◌↔◌, inl, inr}
use mathlib.Core.Bool.{Bool, true, false, ◌&&◌, ◌||◌}
use mathlib.Core.List.{List, [], ◌∷◌, ◌++◌}
use mathlib.Core.Option.{Option, none, some}
use native.Mathlib.Omega.{arith}
use norma.Base.Tests.{if◌then◌else◌, Comparable, ◌==◌}

module _ {ℓ} {A : Type ℓ} where
  abbrev pub length : List A → ℕ
  length [] = 0
  length (x ∷ xs) = suc (length xs)

  abbrev pub get_elem? : List A → ℕ → Option A
  get_elem? [] i = none
  get_elem? (x ∷ xs) zero = some x
  get_elem? (x ∷ xs) (suc i) = get_elem? xs i

  abbrev pub take : ℕ → List A → List A
  take zero xs = []
  take (suc n) [] = []
  take (suc n) (x ∷ xs) = x ∷ take n xs

  abbrev pub drop : ℕ → List A → List A
  drop zero xs = xs
  drop (suc n) [] = []
  drop (suc n) (x ∷ xs) = drop n xs

  -- The last entry, `s[len(s)-1]`.
  abbrev pub last? : List A → Option A
  last? [] = none
  last? (x ∷ []) = some x
  last? (x ∷ y ∷ ys) = last? (y ∷ ys)

  -- The entries that pass a test, in order.
  abbrev pub keep : (A → Bool) → List A → List A
  keep p [] = []
  keep p (x ∷ xs) = let rest = keep p xs in if p x then x ∷ rest else rest

  abbrev pub all : (A → Bool) → List A → Bool
  all p [] = true
  all p (x ∷ xs) = p x && all p xs

  abbrev pub any : (A → Bool) → List A → Bool
  any p [] = false
  any p (x ∷ xs) = p x || any p xs

  pub length-append : (xs ys : List A) → length (xs ++ ys) ≡ length xs + length ys
  length-append [] ys = omega arith
  length-append (x ∷ xs) ys = omega (arith, length-append xs ys)

  pub append_nil : (xs ys : List A) → xs ++ ys ≡ [] → (xs ≡ []) × (ys ≡ [])
  append_nil [] ys h = (refl, h)
  append_nil (x ∷ xs) ys h = absurd cc

  -- A predicate that holds of every entry.
  abbrev pub All {κ} : (A → Type κ) → List A → Type κ
  All P [] = Unit
  All P (x ∷ xs) = P x × All P xs

-- A predicate that holds of some entry.
module _ {ℓ} {A : Type ℓ} where
  abbrev pub Some : (A → Type 0) → List A → Type 0
  Some P [] = ⊥
  Some P (x ∷ xs) = P x ⊎ Some P xs

-- `slices.Contains`.
module _ {A : Type 0} ⦃e : Comparable A⦄ where
  abbrev pub contains : List A → A → Bool
  contains [] a = false
  contains (x ∷ xs) a = x == a || contains xs a

  -- Equality of the key sets of two maps, `maps.Equal`.
  abbrev pub same_set : List A → List A → Bool
  same_set xs ys = all (contains xs) ys && all (contains ys) xs

  pub contains_iff : (xs : List A) (a : A) → (contains xs a ≡ true) ↔ Some (λ x. x ≡ a) xs
  contains_iff [] a = ground arith
  contains_iff (x ∷ xs) a = ground (arith, contains_iff xs a, e.same_iff x a)

module _ {ℓ} {A : Type ℓ} where
  pub all_iff : (p : A → Bool) (xs : List A) → (all p xs ≡ true) ↔ All (λ x. p x ≡ true) xs
  all_iff p [] = ground arith
  all_iff p (x ∷ xs) = ground (arith, all_iff p xs)

  pub All-imp {κ κ'} :
      {P : A → Type κ} {Q : A → Type κ'} (xs : List A) → ((x : A) → P x → Q x) → All P xs → All Q xs
  All-imp [] f h = tt
  All-imp (x ∷ xs) f (h, hs) = (f x h, All-imp xs f hs)

  pub All-append {κ} : (P : A → Type κ) (xs ys : List A) → All P xs → All P ys → All P (xs ++ ys)
  All-append P [] ys h k = k
  All-append P (x ∷ xs) ys (own, h) k = (own, All-append P xs ys h k)

  pub All-both {κ κ' κ''} :
      {P : A → Type κ} {Q : A → Type κ'} {R : A → Type κ''} (xs : List A)
      → ((x : A) → P x → Q x → R x)
      → All P xs
      → All Q xs
      → All R xs
  All-both [] f h g = tt
  All-both (x ∷ xs) f (h, hs) (g, gs) = (f x h g, All-both xs f hs gs)

  pub Some-imp : {P Q : A → Type 0} (xs : List A) → ((x : A) → P x → Q x) → Some P xs → Some Q xs
  Some-imp [] f h = h
  Some-imp (x ∷ xs) f (inl h) = inl (f x h)
  Some-imp (x ∷ xs) f (inr h) = inr (Some-imp xs f h)

module _ {A : Type 0} where
  -- Every entry of a list is in it.
  pub All-self : (xs : List A) → All (λ x. Some (λ y. y ≡ x) xs) xs
  All-self [] = tt
  All-self (x ∷ xs) = (inl refl, All-imp xs (λ y. inr) (All-self xs))
