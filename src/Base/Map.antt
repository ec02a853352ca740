-- ===== src/Base/Map.antt =====
-- Go's maps as association lists. A map that is built by `insert` and `delete` holds a key once,
-- which `IsUnique` states; what a program does with it must not depend on the order.
use Prim.Native.Nat.{ℕ, ◌+◌}
use mathlib.Core.Path.{◌≡◌, refl, ap}
use mathlib.Core.Bool.{Bool, true, false}
use mathlib.Core.List.{List, [], ◌∷◌}
use mathlib.Core.Option.{Option, none, some}
use native.Mathlib.Omega.{arith}
use norma.Base.Tests.{if◌then◌else◌, Comparable, ◌==◌}
use norma.Base.Lists.{All, All-imp}

abbrev pub Map {ℓ κ} : Type ℓ → Type κ → Type (ℓ ⊔ κ)
Map K V = List (K × V)

abbrev pub one_if : Bool → ℕ
one_if true = 1
one_if false = 0

-- How many values pass a test.
unfoldable pub count {ℓ κ} : {K : Type ℓ} {V : Type κ} → (V → Bool) → Map K V → ℕ
count p [] = 0
count p ((k, v) ∷ m) = one_if (p v) + count p m

pub beq_refl {ℓ} : {K : Type ℓ} ⦃e : Comparable K⦄ (k : K) → (k == k) ≡ true
beq_refl ⦃e⦄ k = (e.same_iff k k).1 refl

module _ {ℓ κ} {K : Type ℓ} {V : Type κ} ⦃e : Comparable K⦄ where
  unfoldable pub lookup : K → Map K V → Option V
  lookup k [] = none
  lookup k ((j, v) ∷ m) = if j == k then some v else lookup k m

  -- `m[k] = v`
  unfoldable pub insert : K → V → Map K V → Map K V
  insert k v [] = (k, v) ∷ []
  insert k v ((j, w) ∷ m) = if j == k then (k, v) ∷ m else (j, w) ∷ insert k v m

  -- `delete(m, k)`
  unfoldable pub delete : K → Map K V → Map K V
  delete k [] = []
  delete k ((j, w) ∷ m) = let rest = delete k m in if j == k then rest else (j, w) ∷ rest

  abbrev pub has : K → Map K V → Bool
  has k m = elim (lookup k m) [ none ↦ false | some _ ↦ true ]

  pub lookup-insert :
      (key other : K) (new : V) (m : Map K V)
      → lookup other (insert key new m) ≡ (if key == other then some new else lookup other m)
  unfolding insert lookup
  lookup-insert key other new [] = ground arith
  lookup-insert key other new (entry ∷ m) = ground (
    arith,
    lookup-insert key other new m,
    e.same_iff entry.0 other,
    e.same_iff entry.0 key,
    e.same_iff key other,
  )

  pub lookup-delete :
      (k j : K) (m : Map K V) → lookup j (delete k m) ≡ (if k == j then none else lookup j m)
  unfolding lookup delete
  lookup-delete k j [] = ground arith
  lookup-delete k j ((i, w) ∷ m) =
      ground (arith, lookup-delete k j m, e.same_iff i k, e.same_iff i j, e.same_iff k j)

  pub lookup-insert_self : (k : K) (v : V) (m : Map K V) → lookup k (insert k v m) ≡ some v
  lookup-insert_self k v m = rw (lookup-insert k k v m, beq_refl k)

  pub lookup-delete_self : (k : K) (m : Map K V) → lookup k (delete k m) ≡ none
  lookup-delete_self k m = rw (lookup-delete k k m, beq_refl k)

  -- No key stands twice.
  abbrev pub IsUnique : Map K V → Type κ
  IsUnique [] = Unit
  IsUnique ((k, v) ∷ m) = (lookup k m ≡ none) × IsUnique m

  pub insert-IsUnique : (k : K) (v : V) (m : Map K V) → IsUnique m → IsUnique (insert k v m)
  unfolding insert lookup
  insert-IsUnique k v [] u = (refl, tt)
  insert-IsUnique k v ((j, w) ∷ m) u =
      ground (arith, e.same_iff j k, e.same_iff k j, insert-IsUnique k v m, lookup-insert k j v m)

  pub delete-IsUnique : (k : K) (m : Map K V) → IsUnique m → IsUnique (delete k m)
  unfolding delete
  delete-IsUnique k [] u = tt
  delete-IsUnique k ((j, w) ∷ m) u =
      ground (arith, e.same_iff j k, e.same_iff k j, delete-IsUnique k m, lookup-delete k j m)

  pub delete_absent : (k : K) (m : Map K V) → lookup k m ≡ none → delete k m ≡ m
  unfolding delete lookup
  delete_absent k [] h = refl
  delete_absent k ((j, w) ∷ m) h = ground (arith, delete_absent k m)

  pub count-insert_new :
      (p : V → Bool) (k : K) (v : V) (m : Map K V)
      → lookup k m ≡ none
      → count p (insert k v m) ≡ one_if (p v) + count p m
  unfolding insert lookup count
  count-insert_new p k v [] h = refl
  count-insert_new p k v ((j, w) ∷ m) h = ground (arith, count-insert_new p k v m)

  pub count-insert_old :
      (p : V → Bool) (k : K) (v w : V) (m : Map K V)
      → lookup k m ≡ some w
      → count p (insert k v m) + one_if (p w) ≡ one_if (p v) + count p m
  unfolding insert lookup count
  count-insert_old p k v w [] h = ground arith
  count-insert_old p k v w ((j, x) ∷ m) h = ground (arith, count-insert_old p k v w m)

  pub count-delete :
      (p : V → Bool) (k : K) (w : V) (m : Map K V)
      → IsUnique m
      → lookup k m ≡ some w
      → count p (delete k m) + one_if (p w) ≡ count p m
  unfolding delete lookup count
  count-delete p k w [] u h = ground arith
  count-delete p k w ((j, x) ∷ m) u h =
      ground (arith, e.same_iff j k, delete_absent k m, count-delete p k w m u.1)

  -- In a map without duplicates every entry is what its key leads to.
  pub All-lookup : (m : Map K V) → IsUnique m → All (λ entry. lookup entry.0 m ≡ some entry.1) m
  unfolding lookup
  All-lookup [] u = tt
  All-lookup ((k, v) ∷ m) (own, u) = (
    rw (beq_refl k),
    All-imp m
        (λ entry found. ground (arith, e.same_iff k entry.0, own, found, ap (λ j. lookup j m)))
        (All-lookup m u),
  )
