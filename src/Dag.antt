-- ===== src/Dag.antt =====
-- Walks over the DAG of events, as driver/monitoring/transactions/emissions.go and
-- driver/checking/event_throttled.go make them: a stack of pending events, and a set of visited ones.
pub mod Once
pub mod Ancestors
pub mod Bound
use norma.Base.{
  ℕ, ◌+◌, ◌≤◌, ◌≡◌, ◌⊎◌, inl, inr, refl, Bool, true, false, ◌||◌, Option, none, some, List, [], ◌∷◌,
  contains, length, nat_comparable, ◌==◌, arith, if◌then◌else◌,
}
use norma.Base.Results.{Result, ok, err}

-- `append(pending, ids...)`; the top of the stack stands first.
unfoldable pub push_all : List ℕ → List ℕ → List ℕ
push_all [] stack = stack
push_all (x ∷ xs) stack = push_all xs (x ∷ stack)

-- `pending'` is the stack `pending` with the parents `ps` on it, visited ones left out or not.
pub record IsPushed (visited ps pending pending' : List ℕ) : Type 0 where
  pub known :
      (x : ℕ) → contains ps x ≡ true → (contains visited x ≡ true) ⊎ (contains pending' x ≡ true)
  pub kept : (x : ℕ) → contains pending x ≡ true → contains pending' x ≡ true
  pub origin :
      (x : ℕ) → contains pending' x ≡ true → (contains pending x ≡ true) ⊎ (contains ps x ≡ true)

pub contains-push_all :
    (xs stack : List ℕ) (a : ℕ) → contains (push_all xs stack) a ≡ contains xs a || contains stack a
unfolding push_all
contains-push_all [] stack a = refl
contains-push_all (x ∷ xs) stack a = ground (arith, contains-push_all xs (x ∷ stack) a)

pub length-push_all : (xs stack : List ℕ) → length (push_all xs stack) ≡ length xs + length stack
unfolding push_all
length-push_all [] stack = omega arith
length-push_all (x ∷ xs) stack = omega (arith, length-push_all xs (x ∷ stack))

pub push_all-IsPushed : (visited ps stack : List ℕ) → IsPushed visited ps stack (push_all ps stack)
push_all-IsPushed visited ps stack = record {
  known = λ x h. inr (ground (arith, contains-push_all ps stack x));
  kept = λ x h. ground (arith, contains-push_all ps stack x);
  origin = λ x h. ground (arith, contains-push_all ps stack x);
}

-- How a walk ends: with nothing pending, by the end of the context, or by a failed read.
pub data End (E : Type 0) : Type 0 where
  finished : End E
  stopped : End E
  broken : E → End E

module _ {A E : Type 0} (fetch : ℕ → Result E (Option A)) (parents : A → List ℕ) where
  -- A walk from the visited and the pending events to the events read, in order, and those visited
  -- at its end.
  pub data Walks : List ℕ → List ℕ → List (ℕ × A) → List ℕ → End E → Type 0 where
    finishes : {v : List ℕ} → Walks v [] [] v finished
    stops : {v p : List ℕ} → Walks v p [] v stopped
    breaks :
        {v p : List ℕ} (id : ℕ) (e : E)
        → contains v id ≡ false
        → fetch id ≡ err e
        → Walks v (id ∷ p) [] (id ∷ v) (broken e)
    skips :
        {v p v' : List ℕ} {r : List (ℕ × A)} {end : End E} (id : ℕ)
        → contains v id ≡ true
        → Walks v p r v' end
        → Walks v (id ∷ p) r v' end
    misses :
        {v p v' : List ℕ} {r : List (ℕ × A)} {end : End E} (id : ℕ)
        → contains v id ≡ false
        → fetch id ≡ ok none
        → Walks (id ∷ v) p r v' end
        → Walks v (id ∷ p) r v' end
    reads :
        {v p p' v' : List ℕ} {r : List (ℕ × A)} {end : End E} (id : ℕ) (a : A)
        → contains v id ≡ false
        → fetch id ≡ ok (some a)
        → IsPushed (id ∷ v) (parents a) p p'
        → Walks (id ∷ v) p' r v' end
        → Walks v (id ∷ p) ((id, a) ∷ r) v' end

  -- What is pending, and its ancestors as far as events can be read.
  pub data Reaches (p : List ℕ) : ℕ → Type 0 where
    pending : {x : ℕ} → contains p x ≡ true → Reaches p x
    parent :
        {x y : ℕ} {a : A}
        → Reaches p y
        → fetch y ≡ ok (some a)
        → contains (parents a) x ≡ true
        → Reaches p x

  -- The parents of every visited event are visited.
  abbrev pub IsClosed : List ℕ → Type 0
  IsClosed v =
      (x y : ℕ) (a : A)
      → contains v y ≡ true
      → fetch y ≡ ok (some a)
      → contains (parents a) x ≡ true
      → contains v x ≡ true
