-- ===== src/Tracker/Populations.antt =====
-- The counters of the applications against the transactions in flight: what a population is, and
-- the ways in which a method may move a transaction from one to another.
pub mod Submission
pub mod Progress
pub mod Histories
use norma.Base.{
  ℕ, suc, ◌+◌, ◌≡◌, refl, sym, ap, ◌∙◌, ◌⊎◌, inl, inr, Bool, true, false, not, ◌&&◌, Option, none,
  some, String, ◌==◌, nat_comparable, string_comparable, if◌then◌else◌, arith, Bool-cases, subst,
}
use norma.Base.Int.{ℤ, pos, inc, dec}
use norma.Base.Map.{
  Map, lookup, insert, delete, count, one_if, IsUnique, lookup-insert, insert-IsUnique,
  delete-IsUnique, count-insert_new, count-insert_old, count-delete, beq_refl,
}
use norma.Tracker.Data.{CountKind, Counts, get, Application, Transaction, new_application, or_new}

-- Where a transaction in flight is counted.
abbrev pub phase : CountKind → Transaction → Bool
phase CountKind.pending e = e.emitted_at == 0 && not e.blocked
phase CountKind.stalled e = e.emitted_at == 0 && e.blocked
phase CountKind.emitted e = not (e.emitted_at == 0)
phase CountKind.included e = false
phase CountKind.rejected e = false

abbrev pub IsInFlight : CountKind → Type 0
IsInFlight CountKind.pending = Unit
IsInFlight CountKind.stalled = Unit
IsInFlight CountKind.emitted = Unit
IsInFlight CountKind.included = ⊥
IsInFlight CountKind.rejected = ⊥

abbrev member : CountKind → String → Transaction → Bool
member k app e = e.app == app && phase k e

-- How many of an application's transactions in flight are in a phase.
pub population : CountKind → String → Map ℕ Transaction → ℕ
population k app = count (member k app)

abbrev pub app_in : Map String Application → String → Application
app_in apps name = or_new (lookup name apps)

-- The counters of every application are the sizes of its populations.
pub record IsCounted (apps : Map String Application) (txs : Map ℕ Transaction) : Type 0 where
  pub unique : IsUnique txs
  pub tally :
      (k : CountKind) (app : String)
      → IsInFlight k
      → get (app_in apps app).counts k ≡ pos (population k app txs)

abbrev pub changed :
    String → (Application → Application) → Map String Application → Map String Application
changed name f apps = insert name (f (app_in apps name)) apps

app_in-changed :
    (name app : String) (f : Application → Application) (apps : Map String Application)
    → app_in (changed name f apps) app
      ≡ (if name == app then f (app_in apps name) else app_in apps app)
app_in-changed name app f apps = elim (Bool-cases (name == app)) [
  | inl same ↦ rw (lookup-insert name app (f (app_in apps name)) apps, same)
  | inr other ↦ rw (lookup-insert name app (f (app_in apps name)) apps, other)
]

module _ (apps : Map String Application) (txs txs' : Map ℕ Transaction) (name : String)
    (f : Application → Application) (unique : IsUnique txs')
    (own : (k : CountKind)
      → IsInFlight k
      → get (f (app_in apps name)).counts k ≡ pos (population k name txs'))
    (others : (k : CountKind) (app : String)
      → (name == app) ≡ false
      → population k app txs' ≡ population k app txs) where
  recount : IsCounted apps txs → IsCounted (changed name f apps) txs'
  recount c = record {
    unique = unique;
    tally = λ k app live. elim (Bool-cases (name == app)) [
      | inl same ↦
          rw (app_in-changed name app f apps, same)
            (subst (λ a. get (f (app_in apps name)).counts k ≡ pos (population k a txs'))
              ((string_comparable.same_iff name app).0 same) (own k live))
      | inr other ↦
          rw (app_in-changed name app f apps, other, others k app other) (c.tally k app live)
    ];
  }

-- A change of an application that leaves its counters of transactions in flight alone.
pub keep-IsCounted :
    (apps : Map String Application) (txs : Map ℕ Transaction) (name : String)
    (f : Application → Application)
    → ((k : CountKind) (a : Application) → IsInFlight k → get (f a).counts k ≡ get a.counts k)
    → IsCounted apps txs
    → IsCounted (changed name f apps) txs
keep-IsCounted apps txs name f same c =
    recount apps txs txs name f c.unique
      (λ k live. same k (app_in apps name) live ∙ c.tally k name live) (λ k app other. refl) c

module _ (apps : Map String Application) (txs : Map ℕ Transaction) (hash : ℕ)
    (f : Application → Application) (v : Transaction) where
  others_new :
      (k : CountKind) (app : String)
      → lookup hash txs ≡ none
      → (v.app == app) ≡ false
      → population k app (insert hash v txs) ≡ population k app txs
  unfolding population
  others_new k app fresh other =
      rw (count-insert_new (member k app) hash v txs fresh, other) (omega arith)

  own_new :
      (k : CountKind)
      → lookup hash txs ≡ none
      → population k v.app (insert hash v txs) ≡ one_if (phase k v) + population k v.app txs
  unfolding population
  own_new k fresh = rw (count-insert_new (member k v.app) hash v txs fresh, beq_refl v.app) refl

  -- A transaction that starts to be followed.
  pub insert-IsCounted :
      lookup hash txs ≡ none
      → ((k : CountKind) (a : Application) (n : ℕ)
          → IsInFlight k
          → get a.counts k ≡ pos n
          → get (f a).counts k ≡ pos (one_if (phase k v) + n))
      → IsCounted apps txs
      → IsCounted (changed v.app f apps) (insert hash v txs)
  insert-IsCounted fresh moves c =
      recount apps txs (insert hash v txs) v.app f (insert-IsUnique hash v txs c.unique)
        (λ k live.
          rw (own_new k fresh)
            (moves k (app_in apps v.app) (population k v.app txs) live (c.tally k v.app live)))
        (λ k app. others_new k app fresh) c

module _ (apps : Map String Application) (txs : Map ℕ Transaction) (hash : ℕ)
    (f : Application → Application) (w : Transaction) (found : lookup hash txs ≡ some w) where
  others_old :
      (v : Transaction) (k : CountKind) (app : String)
      → v.app ≡ w.app
      → (w.app == app) ≡ false
      → population k app (insert hash v txs) ≡ population k app txs
  unfolding population
  others_old v k app same other =
      let other' : (v.app == app) ≡ false = rw same other in
      let sum = count-insert_old (member k app) hash v w txs found in
      omega (arith, (rw (other', other) at sum))

  own_old :
      (v : Transaction) (k : CountKind)
      → v.app ≡ w.app
      → population k w.app (insert hash v txs) + one_if (phase k w)
        ≡ one_if (phase k v) + population k w.app txs
  unfolding population
  own_old v k same =
      let own : (v.app == w.app) ≡ true = rw same (beq_refl w.app) in
      rw (own, beq_refl w.app) at (count-insert_old (member k w.app) hash v w txs found)

  -- A transaction that changes its phase.
  pub replace-IsCounted :
      (v : Transaction)
      → v.app ≡ w.app
      → ((k : CountKind) (a : Application) (n m : ℕ)
          → IsInFlight k
          → get a.counts k ≡ pos n
          → m + one_if (phase k w) ≡ one_if (phase k v) + n
          → get (f a).counts k ≡ pos m)
      → IsCounted apps txs
      → IsCounted (changed w.app f apps) (insert hash v txs)
  replace-IsCounted v same moves c =
      recount apps txs (insert hash v txs) w.app f (insert-IsUnique hash v txs c.unique)
        (λ k live.
          moves k (app_in apps w.app) (population k w.app txs) _ live (c.tally k w.app live)
            (own_old v k same))
        (λ k app. others_old v k app same) c

  -- A transaction that is released.
  pub delete-IsCounted :
      ((k : CountKind) (a : Application) (n m : ℕ)
        → IsInFlight k
        → get a.counts k ≡ pos n
        → m + one_if (phase k w) ≡ n
        → get (f a).counts k ≡ pos m)
      → IsCounted apps txs
      → IsCounted (changed w.app f apps) (delete hash txs)
  unfolding population
  delete-IsCounted moves c =
      recount apps txs (delete hash txs) w.app f (delete-IsUnique hash txs c.unique)
        (λ k live.
          moves k (app_in apps w.app) (population k w.app txs) _ live (c.tally k w.app live)
            (rw (beq_refl w.app) at (count-delete (member k w.app) hash w txs c.unique found)))
        (λ k app other.
          let sum = count-delete (member k app) hash w txs c.unique found in
          omega (arith, (rw other at sum)))
        c

  -- A transaction whose phase stays.
  pub retag-IsCounted :
      (v : Transaction)
      → v.app ≡ w.app
      → ((k : CountKind) → phase k v ≡ phase k w)
      → IsCounted apps txs
      → IsCounted apps (insert hash v txs)
  unfolding population
  retag-IsCounted v same phases c = record {
    unique = insert-IsUnique hash v txs c.unique;
    tally = λ k app live.
        let sum = count-insert_old (member k app) hash v w txs found in
        let equal : count (member k app) (insert hash v txs) ≡ count (member k app) txs =
          omega (arith, sum, ap one_if (alike k app)) in
        rw equal (c.tally k app live);
  }
    where
      alike : (k : CountKind) (app : String) → member k app v ≡ member k app w
      alike k app =
          ap (λ (a : String). a == app && phase k v) same ∙ ap (λ b. w.app == app && b) (phases k)
