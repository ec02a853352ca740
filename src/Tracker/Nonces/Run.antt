-- ===== src/Tracker/Nonces/Run.antt =====
-- The emittable run: every nonce from the next one up to the end of the run is in the pool.
use norma.Base.{
  ℕ, zero, suc, ◌+◌, ◌-◌, ◌^◌, ◌≤◌, ◌<◌, ◌≡◌, refl, inl, inr, none, some, [], ◌∷◌, length, leb,
  ◌==◌, nat_comparable, if◌then◌else◌, arith, Bool-cases, Option-cases,
}
use norma.Base.Map.{Map, lookup, insert, lookup-insert, lookup-delete}
use norma.Tracker.Nonces.{Sender, u64, new_sender, extend_from, extend_run, release}

-- The highest nonce of an account is 2^64 - 2.
abbrev pub IsNonce : ℕ → Type 0
IsNonce n = n < 2 ^ 64 - 1

pub record IsRun (s : Sender) : Type 0 where
  pub ordered : s.next ≤ s.run_end
  pub filled : (n : ℕ) → s.next ≤ n → n < s.run_end → (h : ℕ) × (lookup n s.in_flight ≡ some h)
  pub nonces : (n h : ℕ) → lookup n s.in_flight ≡ some h → IsNonce n

u64_small : (n : ℕ) → IsNonce n → u64 (n + 1) ≡ n + 1
u64_small n h = omega arith

new_sender-IsRun : (nonce : ℕ) → IsRun (new_sender nonce)
unfolding lookup
new_sender-IsRun nonce = record {
  ordered = omega arith;
  filled = λ n lo hi. absurd (omega arith);
  nonces = λ n h e. cc;
}

-- A nonce that enters the pool leaves the run as it is.
pub insert-IsRun :
    (s : Sender) (nonce hash : ℕ)
    → IsNonce nonce
    → IsRun s
    → IsRun (record s { in_flight = insert nonce hash s.in_flight })
insert-IsRun s nonce hash small r = record {
  ordered = r.ordered;
  filled = λ n lo hi. elim (Bool-cases (nonce == n)) [
    | inl same ↦ (hash, rw (lookup-insert nonce n hash s.in_flight, same))
    | inr other ↦ rw (lookup-insert nonce n hash s.in_flight, other) (r.filled n lo hi)
  ];
  nonces = λ n h e. elim (Bool-cases (nonce == n)) [
    | inl same ↦ ground arith
    | inr other ↦ r.nonces n h (ground (arith, lookup-insert nonce n hash s.in_flight))
  ];
}

pub release-IsRun :
    (s : Sender) (nonce : ℕ)
    → IsNonce nonce
    → IsRun s
    → IsRun (release s nonce) × (lookup nonce (release s nonce).in_flight ≡ none)
unfolding release
release-IsRun s nonce small r = (
  record {
    ordered = ground (arith, r.ordered, u64_small nonce small);
    filled = λ n lo hi.
        ground (arith, u64_small nonce small, r.filled n, lookup-delete nonce n s.in_flight);
    nonces = λ n h e. ground (arith, lookup-delete nonce n s.in_flight, r.nonces n h);
  },
  ground (arith, lookup-delete nonce nonce s.in_flight, nat_comparable.same_iff nonce nonce),
)

-- One round of `extendRun`.
advance-IsRun :
    (s : Sender) (h : ℕ)
    → lookup s.run_end s.in_flight ≡ some h
    → IsRun s
    → IsRun (record s { run_end = u64 (s.run_end + 1) })
advance-IsRun s h e r = rw (u64_small s.run_end (r.nonces s.run_end h e)) (record {
  ordered = omega (arith, r.ordered);
  filled = λ n lo hi. elim (Bool-cases (s.run_end == n)) [
    | inl same ↦ (h, ground arith)
    | inr other ↦ r.filled n lo (ground arith)
  ];
  nonces = r.nonces;
})

-- How many nonces of the pool are at or above `k`.
above : ℕ → Map ℕ ℕ → ℕ
above k [] = 0
above k ((n, h) ∷ m) = (if leb k n then 1 else 0) + above k m

above-le : (k : ℕ) (m : Map ℕ ℕ) → above k m ≤ length m
unfolding above
above-le k [] = omega arith
above-le k ((n, h) ∷ m) = ground (arith, above-le k m)

above_mono : (k : ℕ) (m : Map ℕ ℕ) → above (k + 1) m ≤ above k m
unfolding above
above_mono k [] = omega arith
above_mono k ((n, h) ∷ m) = ground (arith, above_mono k m)

above_found : (k h : ℕ) (m : Map ℕ ℕ) → lookup k m ≡ some h → above (k + 1) m < above k m
unfolding above lookup
above_found k h [] e = cc
above_found k h ((n, g) ∷ m) e = ground (arith, above_found k h m, above_mono k m)

-- The run after a submission: it is valid, it starts where it did and holds what it held, it is no
-- shorter, and its end is not in the pool.
pub record IsExtended (s t : Sender) : Type 0 where
  pub run : IsRun t
  pub same_next : t.next ≡ s.next
  pub same_pool : t.in_flight ≡ s.in_flight
  pub longer : s.run_end ≤ t.run_end
  pub maximal : lookup t.run_end t.in_flight ≡ none

extend_from-IsExtended :
    (fuel : ℕ) (s : Sender)
    → IsRun s
    → above s.run_end s.in_flight < fuel
    → IsExtended s (extend_from fuel s).0
unfolding extend_from
extend_from-IsExtended zero s r m = absurd (omega arith)
extend_from-IsExtended (suc fuel) s r m = elim (Option-cases (lookup s.run_end s.in_flight)) [
  | inl e ↦
      rw (e, extend_from)
        (record { run = r; same_next = refl; same_pool = refl; longer = omega arith; maximal = e })
  | inr (h, e) ↦
      let step : u64 (s.run_end + 1) ≡ s.run_end + 1 =
        u64_small s.run_end (r.nonces s.run_end h e) in
      let next : Sender = record s { run_end = u64 (s.run_end + 1) } in
      let less : above next.run_end s.in_flight < fuel =
        rw step (omega (arith, above_found s.run_end h s.in_flight e)) in
      let ih = extend_from-IsExtended fuel next (advance-IsRun s h e r) less in
      rw (e, extend_from)
        (record {
          run = ih.run;
          same_next = ih.same_next;
          same_pool = ih.same_pool;
          longer = omega (arith, ih.longer);
          maximal = ih.maximal;
        })
]

-- `extendRun` ends, and it ends at the first gap: the run is then as long as the pool allows.
pub extend_run-IsExtended : (s : Sender) → IsRun s → IsExtended s (extend_run s).0
unfolding extend_run
extend_run-IsExtended s r =
    extend_from-IsExtended (suc (length s.in_flight)) s r
      (omega (arith, above-le s.run_end s.in_flight))
