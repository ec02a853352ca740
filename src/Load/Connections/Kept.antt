-- ===== src/Load/Connections/Kept.antt =====
-- The connections of an application's controller are used one at a time.
use norma.Base.{
  ℕ, zero, suc, ◌≡◌, ◌<◌, inl, inr, sym, subst, Bool, true, false, ◌||◌, Option, none, some, List,
  [], ◌∷◌, String, nat_comparable, ◌==◌, arith, Bool-cases, Option-cases,
}
use norma.Base.Results.{Result, ok, err, Result-cases}
use norma.Load.Connections.{
  ConnectionEvent, dialed, fetched, closed, Connections, Replies, dial_random, ensure_client,
  fetch_with, fetch_once, reconnect, receive_from, get_received_transactions, receive_all,
  initial_connections, run_connections,
}

-- A log, the latest first, in which one connection at most is open at a time, only the open one is
-- used and closed, and each is new when it is dialed: with the open one and the next name.
pub data Protocol : List ConnectionEvent → Option ℕ → ℕ → Type 0 where
  unused : Protocol [] none 0
  dials :
      {l : List ConnectionEvent} {n : ℕ}
      → Protocol l none n
      → Protocol (dialed n ∷ l) (some n) (suc n)
  fetches :
      {l : List ConnectionEvent} {c n : ℕ}
      → Protocol l (some c) n
      → Protocol (fetched c ∷ l) (some c) n
  closes :
      {l : List ConnectionEvent} {c n : ℕ} → Protocol l (some c) n → Protocol (closed c ∷ l) none n

abbrev pub IsKept : Connections → Type 0
IsKept s = Protocol s.log s.client s.next

unfoldable pub was_closed : ℕ → List ConnectionEvent → Bool
was_closed k [] = false
was_closed k (dialed c ∷ l) = was_closed k l
was_closed k (fetched c ∷ l) = was_closed k l
was_closed k (closed c ∷ l) = (c == k) || was_closed k l

open_named :
    {l : List ConnectionEvent} {o : Option ℕ} {n : ℕ} (k : ℕ) → Protocol l o n → o ≡ some k → k < n
open_named k unused h = absurd cc
open_named k (dials p) h = ground (arith, h)
open_named k (fetches p) h = open_named k p h
open_named k (closes p) h = absurd cc

closed_named :
    {l : List ConnectionEvent} {o : Option ℕ} {n : ℕ} (k : ℕ)
    → Protocol l o n
    → was_closed k l ≡ true
    → k < n
unfolding was_closed
closed_named k unused h = absurd cc
closed_named k (dials p) h = let b = closed_named k p h in omega arith
closed_named k (fetches p) h = closed_named k p h
closed_named k (closes {l} {c} p) h = elim (Bool-cases (c == k)) [
  | inl e ↦ open_named k p (ground (arith, e))
  | inr e ↦ closed_named k p (ground (arith, e, h))
]

-- The open connection was not closed.
pub open_unclosed :
    {l : List ConnectionEvent} {o : Option ℕ} {n : ℕ} (k : ℕ)
    → Protocol l o n
    → o ≡ some k
    → was_closed k l ≡ false
unfolding was_closed
open_unclosed k unused h = absurd cc
open_unclosed k (dials {l} {n} p) h = elim (Bool-cases (was_closed k l)) [
  | inl e ↦ let b = closed_named k p e in absurd (ground (arith, b, h))
  | inr e ↦ e
]
open_unclosed k (fetches p) h = open_unclosed k p h
open_unclosed k (closes p) h = absurd cc

module _ (a : Replies) where
  dialed-IsKept :
      (o : Option ℕ) (n : ℕ) (l : List ConnectionEvent)
      → Protocol l none n
      → IsKept (dial_random a (record { client = o; next = n; log = l })).0
  unfolding dial_random
  dialed-IsKept o n l p = elim (Option-cases (a.dial_error n)) [
    | inl e ↦ rw (dial_random, e) (dials p)
    | inr (x, e) ↦ rw (dial_random, e) p
  ]

  dial_answered :
      (n : ℕ) (l : List ConnectionEvent)
      → a.dial_error n ≡ none
      → dial_random a (record { client = none; next = n; log = l })
        ≡ (record { client = some n; next = suc n; log = dialed n ∷ l }, ok n)
  unfolding dial_random
  dial_answered n l e = rw (dial_random, e)

  dial_refused :
      (n : ℕ) (l : List ConnectionEvent) (x : String)
      → a.dial_error n ≡ some x
      → dial_random a (record { client = none; next = n; log = l })
        ≡ (record { client = none; next = n; log = l }, err x)
  unfolding dial_random
  dial_refused n l x e = rw (dial_random, e)

  fetch_once-IsKept :
      (retry : ℕ) (o : Option ℕ) (n : ℕ) (l : List ConnectionEvent)
      → Protocol l o n
      → IsKept (fetch_once a retry (record { client = o; next = n; log = l })).0
  unfolding fetch_once ensure_client
  fetch_once-IsKept retry (some c) n l p = fetches p
  fetch_once-IsKept retry none n l p =
      let Fetched : Connections × Result String ℕ → Type 0 = λ x. IsKept (fetch_with a retry x).0 in
      elim (Option-cases (a.dial_error n)) [
        | inl e ↦ subst Fetched (sym (dial_answered n l e)) (fetches (dials p))
        | inr (x, e) ↦ subst Fetched (sym (dial_refused n l x e)) p
      ]

  reconnect-IsKept :
      (o : Option ℕ) (n : ℕ) (l : List ConnectionEvent)
      → Protocol l o n
      → IsKept (reconnect a (record { client = o; next = n; log = l })).0
  unfolding reconnect
  reconnect-IsKept none n l p = dialed-IsKept none n l p
  reconnect-IsKept (some c) n l p = dialed-IsKept (some c) n (closed c ∷ l) (closes p)

  receive_from-IsKept :
      (left retry : ℕ) (s : Connections) → IsKept s → IsKept (receive_from a left retry s).0
  unfolding receive_from
  receive_from-IsKept zero retry s k =
      let (s1, r) = fetch_once a retry s in
      let k1 = fetch_once-IsKept retry s.client s.next s.log k in
      elim (Result-cases (fetch_once a retry s).1) [
        | inr (x, e) ↦ rw (receive_from, e) k1
        | inl (f, e) ↦ elim (Result-cases f) [
          | inl (n, g) ↦ rw (receive_from, e, g) k1
          | inr (x, g) ↦ rw (receive_from, e, g) k1
        ]
      ]
  receive_from-IsKept (suc left) retry s k =
      let s1 = (fetch_once a retry s).0 in
      let k1 = fetch_once-IsKept retry s.client s.next s.log k in
      let k2 = reconnect-IsKept s1.client s1.next s1.log k1 in
      elim (Result-cases (fetch_once a retry s).1) [
        | inr (x, e) ↦ rw (receive_from, e) k1
        | inl (f, e) ↦ elim (Result-cases f) [
          | inl (n, g) ↦ rw (receive_from, e, g) k1
          | inr (x, g) ↦ elim (Result-cases (reconnect a s1).1) [
            | inr (y, h) ↦ rw (receive_from, e, g, h) k2
            | inl (d, h) ↦
                rw (receive_from, e, g, h)
                  (receive_from-IsKept left (suc retry) (reconnect a s1).0 k2)
          ]
        ]
      ]

pub receive_all-IsKept :
    (calls : List Replies) (s : Connections) → IsKept s → IsKept (receive_all calls s)
unfolding receive_all
receive_all-IsKept [] s k = k
receive_all-IsKept (a ∷ calls) s k =
    receive_all-IsKept calls (get_received_transactions a s).0 (receive_from-IsKept a 5 0 s k)

-- Whatever the network answers to the calls of GetReceivedTransactions while the controller runs: the
-- connections that are dialed, used and closed up to its end are one at a time, only the open one is
-- used and closed, and rpcClient is the open one.
pub used_one_at_a_time :
    (calls : List Replies)
    → let s = receive_all calls initial_connections in Protocol s.log s.client s.next
used_one_at_a_time calls = receive_all-IsKept calls initial_connections (dials unused)

-- At its end Run closes the connection that it started with: the one that the controller holds by then
-- has been closed exactly where it is that one. So a connection of a re-connect is left open.
pub reconnected_stays_open :
    (calls : List Replies) (k : ℕ)
    → (receive_all calls initial_connections).client ≡ some k
    → was_closed k (run_connections calls).log ≡ (0 == k)
unfolding was_closed
reconnected_stays_open calls k h =
    rw (open_unclosed k (used_one_at_a_time calls) h)
      (elim (Bool-cases (0 == k)) [ inl e ↦ rw e | inr e ↦ rw e ])
