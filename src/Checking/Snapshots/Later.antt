-- ===== src/Checking/Snapshots/Later.antt =====
-- A later snapshot of an epoch counts no fewer events of any validator.
use norma.Base.{
  ℕ, ◌+◌, ◌≤◌, ◌≡◌, inl, inr, ap, sym, ◌∙◌, true, false, Option, some, List, [], ◌∷◌, ◌++◌,
  contains, nat_comparable, Bool-cases, All, All-imp, arith, some_injective, subst, ◌==◌,
}
use norma.Base.Map.{Map, one_if}
use norma.Base.Results.{Result, ok, ok_injective}
use norma.Dag.{Reaches, pending, parent}
use norma.Dag.Once.{IsDistinct, ids, ids-append}
use norma.Checking.Snapshots.{ThrottleError, RawEvent, DagClient, count_of, count_events_from_heads}
use norma.Checking.Snapshots.Counted.{parents_of, number_by, count-IsCounted}

number_by-append :
    (c : ℕ) (r s : List (ℕ × RawEvent)) → number_by c (r ++ s) ≡ number_by c r + number_by c s
unfolding number_by
number_by-append c [] s = omega arith
number_by-append c ((id, e) ∷ r) s = omega (arith, number_by-append c r s)

-- Where an event stands in a list.
record IsSplit (x : ℕ) (r : List (ℕ × RawEvent)) : Type 0 where
  before : List (ℕ × RawEvent)
  event : RawEvent
  after : List (ℕ × RawEvent)
  whole : r ≡ before ++ ((x, event) ∷ after)

split : (x : ℕ) (r : List (ℕ × RawEvent)) → contains (ids r) x ≡ true → IsSplit x r
split x [] h = absurd cc
split x ((id, e) ∷ r) h = elim (Bool-cases (id == x)) [
  | inl same ↦ record {
    before = [];
    event = e;
    after = r;
    whole = ap (λ y. (y, e) ∷ r) ((nat_comparable.same_iff id x).0 same);
  }
  | inr other ↦
      let s = split x r (ground (arith, other)) in
      record {
        before = (id, e) ∷ s.before;
        event = s.event;
        after = s.after;
        whole = ap (λ l. (id, e) ∷ l) s.whole;
      }
]

module _ (fetch : ℕ → Result ThrottleError (Option RawEvent)) where
  abbrev Answered : ℕ × RawEvent → Type 0
  Answered entry = fetch entry.0 ≡ ok (some entry.1)

  All-middle :
      (r s : List (ℕ × RawEvent)) (entry : ℕ × RawEvent)
      → All Answered (r ++ (entry ∷ s))
      → Answered entry × All Answered (r ++ s)
  All-middle [] s entry a = a
  All-middle (other ∷ r) s entry a =
      let (own, rest) = All-middle r s entry a.1 in (own, (a.0, rest))

  -- One event in both lists: the rest of the first is in the rest of the second.
  number_by-le_step :
      (c id : ℕ) (e : RawEvent) (r s : List (ℕ × RawEvent))
      → IsSplit id s
      → contains (ids r) id ≡ false
      → Answered (id, e)
      → All Answered s
      → ((x : ℕ) → contains (ids r) x ≡ true → contains (ids s) x ≡ true)
      → ((s' : List (ℕ × RawEvent))
          → All Answered s'
          → ((x : ℕ) → contains (ids r) x ≡ true → contains (ids s') x ≡ true)
          → number_by c r ≤ number_by c s')
      → one_if (e.creator == c) + number_by c r ≤ number_by c s
  unfolding number_by
  number_by-le_step c id e r s cut apart answered a within rest =
      let (own, others) =
        All-middle cut.before cut.after (id, cut.event) (subst (All Answered) cut.whole a) in
      let same : cut.event ≡ e =
        some_injective cut.event e (ok_injective (some cut.event) (some e) (sym own ∙ answered)) in
      let ih = rest (cut.before ++ cut.after) others (λ x h. elim (Bool-cases (id == x)) [
        | inl same_id ↦
            let here : contains (ids r) id ≡ true =
              subst (λ y. contains (ids r) y ≡ true)
                (sym ((nat_comparable.same_iff id x).0 same_id)) h in
            absurd (ground (arith, here, apart))
        | inr other ↦ ground (
          arith,
          other,
          within x h,
          ap (λ l. contains (ids l) x) cut.whole,
          ids-append cut.before ((id, cut.event) ∷ cut.after) x,
          ids-append cut.before cut.after x,
        )
      ]) in
      omega (
        arith,
        ih,
        ap (number_by c) cut.whole,
        ap (λ (y : RawEvent). one_if (y.creator == c)) same,
        number_by-append c cut.before ((id, cut.event) ∷ cut.after),
        number_by-append c cut.before cut.after,
      )

  number_by-le :
      (c : ℕ) (r s : List (ℕ × RawEvent))
      → IsDistinct r
      → All Answered r
      → All Answered s
      → ((x : ℕ) → contains (ids r) x ≡ true → contains (ids s) x ≡ true)
      → number_by c r ≤ number_by c s
  unfolding number_by
  number_by-le c [] s d a a' within = omega arith
  number_by-le c ((id, e) ∷ r) s d a a' within =
      number_by-le_step c id e r s
        (split id s (within id (ground (arith, nat_comparable.same_iff id id)))) d.0 a.0 a'
        (λ x h. within x (ground (arith, h))) (λ s' b w. number_by-le c r s' d.1 a.1 b w)

module _ (client client' : DagClient) where
  -- What the first client answered, the second answers as well: events do not change.
  abbrev pub IsKept : Type 0
  IsKept =
      (x : ℕ) (e : RawEvent) → client.dag_event x ≡ ok (some e) → client'.dag_event x ≡ ok (some e)

  reached_later :
      (heads heads' : List ℕ) {x : ℕ}
      → IsKept
      → ((y : ℕ) → contains heads y ≡ true → Reaches client'.dag_event parents_of heads' y)
      → Reaches client.dag_event parents_of heads x
      → Reaches client'.dag_event parents_of heads' x
  reached_later heads heads' {x = x} kept within (pending h) = within x h
  reached_later heads heads' kept within (parent {y = y} {a = a} r f c) =
      parent (reached_later heads heads' kept within r) (kept y a f) c

  -- Of two counts, the second of which still finds the events of the first, and the first's heads among
  -- its own heads and their ancestors, the second counts as many events of every validator or more; so
  -- no rate that is computed from their differences is negative.
  pub counts-le :
      (fuel fuel' : ℕ) (heads heads' : List ℕ) (counts counts' : Map ℕ ℕ)
      → count_events_from_heads client fuel heads ≡ some (ok counts)
      → count_events_from_heads client' fuel' heads' ≡ some (ok counts')
      → IsKept
      → ((y : ℕ) → contains heads y ≡ true → Reaches client'.dag_event parents_of heads' y)
      → (c : ℕ) → count_of c counts ≤ count_of c counts'
  counts-le fuel fuel' heads heads' counts counts' h h' kept within c =
      let (read, first) = count-IsCounted client fuel heads counts h in
      let (read', second) = count-IsCounted client' fuel' heads' counts' h' in
      let le =
        number_by-le client'.dag_event c read read' first.distinct
          (All-imp read (λ entry f. kept entry.0 entry.1 f) first.answered) second.answered
          (λ x k.
            let (reached, (e, f)) = (first.listed x).0 k in
            (second.listed x).1
              (reached_later heads heads' kept within reached, (e, kept x e f))) in
      omega (arith, le, first.tally c, second.tally c)
