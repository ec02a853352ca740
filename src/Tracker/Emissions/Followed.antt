-- ===== src/Tracker/Emissions/Followed.antt =====
-- What one walk of the emission observer reads, and that it ends.
use norma.Base.{
  ℕ, zero, suc, ◌+◌, ◌<◌, ◌≡◌, inl, inr, refl, ap, ◌∙◌, Bool, true, none, some, List, [], ◌∷◌,
  contains, nat_comparable, Bool-cases, Option-cases, some_injective, subst, length, arith,
}
use norma.Base.Results.{Result, ok, err, Result-cases}
use norma.Dag.{
  push_all, push_all-IsPushed, contains-push_all, length-push_all, End, finished, stopped, broken,
  Walks, finishes, stops, breaks, skips, misses, reads,
}
use norma.Dag.Bound.{degree, unread, IsUniverse, unread_spent}
use norma.Tracker.Data.{Tracker}
use norma.Tracker.Emissions.{
  DagEvent, EmissionError, Client, EmissionObserver, mark_all, visit, take_event, walk,
}

abbrev pub parents_of : DagEvent → List ℕ
parents_of e = e.parents

-- The reports to the tracker for the events read, in order.
unfoldable pub mark_events : Tracker → List (ℕ × DagEvent) → Tracker
mark_events t [] = t
mark_events t ((id, e) ∷ es) = mark_events (mark_all t e.creation_time e.transactions) es

abbrev pub IsEnd : (ℕ → Bool) → End EmissionError → Result EmissionError (Unit {0}) → Type 0
IsEnd cancelled finished r = r ≡ ok tt
IsEnd cancelled stopped r = (r ≡ ok tt) × ((i : ℕ) × (cancelled i ≡ true))
IsEnd cancelled (broken e) r = r ≡ err e

module _ (client : Client) (cancelled : ℕ → Bool) where
  -- The walk read the events of `read`, and did with each what it had to, once.
  pub record IsWalked (o : EmissionObserver) (pending : List ℕ) (o' : EmissionObserver)
      (r : Result EmissionError (Unit {0})) (read : List (ℕ × DagEvent)) (end : End EmissionError)
      : Type 0 where
    pub walks : Walks client.event_payload parents_of o.visited pending read o'.visited end
    pub ends : IsEnd cancelled end r
    pub marks : o'.tracker ≡ mark_events o.tracker read
    pub counts : o'.events ≡ o.events + length read
    pub failures : o'.failures ≡ o.failures

  abbrev IsOutcome :
      EmissionObserver → List ℕ → EmissionObserver × Result EmissionError (Unit {0}) → Type 0
  IsOutcome o pending x =
      (read : List (ℕ × DagEvent)) × (end : End EmissionError) × IsWalked o pending x.0 x.1 read end

  settled :
      (o : EmissionObserver) (pending : List ℕ)
      (x y : EmissionObserver × Result EmissionError (Unit {0}))
      → some x ≡ some y
      → IsOutcome o pending x
      → IsOutcome o pending y
  settled o pending x y h w = subst (IsOutcome o pending) (some_injective x y h) w

  pub walk-IsWalked :
      (fuel i : ℕ) (pending : List ℕ) (o o' : EmissionObserver)
      (r : Result EmissionError (Unit {0}))
      → walk client cancelled fuel i pending o ≡ some (o', r)
      → (read : List (ℕ × DagEvent)) × (end : End EmissionError) × IsWalked o pending o' r read end
  unfolding walk take_event mark_events
  walk-IsWalked zero i pending o o' r h = absurd cc
  walk-IsWalked (suc fuel) i [] o o' r h =
      settled o [] (o, ok tt) (o', r) h
        (
          [],
          finished,
          record {
            walks = finishes;
            ends = refl;
            marks = refl;
            counts = omega arith;
            failures = refl;
          },
        )
  walk-IsWalked (suc fuel) i (id ∷ pending) o o' r h = elim (Bool-cases (cancelled i)) [
    | inl late ↦
        settled o (id ∷ pending) (o, ok tt) (o', r) (rw (walk, late) at h)
          (
            [],
            stopped,
            record {
              walks = stops;
              ends = (refl, (i, late));
              marks = refl;
              counts = omega arith;
              failures = refl;
            },
          )
    | inr early ↦ elim (Bool-cases (contains o.visited id)) [
      | inl old ↦
          let (read, end, w) =
            walk-IsWalked fuel (suc i) pending o o' r (rw (walk, early, old) at h) in
          (
            read,
            end,
            record {
              walks = skips id old w.walks;
              ends = w.ends;
              marks = w.marks;
              counts = w.counts;
              failures = w.failures;
            },
          )
      | inr new ↦ elim (Result-cases (client.event_payload id)) [
        | inr (e, f) ↦
            settled o (id ∷ pending) (visit id o, err e) (o', r) (rw (walk, early, new, f) at h)
              (
                [],
                broken e,
                record {
                  walks = breaks id e new f;
                  ends = refl;
                  marks = refl;
                  counts = omega arith;
                  failures = refl;
                },
              )
        | inl (found, f) ↦ elim (Option-cases found) [
          | inl gone ↦
              let payload : client.event_payload id ≡ ok none = f ∙ ap ok gone in
              let (read, end, w) =
                walk-IsWalked fuel (suc i) pending (visit id o) o' r
                  (rw (walk, early, new, payload) at h) in
              (
                read,
                end,
                record {
                  walks = misses id new payload w.walks;
                  ends = w.ends;
                  marks = w.marks;
                  counts = w.counts;
                  failures = w.failures;
                },
              )
          | inr (event, there) ↦
              let payload : client.event_payload id ≡ ok (some event) = f ∙ ap ok there in
              let (read, end, w) =
                walk-IsWalked fuel (suc i) (push_all event.parents pending)
                  (take_event event (visit id o)) o' r (rw (walk, early, new, payload) at h) in
              let pushed = push_all-IsPushed (id ∷ o.visited) event.parents pending in
              (
                (id, event) ∷ read,
                end,
                record {
                  walks = reads id event new payload pushed w.walks;
                  ends = w.ends;
                  marks = w.marks;
                  counts = omega (arith, w.counts);
                  failures = w.failures;
                },
              )
        ]
      ]
    ]
  ]

  -- The walk returns: with fuel for what is pending and for the parents of the events it has not
  -- visited, of some list that holds what is pending with all its ancestors.
  pub walk_ends :
      (us : List ℕ) (fuel i : ℕ) (pending : List ℕ) (o : EmissionObserver)
      → IsUniverse client.event_payload parents_of us
      → ((x : ℕ) → contains pending x ≡ true → contains us x ≡ true)
      → length pending + unread client.event_payload parents_of o.visited us < fuel
      → (x : EmissionObserver × Result EmissionError (Unit {0})) × (walk client cancelled fuel i
            pending o
          ≡ some x)
  unfolding walk take_event
  walk_ends us zero i pending o u within enough = absurd (omega arith)
  walk_ends us (suc fuel) i [] o u within enough = ((o, ok tt), refl)
  walk_ends us (suc fuel) i (id ∷ pending) o u within enough = elim (Bool-cases (cancelled i)) [
    | inl late ↦ ((o, ok tt), rw (walk, late) refl)
    | inr early ↦ elim (Bool-cases (contains o.visited id)) [
      | inl old ↦
          let (x, e) =
            walk_ends us fuel (suc i) pending o u (λ x h. within x (ground arith)) (omega arith) in
          (x, rw (walk, early, old) e)
      | inr new ↦
          let known = within id (ground (arith, nat_comparable.same_iff id id)) in
          let spent = unread_spent client.event_payload parents_of id o.visited us new known in
          elim (Result-cases (client.event_payload id)) [
            | inr (e, f) ↦ ((visit id o, err e), rw (walk, early, new, f) refl)
            | inl (found, f) ↦ elim (Option-cases found) [
              | inl gone ↦
                  let payload : client.event_payload id ≡ ok none = f ∙ ap ok gone in
                  let (x, e) =
                    walk_ends us fuel (suc i) pending (visit id o) u
                      (λ x h. within x (ground arith)) (omega arith) in
                  (x, rw (walk, early, new, payload) e)
              | inr (event, there) ↦
                  let payload : client.event_payload id ≡ ok (some event) = f ∙ ap ok there in
                  let cost : degree client.event_payload parents_of id ≡ length event.parents =
                    rw (degree, payload) refl in
                  let (x, e) =
                    walk_ends us fuel (suc i) (push_all event.parents pending)
                      (take_event event (visit id o)) u
                      (λ x h. ground (
                        arith,
                        contains-push_all event.parents pending x,
                        u x id event known payload,
                        within x,
                      ))
                      (omega (arith, length-push_all event.parents pending)) in
                  (x, rw (walk, early, new, payload) e)
            ]
          ]
    ]
  ]
