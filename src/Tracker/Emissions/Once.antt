-- ===== src/Tracker/Emissions/Once.antt =====
-- Over a whole run the emission observer reads no event twice.
use norma.Base.{
  ℕ, ◌≡◌, inl, inr, refl, ap, sym, ◌∙◌, Bool, true, false, Option, some, List, [], ◌∷◌, ◌++◌,
  contains, nat_comparable, length, arith, subst, ◌||◌, length-append, Bool-cases, Option-cases,
  some_injective, All, All-imp, All-append, Some, ◌<◌, ◌+◌,
}
use norma.Base.Results.{Result, ok, err}
use norma.Dag.{push_all, contains-push_all, length-push_all, End}
use norma.Dag.Bound.{unread, unread_fewer, IsUniverse}
use norma.Dag.Once.{
  IsDistinct, walk-IsDistinct, ids, ids-append, append-IsDistinct, found, walk-IsRead, grows,
}
use norma.Tracker.Data.{Tracker}
use norma.Tracker.Emissions.{
  DagEvent, EmissionError, Client, EmissionObserver, new_emission_observer, poll_events, mark_all,
  Tick, Follower, after_poll, no_epoch, no_heads, follow_tick, follow_events,
}
use norma.Tracker.Emissions.Explored.{poll_walks}
use norma.Tracker.Emissions.Followed.{mark_events, parents_of, IsWalked, walk-IsWalked, walk_ends}

mark_events-append :
    (t : Tracker) (r s : List (ℕ × DagEvent))
    → mark_events t (r ++ s) ≡ mark_events (mark_events t r) s
unfolding mark_events
mark_events-append t [] s = refl
mark_events-append t ((id, e) ∷ r) s =
    mark_events-append (mark_all t e.creation_time e.transactions) r s

-- The events of `read`, all different and each answered by a client, are what the observer has read
-- since the tracker was `t`.
pub record IsHistory (Answered : ℕ × DagEvent → Type 0) (t : Tracker) (o : EmissionObserver)
    (read : List (ℕ × DagEvent)) : Type 0 where
  pub answers : All Answered read
  pub distinct : IsDistinct read
  pub seen : (x : ℕ) → contains (ids read) x ≡ true → contains o.visited x ≡ true
  pub marks : o.tracker ≡ mark_events t read
  pub counts : o.events ≡ length read

-- A client's answers count as `A`.
module _ (A : ℕ × DagEvent → Type 0) where
  abbrev Gives : Client → Type 0
  Gives client = (p : ℕ × DagEvent) → client.event_payload p.0 ≡ ok (some p.1) → A p

  walk-IsHistory :
      (client : Client) (from : Gives client) (cancelled : ℕ → Bool) (t : Tracker)
      (old : List (ℕ × DagEvent)) (pending : List ℕ) (o o' : EmissionObserver)
      (r : Result EmissionError (Unit {0})) (read : List (ℕ × DagEvent)) (end : End EmissionError)
      → IsHistory A t o old
      → IsWalked client cancelled o pending o' r read end
      → IsHistory A t o' (old ++ read)
  walk-IsHistory client from cancelled t old pending o o' r read end h w =
      let fetch = client.event_payload in
      let answers = walk-IsRead fetch parents_of w.walks in
      record {
        answers = All-append A old read h.answers (All-imp read (λ p r. from p r.answered) answers);
        distinct =
            append-IsDistinct old read h.distinct (walk-IsDistinct fetch parents_of w.walks) (λ x c.
              elim (Bool-cases (contains (ids read) x)) [
                | inl again ↦
                    let seen = h.seen x c in
                    let new =
                      (found fetch parents_of o.visited o'.visited read x answers again).0 in
                    absurd (ground (arith, seen, new))
                | inr apart ↦ apart
              ]);
        seen = λ x c. elim (Bool-cases (contains (ids read) x)) [
          | inl new ↦ (found fetch parents_of o.visited o'.visited read x answers new).1
          | inr apart ↦
              grows fetch parents_of w.walks x (h.seen x (ground (arith, ids-append old read x)))
        ];
        marks =
            w.marks ∙ ap (λ t'. mark_events t' read) h.marks ∙ sym (mark_events-append t old read);
        counts = omega (arith, w.counts, h.counts, length-append old read);
      }

  -- A poll adds to the history what its walk has read.
  polled :
      (client : Client) (from : Gives client) (cancelled : ℕ → Bool) (fuel : ℕ) (t : Tracker)
      (old : List (ℕ × DagEvent)) (o o' : EmissionObserver) (r : Result EmissionError (Unit {0}))
      → poll_events client cancelled fuel o ≡ some (o', r)
      → IsHistory A t o old
      → (read : List (ℕ × DagEvent)) × IsHistory A t o' read
  unfolding poll_events
  polled client from cancelled fuel t old o o' r h past = elim (Option-cases client.current_epoch) [
    | inl e ↦ unread (err no_epoch) (rw (poll_events, e) at h)
    | inr (epoch, e) ↦ elim (Option-cases (client.heads_of epoch)) [
      | inl f ↦ unread (err (no_heads epoch)) (rw (poll_events, e, f) at h)
      | inr (heads, f) ↦
          let (read, end, w) =
            walk-IsWalked client cancelled fuel 0 (push_all heads []) o o' r
              (rw (poll_events, e, f) at h) in
          (
            old ++ read,
            walk-IsHistory client from cancelled t old (push_all heads []) o o' r read end past w,
          )
    ]
  ]
    where
      unread :
          (x : Result EmissionError (Unit {0}))
          → ◌≡◌ {A = Option (EmissionObserver × Result EmissionError (Unit {0}))}
              (some (o, x))
              (some (o', r))
          → (read : List (ℕ × DagEvent)) × IsHistory A t o' read
      unread x same =
          subst
            (λ (y : EmissionObserver × Result EmissionError (Unit {0})).
              (read : List (ℕ × DagEvent)) × IsHistory A t y.0 read)
            (some_injective (o, x) (o', r) same) (old, past)

  after_poll-IsHistory :
      (t : Tracker) (x : EmissionObserver × Result EmissionError (Unit {0}))
      (read : List (ℕ × DagEvent))
      → IsHistory A t x.0 read
      → IsHistory A t (after_poll x).observer read
  after_poll-IsHistory t (o, ok u) read h = h
  after_poll-IsHistory t (o, err e) read h = record {
    answers = h.answers;
    distinct = h.distinct;
    seen = h.seen;
    marks = h.marks;
    counts = h.counts;
  }

  tick-IsHistory :
      (fuel : ℕ) (t : Tracker) (tick : Tick) (from : Gives tick.client) (f f' : Follower)
      (old : List (ℕ × DagEvent))
      → follow_tick fuel f tick ≡ some f'
      → IsHistory A t f.observer old
      → (read : List (ℕ × DagEvent)) × IsHistory A t f'.observer read
  unfolding follow_tick
  tick-IsHistory fuel t tick from f f' old h past = elim (Bool-cases (f.connected || tick.dials)) [
    | inr off ↦ (
      old,
      subst (λ (g : Follower). IsHistory A t g.observer old)
          (some_injective f f' (rw (follow_tick, off) at h)) past,
    )
    | inl on ↦ elim (Option-cases (poll_events tick.client tick.cancelled fuel f.observer)) [
      | inl e ↦ absurd (ground (arith, h, on, e))
      | inr (x, e) ↦
          let (read, now) =
            polled tick.client from tick.cancelled fuel t old f.observer x.0 x.1 e past in
          (
            read,
            subst (λ (g : Follower). IsHistory A t g.observer read)
                (some_injective (after_poll x) f' (rw (follow_tick, on, e) at h))
                (after_poll-IsHistory t x read now),
          )
    ]
  ]

  ticks-IsHistory :
      (ticks : List Tick) (from : All (λ tick. Gives tick.client) ticks) (fuel : ℕ) (t : Tracker)
      (f f' : Follower) (old : List (ℕ × DagEvent))
      → follow_events fuel f ticks ≡ some f'
      → IsHistory A t f.observer old
      → (read : List (ℕ × DagEvent)) × IsHistory A t f'.observer read
  unfolding follow_events
  ticks-IsHistory [] from fuel t f f' old h past =
      (old, subst (λ (g : Follower). IsHistory A t g.observer old) (some_injective f f' h) past)
  ticks-IsHistory (tick ∷ ticks) (from, later) fuel t f f' old h past =
      elim (Option-cases (follow_tick fuel f tick)) [
        | inl e ↦ absurd (ground (arith, h, e))
        | inr (g, e) ↦
            let (read, now) = tick-IsHistory fuel t tick from f g old e past in
            ticks-IsHistory ticks later fuel t g f' read (rw (follow_events, e) at h) now
      ]

-- The heads of a tick and all their ancestors are among finitely many events, and there is fuel for
-- the heads and for the parents of these events.
abbrev pub IsBounded : ℕ → Tick → Type 0
IsBounded fuel tick =
    (us : List ℕ) × IsUniverse tick.client.event_payload parents_of us
    × ((epoch : ℕ) (heads : List ℕ)
        → tick.client.current_epoch ≡ some epoch
        → tick.client.heads_of epoch ≡ some heads
        → ((x : ℕ) → contains heads x ≡ true → contains us x ≡ true)
          × (length heads + unread tick.client.event_payload parents_of [] us < fuel))

poll_returns :
    (fuel : ℕ) (tick : Tick) (o : EmissionObserver)
    → IsBounded fuel tick
    → (x : EmissionObserver × Result EmissionError (Unit {0})) × (poll_events tick.client
          tick.cancelled fuel o
        ≡ some x)
unfolding poll_events
poll_returns fuel tick o (us, universe, bound) = elim (Option-cases tick.client.current_epoch) [
  | inl e ↦ ((o, err no_epoch), rw (poll_events, e))
  | inr (epoch, e) ↦ elim (Option-cases (tick.client.heads_of epoch)) [
    | inl f ↦ ((o, err (no_heads epoch)), rw (poll_events, e, f))
    | inr (heads, f) ↦
        let (within, enough) = bound epoch heads e f in
        let (x, returns) =
          walk_ends tick.client tick.cancelled us fuel 0 (push_all heads []) o universe
            (λ x h. within x (ground (arith, contains-push_all heads [] x, h)))
            (omega (
              arith,
              length-push_all heads [],
              enough,
              unread_fewer tick.client.event_payload parents_of o.visited us,
            )) in
        (x, poll_walks tick.client tick.cancelled fuel epoch heads o e f ∙ returns)
  ]
]

ticks_return :
    (ticks : List Tick) (fuel : ℕ) (f : Follower)
    → All (IsBounded fuel) ticks
    → (f' : Follower) × (follow_events fuel f ticks ≡ some f')
unfolding follow_events follow_tick
ticks_return [] fuel f h = (f, refl)
ticks_return (tick ∷ ticks) fuel f (own, h) = elim (Bool-cases (f.connected || tick.dials)) [
  | inr off ↦
      let (g, e) = ticks_return ticks fuel f h in (g, rw (follow_events, follow_tick, off) e)
  | inl on ↦
      let (x, returns) = poll_returns fuel tick f.observer own in
      let (g, e) = ticks_return ticks fuel (after_poll x) h in
      (g, rw (follow_events, follow_tick, on, returns) e)
]

-- An event that the client of some tick answers.
abbrev pub IsAnswered : List Tick → ℕ × DagEvent → Type 0
IsAnswered ticks p = Some (λ tick. tick.client.event_payload p.0 ≡ ok (some p.1)) ticks

all-IsAnswered :
    (ticks : List Tick)
    → All
        (λ tick.
          (p : ℕ × DagEvent) → tick.client.event_payload p.0 ≡ ok (some p.1) → IsAnswered ticks p)
        ticks
all-IsAnswered [] = tt
all-IsAnswered (tick ∷ ticks) =
    (λ p. inl, All-imp ticks (λ other h p e. inr (h p e)) (all-IsAnswered ticks))

pub follow_events-IsHistory :
    (ticks : List Tick) (fuel : ℕ) (t : Tracker)
    → All (IsBounded fuel) ticks
    → (f : Follower) × (follow_events fuel
          (record { connected = false; observer = new_emission_observer t })
          ticks
        ≡ some f)
      × ((read : List (ℕ × DagEvent)) × IsHistory (IsAnswered ticks) t f.observer read)
unfolding mark_events
follow_events-IsHistory ticks fuel t bounded =
    let start : Follower = record { connected = false; observer = new_emission_observer t } in
    let (f, e) = ticks_return ticks fuel start bounded in
    (
      f,
      e,
      ticks-IsHistory (IsAnswered ticks) ticks (all-IsAnswered ticks) fuel t start f [] e (record {
        answers = tt;
        distinct = tt;
        seen = λ x c. absurd (cc);
        marks = refl;
        counts = refl;
      }),
    )
