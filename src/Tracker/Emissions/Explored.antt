-- ===== src/Tracker/Emissions/Explored.antt =====
-- What a poll of the emission observer adds.
use norma.Base.{
  ℕ, ◌+◌, ◌<◌, ◌≡◌, ap, sym, ◌∙◌, Bool, true, false, some, List, [], contains, nat_comparable,
  length, arith, All, All-imp,
}
use norma.Base.Results.{Result, ok, err}
use norma.Dag.{
  push_all, contains-push_all, length-push_all, End, finished, stopped, broken, IsClosed,
}
use norma.Dag.Once.{IsDistinct, walk-IsDistinct, walk-IsRead, walk_broken}
use norma.Dag.Ancestors.{IsExplored, walk-IsExplored, IsExplored-same}
use norma.Dag.Bound.{unread, IsUniverse}
use norma.Tracker.Emissions.{DagEvent, EmissionError, Client, EmissionObserver, walk, poll_events}
use norma.Tracker.Emissions.Followed.{mark_events, parents_of, IsWalked, walk-IsWalked, walk_ends}

module _ (client : Client) where
  -- The events of `read`, each of them once, are those that exist among the heads and their ancestors
  -- and were not visited; each had its transactions reported, in this order, and was counted.
  pub record IsFollowed (heads : List ℕ) (o o' : EmissionObserver) (read : List (ℕ × DagEvent))
      : Type 0 where
    pub explored : IsExplored client.event_payload parents_of o.visited heads read o'.visited
    pub distinct : IsDistinct read
    pub answers : All (λ p. client.event_payload p.0 ≡ ok (some p.1)) read
    pub marks : o'.tracker ≡ mark_events o.tracker read
    pub counts : o'.events ≡ o.events + length read

  -- A poll that succeeds has followed the events; one that fails could not read one of them.
  abbrev pub IsPolled :
      List ℕ → EmissionObserver → EmissionObserver → Result EmissionError (Unit {0}) → Type 0
  IsPolled heads o o' (ok u) = (read : List (ℕ × DagEvent)) × IsFollowed heads o o' read
  IsPolled heads o o' (err e) = (id : ℕ) × (client.event_payload id ≡ err e)

  walked :
      (cancelled : ℕ → Bool) (pending : List ℕ) (o o' : EmissionObserver)
      (r : Result EmissionError (Unit {0})) (read : List (ℕ × DagEvent)) (end : End EmissionError)
      → ((i : ℕ) → cancelled i ≡ false)
      → IsClosed client.event_payload parents_of o.visited
      → IsWalked client cancelled o pending o' r read end
      → IsPolled pending o o' r
  walked cancelled pending o o' (err e) read finished live closed w = absurd (let f = w.ends in cc)
  walked cancelled pending o o' (ok u) read finished live closed w = (
    read,
    record {
      explored = walk-IsExplored client.event_payload parents_of w.walks closed;
      distinct = walk-IsDistinct client.event_payload parents_of w.walks;
      answers =
          All-imp read (λ p r. r.answered) (walk-IsRead client.event_payload parents_of w.walks);
      marks = w.marks;
      counts = w.counts;
    },
  )
  walked cancelled pending o o' r read stopped live closed w =
      let (i, late) = w.ends.1 in let early = live i in absurd (ground (arith, late, early))
  walked cancelled pending o o' (ok u) read (broken x) live closed w = absurd (let f = w.ends in cc)
  walked cancelled pending o o' (err e) read (broken x) live closed w =
      walk_broken client.event_payload parents_of e w.walks (ap broken (ground (arith, w.ends)))

  IsPolled-same :
      (p q : List ℕ) (o o' : EmissionObserver) (r : Result EmissionError (Unit {0}))
      → ((x : ℕ) → contains p x ≡ contains q x)
      → IsPolled p o o' r
      → IsPolled q o o' r
  IsPolled-same p q o o' (err e) same w = w
  IsPolled-same p q o o' (ok u) same (read, w) = (
    read,
    record {
      explored =
          IsExplored-same client.event_payload parents_of o.visited p q read o'.visited same
            w.explored;
      distinct = w.distinct;
      answers = w.answers;
      marks = w.marks;
      counts = w.counts;
    },
  )

  pub poll_walks :
      (cancelled : ℕ → Bool) (fuel epoch : ℕ) (heads : List ℕ) (o : EmissionObserver)
      → client.current_epoch ≡ some epoch
      → client.heads_of epoch ≡ some heads
      → poll_events client cancelled fuel o ≡ walk client cancelled fuel 0 (push_all heads []) o
  unfolding poll_events
  poll_walks cancelled fuel epoch heads o e f = ground (arith, e, f)

  pub poll_events-IsPolled :
      (cancelled : ℕ → Bool) (fuel epoch : ℕ) (heads us : List ℕ) (o : EmissionObserver)
      → client.current_epoch ≡ some epoch
      → client.heads_of epoch ≡ some heads
      → ((i : ℕ) → cancelled i ≡ false)
      → IsUniverse client.event_payload parents_of us
      → ((x : ℕ) → contains heads x ≡ true → contains us x ≡ true)
      → IsClosed client.event_payload parents_of o.visited
      → length heads + unread client.event_payload parents_of o.visited us < fuel
      → (o' : EmissionObserver) × (r : Result EmissionError (Unit {0})) × (poll_events client
            cancelled fuel o
          ≡ some (o', r))
        × IsPolled heads o o' r
  poll_events-IsPolled cancelled fuel epoch heads us o e f live universe within closed enough =
      let pushed : (x : ℕ) → contains (push_all heads []) x ≡ contains heads x =
        λ x. ground (arith, contains-push_all heads [] x) in
      let ((o', r), returns) =
        walk_ends client cancelled us fuel 0 (push_all heads []) o universe
          (λ x h. within x (sym (pushed x) ∙ h)) (omega (arith, length-push_all heads [])) in
      let (read, end, w) =
        walk-IsWalked client cancelled fuel 0 (push_all heads []) o o' r returns in
      (
        o',
        r,
        poll_walks cancelled fuel epoch heads o e f ∙ returns,
        IsPolled-same (push_all heads []) heads o o' r pushed
            (walked cancelled (push_all heads []) o o' r read end live closed w),
      )
