-- ===== src/Tests/EmissionsTests.antt =====
-- The emission observer of driver/monitoring/transactions/emissions.go at a concrete DAG.
use norma.Base.{
  ℕ, ◌≡◌, refl, true, false, Option, some, none, List, [], ◌∷◌, nat_comparable, ◌==◌, arith,
  if◌then◌else◌, contains, length, ◌+◌, ◌<◌, subst, sym, ◌∙◌, some_injective, All,
}
use norma.Base.Results.{Result, ok, err}
use norma.Dag.{push_all}
use norma.Dag.Bound.{unread, IsUniverse}
use norma.Tracker.Data.{new_tracker}
use norma.Tracker.Emissions.{
  DagEvent, EmissionError, no_payload, Client, EmissionObserver, new_emission_observer, mark_all,
  take_event, walk, poll_events, Tick, Follower, follow_tick, follow_events,
}
use norma.Tracker.Emissions.Followed.{parents_of}
use norma.Tracker.Emissions.Explored.{IsPolled, poll_events-IsPolled}
use norma.Tracker.Emissions.Once.{IsHistory, IsBounded, IsAnswered, follow_events-IsHistory}

abbrev event_over : List ℕ → DagEvent
event_over parents = record { creation_time = 50; parents = parents; transactions = [] }

-- Event 3 is over 1 and 2, and 2 is over 1.
abbrev payload : ℕ → Result EmissionError (Option DagEvent)
payload id =
    if id == 3
    then ok (some (event_over (1 ∷ 2 ∷ [])))
    else if id == 2
    then ok (some (event_over (1 ∷ [])))
    else if id == 1
    then ok (some (event_over []))
    else ok none

abbrev answering : Client
answering = record {
  current_epoch = some 7;
  heads_of = λ epoch. some (3 ∷ []);
  event_payload = payload;
}

-- Event 2 cannot be read.
abbrev failing : Client
failing = record answering {
  event_payload = λ id. if id == 2 then err (no_payload 2) else payload id;
}

-- Later, event 4 stands over 3.
abbrev recovered : Client
recovered = record answering {
  heads_of = λ epoch. some (4 ∷ []);
  event_payload = λ id. if id == 4 then ok (some (event_over (3 ∷ []))) else payload id;
}

abbrev fresh : EmissionObserver
fresh = new_emission_observer new_tracker

abbrev tick_of : Client → Tick
tick_of c = record { dials = true; client = c; cancelled = λ i. false }

abbrev started : Follower
started = record { connected = false; observer = fresh }

all_read :
    poll_events answering (λ i. false) 9 fresh
    ≡ some (record fresh { visited = 1 ∷ 2 ∷ 3 ∷ []; events = 3 }, ok tt)
unfolding poll_events walk take_event mark_all push_all
all_read = refl

-- A failed read drops what is pending: event 1 is not read in the next poll either, and never will be,
-- since the events above it are visited.
event_lost :
    follow_events 9 started (tick_of failing ∷ tick_of recovered ∷ [])
    ≡ some (record {
      connected = true;
      observer = record fresh { visited = 4 ∷ 2 ∷ 3 ∷ []; events = 2; failures = 1 };
    })
unfolding follow_events follow_tick poll_events walk take_event mark_all push_all
event_lost = refl

three_events : IsUniverse payload parents_of (3 ∷ 2 ∷ 1 ∷ [])
three_events x y a h f c = ground (arith, h, f, c)

poll_events-IsPolled_example :
    (o' : EmissionObserver) × (r : Result EmissionError (Unit {0})) × (poll_events answering
        (λ i. false)
        9
        fresh
      ≡ some (o', r))
    × IsPolled answering (3 ∷ []) fresh o' r
unfolding unread
poll_events-IsPolled_example =
    poll_events-IsPolled answering (λ i. false) 9 7 (3 ∷ []) (3 ∷ 2 ∷ 1 ∷ []) fresh refl refl
      (λ i. refl) three_events (λ x h. ground (arith, h)) (λ x y a h f c. absurd cc) (omega arith)

four_events : IsUniverse recovered.event_payload parents_of (4 ∷ 3 ∷ 2 ∷ 1 ∷ [])
four_events x y a h f c = ground (arith, h, f, c)

failing_events : IsUniverse failing.event_payload parents_of (3 ∷ 2 ∷ 1 ∷ [])
failing_events x y a h f c = ground (arith, h, f, c)

bounded :
    (c : Client) (hs us : List ℕ)
    → ((epoch : ℕ) → c.heads_of epoch ≡ some hs)
    → IsUniverse c.event_payload parents_of us
    → ((x : ℕ) → contains hs x ≡ true → contains us x ≡ true)
    → length hs + unread c.event_payload parents_of [] us < 9
    → IsBounded 9 (tick_of c)
bounded c hs us answers universe within enough = (
  us,
  universe,
  λ epoch heads e f.
      subst
        (λ l.
          ((x : ℕ) → contains l x ≡ true → contains us x ≡ true)
          × (length l + unread c.event_payload parents_of [] us < 9))
        (some_injective hs heads (sym (answers epoch) ∙ f)) (within, enough),
)

abbrev ticks : List Tick
ticks = tick_of failing ∷ tick_of recovered ∷ []

ticks-IsBounded : All (IsBounded 9) ticks
unfolding unread
ticks-IsBounded = (
  bounded failing (3 ∷ []) (3 ∷ 2 ∷ 1 ∷ []) (λ epoch. refl) failing_events
      (λ x h. ground (arith, h)) (omega arith),
  (
    bounded recovered (4 ∷ []) (4 ∷ 3 ∷ 2 ∷ 1 ∷ []) (λ epoch. refl) four_events
        (λ x h. ground (arith, h)) (omega arith),
    tt,
  ),
)

follow_events-IsHistory_example :
    (f : Follower) × (follow_events 9 started ticks ≡ some f)
    × ((read : List (ℕ × DagEvent)) × IsHistory (IsAnswered ticks) new_tracker f.observer read)
follow_events-IsHistory_example = follow_events-IsHistory ticks 9 new_tracker ticks-IsBounded
