-- ===== src/Tests/ThrottlingTests.antt =====
-- The check of the event throttler of driver/checking/event_throttled.go at a concrete DAG. A rate is a
-- number of events.
use norma.Base.{
  ℕ, ◌*◌, ◌≡◌, ◌≤◌, ◌≢◌, refl, true, false, Option, some, none, List, [], ◌∷◌, String, contains,
  nat_comparable, string_comparable, ◌==◌, ltb, leb, arith, if◌then◌else◌, subst,
}
use norma.Base.Int.{pos_part, ◌-ℤ◌}
use norma.Base.Map.{Map, lookup, insert}
use norma.Base.Results.{Result, ok, err}
use norma.Dag.{push_all, Reaches, pending, parent}
use norma.Dag.Bound.{unread, IsUniverse}
use norma.Checking.Snapshots.{
  ThrottleError, no_events, RawEvent, DagClient, count_of, push_unseen, count_from,
  count_events_from_heads, snapshot_epoch_counts,
}
use norma.Checking.Snapshots.Counted.{parents_of, IsTallied, count_events-IsTallied}
use norma.Checking.Snapshots.Later.{counts-le}
use norma.Checking.Throttling.{
  RateArithmetic, rates_between, rates_of, sample_emission_rates, extremes, judge_extremes,
  verify_throttled, collect_from, collect_emission_rates, ThrottleNode, by_label, throttled_ids,
  dial_first_reachable, check_throttled,
}
use norma.Checking.Throttling.Verdict.{IsLinear}
use norma.Checking.Throttling.Passed.{IsThrottled, check_throttled-IsThrottled}

abbrev by : ℕ → List ℕ → Result ThrottleError (Option RawEvent)
by creator parents = ok (some (record { creator = creator; parents = parents }))

-- Events 10, 11 and 13 are of validator 1, event 12 of validator 2.
abbrev dag : ℕ → Result ThrottleError (Option RawEvent)
dag id =
    if id == 13
    then by 1 (11 ∷ 12 ∷ [])
    else if id == 12
    then by 2 (10 ∷ [])
    else if id == 11
    then by 1 (10 ∷ [])
    else if id == 10
    then by 1 []
    else ok none

abbrev client_at : ℕ → List ℕ → DagClient
client_at time heads = record {
  current_epoch = some 7;
  taken_at = time;
  heads_of = λ epoch. some heads;
  dag_event = dag;
  cancelled = λ i. false;
}

abbrev early : DagClient
early = client_at 100 (11 ∷ [])

abbrev late : DagClient
late = client_at 105 (13 ∷ [])

early_counts : count_events_from_heads early 9 (11 ∷ []) ≡ some (ok ((1, 2) ∷ []))
unfolding count_from push_unseen push_all lookup insert
early_counts = refl

late_counts : count_events_from_heads late 9 (13 ∷ []) ≡ some (ok ((1, 3) ∷ (2, 1) ∷ []))
unfolding count_from push_unseen push_all lookup insert
late_counts = refl

abbrev events : RateArithmetic ℕ
events = record {
  less = ltb;
  is_zero = λ r. r == 0;
  ratio_reached = λ u m. leb (2 * m) u;
  per_second = λ n elapsed. pos_part n;
}

events_linear : IsLinear events
events_linear = record {
  asym = λ a b h. ground (arith, h);
  trans = λ a b c h k. ground (arith, h, k);
  antisym = λ a b h k. ground (arith, h, k);
}

sampled : sample_emission_rates events 9 early true late ≡ some (ok ((1, 1) ∷ (2, 1) ∷ []))
unfolding sample_emission_rates snapshot_epoch_counts rates_of rates_between count_from push_unseen
    push_all lookup insert ◌-ℤ◌
sampled = refl

halved : verify_throttled events (5 ∷ []) ((5, 4) ∷ (6, 8) ∷ []) ≡ ok tt
unfolding extremes judge_extremes
halved = refl

three_events : IsUniverse dag parents_of (13 ∷ 12 ∷ 11 ∷ 10 ∷ [])
three_events x y a h f c = ground (arith, h, f, c)

count_events-IsTallied_example :
    (r : Result ThrottleError (Map ℕ ℕ)) × (count_events_from_heads late 9 (13 ∷ []) ≡ some r)
    × IsTallied late (13 ∷ []) r
unfolding unread
count_events-IsTallied_example =
    count_events-IsTallied late (13 ∷ 12 ∷ 11 ∷ 10 ∷ []) 9 (13 ∷ []) (λ i. refl) three_events
      (λ x h. ground (arith, h)) (omega arith)

eleven : (y : ℕ) → contains (11 ∷ []) y ≡ true → 11 ≡ y
eleven y h = ground (arith, h)

counts-le_example : count_of 1 ((1, 2) ∷ []) ≤ count_of 1 ((1, 3) ∷ (2, 1) ∷ [])
counts-le_example =
    counts-le early late 9 9 (11 ∷ []) (13 ∷ []) ((1, 2) ∷ []) ((1, 3) ∷ (2, 1) ∷ []) early_counts
      late_counts (λ x e h. h)
      (λ y h.
        subst (Reaches dag parents_of (13 ∷ [])) (eleven y h)
          (parent (pending {x = 13} refl) refl refl))
      1

-- The second attempt succeeds.
abbrev attempts : ℕ → Result ThrottleError (Map ℕ ℕ)
attempts i = if i == 1 then ok ((5, 4) ∷ (6, 8) ∷ []) else err no_events

abbrev validator : String → ℕ → ThrottleNode ℕ
validator label id = record {
  label = label;
  validator_id = some id;
  expected_failure = false;
  client = some 0;
}

abbrev validators : List (ThrottleNode ℕ)
validators = validator "slow" 5 ∷ validator "fast" 6 ∷ []

abbrev measure : ℕ → Result ThrottleError (Map ℕ ℕ)
measure client = collect_emission_rates attempts (λ i. false) (λ i. true)

slow_passes : check_throttled events measure ("slow" ∷ []) validators ≡ ok tt
unfolding check_throttled by_label throttled_ids dial_first_reachable collect_from extremes
    judge_extremes lookup insert
slow_passes = refl

check_throttled-IsThrottled_example :
    (◌≢◌ {A = List String} ("slow" ∷ []) [])
    × ((expected : List ℕ) × IsThrottled events measure ("slow" ∷ []) validators expected)
check_throttled-IsThrottled_example =
    check_throttled-IsThrottled events measure ("slow" ∷ []) validators events_linear slow_passes
