-- ===== src/Tracker/Inclusions/Once.antt =====
-- The observer reports a height at most once, and accounts for every height announced.
use norma.Base.{
  All, All-append, All-self, Some, subst, ℕ, ◌+◌, ◌≡◌, ◌≤◌, refl, ap, Bool, true, none, List, [],
  ◌∷◌, ◌++◌, length, length-append, ltb, arith, if◌then◌else◌, ◌==◌, nat_comparable, inl, inr,
  Bool-cases, Option-cases,
}
use norma.Base.Map.{Map, lookup, insert, has, one_if, lookup-insert}
use norma.Tracker.Blocks.{BlockLimit}
use norma.Tracker.Data.{Tracker}
use norma.Tracker.{mark_block, mark_block_limits}
use norma.Tracker.Inclusions.{
  Announced, Observer, new_observer, count_missed, on_block, Answer, unreachable, unreadable,
  contents, Observed, take_block, Event, announce, answer, observe_event, observe_all,
  pending_blocks,
}

-- A block that was reported, with what the network answered for it.
pub record Report : Type 0 where
  pub block : Announced
  pub txs : List (ℕ × ℕ)
  pub limits : BlockLimit

-- The tracker after the reports, the latest first.
abbrev pub report_all : Tracker → List Report → Tracker
report_all t [] = t
report_all t (r ∷ rs) =
    let t' = mark_block (report_all t rs) r.block.height r.block.time r.txs in
    mark_block_limits t' r.block.height r.limits

abbrev occurrences : ℕ → List Report → ℕ
occurrences h [] = 0
occurrences h (r ∷ rs) = one_if (r.block.height == h) + occurrences h rs

abbrev queued : ℕ → List Announced → ℕ
queued h [] = 0
queued h (b ∷ bs) = one_if (b.height == h) + queued h bs

queued-append :
    (h : ℕ) (bs : List Announced) (b : Announced)
    → queued h (bs ++ b ∷ []) ≡ queued h bs + one_if (b.height == h)
queued-append h [] b = omega arith
queued-append h (c ∷ bs) b = omega (arith, queued-append h bs b)

length-insert_new :
    (k : ℕ) (m : Map ℕ Bool) → lookup k m ≡ none → length (insert k true m) ≡ length m + 1
unfolding lookup insert
length-insert_new k [] e = omega arith
length-insert_new k (entry ∷ m) e = ground (arith, length-insert_new k m)

-- A block was announced; an answer was given.
abbrev IsAnnounced : List Event → Announced → Type 0
IsAnnounced es b = Some (λ e. e ≡ announce b) es

abbrev IsGiven : List Event → Report → Type 0
IsGiven es r = Some (λ e. e ≡ answer (contents r.txs r.limits)) es

-- The tracker is as the reports have left it, from `t` on, each of a block that was announced, with an
-- answer that was given, in the events `es`. A height stands at most once in the queue and among the
-- reports together, and only where it was seen; the queue is bounded; and the heights seen are waiting,
-- reported or counted as missed.
pub record IsAccounted (es : List Event) (t : Tracker) (reported : List Report) (s : Observed)
    : Type 0 where
  pub tracked : s.tracker ≡ report_all t reported
  pub waiting : All (IsAnnounced es) s.observer.queue
  pub told : All (λ r. IsAnnounced es r.block × IsGiven es r) reported
  pub once :
      (h : ℕ) → queued h s.observer.queue + occurrences h reported ≤ one_if (has h s.observer.seen)
  pub bounded : length s.observer.queue ≤ pending_blocks
  pub complete :
      length s.observer.seen ≡ length s.observer.queue + length reported + s.observer.missed

on_block_new :
    (o : Observer) (b : Announced)
    → lookup b.height o.seen ≡ none
    → on_block o b ≡ (
        if ltb (length o.queue) pending_blocks
        then record o { queue = o.queue ++ b ∷ []; seen = insert b.height true o.seen }
        else record o { seen = insert b.height true o.seen; missed = o.missed + 1 })
unfolding on_block
on_block_new o b e = ground (arith, e)

module _ (es : List Event) (t : Tracker) where
  on_block-IsAccounted :
      (reported : List Report) (s : Observed) (b : Announced)
      → IsAnnounced es b
      → IsAccounted es t reported s
      → IsAccounted es t reported (record s { observer = on_block s.observer b })
  unfolding on_block
  on_block-IsAccounted reported s b known a =
      let o = s.observer in
      elim (Option-cases (lookup b.height o.seen)) [
        | inr (x, e) ↦
            let same : on_block o b ≡ o = ground (arith, e) in
            rw same (record {
              tracked = a.tracked;
              waiting = a.waiting;
              told = a.told;
              once = a.once;
              bounded = a.bounded;
              complete = a.complete;
            })
        | inl e ↦
            let grown = length-insert_new b.height o.seen e in
            let absent = a.once b.height in
            elim (Bool-cases (ltb (length o.queue) pending_blocks)) [
              | inl room ↦
                  rw (on_block_new o b e, room)
                    (record {
                      tracked = a.tracked;
                      waiting = All-append (IsAnnounced es) o.queue (b ∷ []) a.waiting (known, tt);
                      told = a.told;
                      once = λ h. ground (
                        arith,
                        a.once h,
                        absent,
                        e,
                        queued-append h o.queue b,
                        lookup-insert b.height h true o.seen,
                      );
                      bounded = ground (arith, length-append o.queue (b ∷ []));
                      complete = omega (arith, grown, a.complete, length-append o.queue (b ∷ []));
                    })
              | inr full ↦
                  rw (on_block_new o b e, full)
                    (record {
                      tracked = a.tracked;
                      waiting = a.waiting;
                      told = a.told;
                      once = λ h. ground (arith, a.once h, e, lookup-insert b.height h true o.seen);
                      bounded = a.bounded;
                      complete = omega (arith, grown, a.complete);
                    })
            ]
      ]

  -- What is known after an event, with the reports it may have added.
  abbrev IsStill : Observed → Type 0
  IsStill s = (reported : List Report) × IsAccounted es t reported s

  -- A block that could not be read.
  missed-IsAccounted :
      (reported : List Report) (s : Observed) (b : Announced) (bs : List Announced)
      → s.observer.queue ≡ b ∷ bs
      → IsAccounted es t reported s
      → IsAccounted es t reported
          (record s { observer = count_missed (record s.observer { queue = bs }) })
  missed-IsAccounted reported s b bs e a = record {
    tracked = a.tracked;
    waiting = (subst (All (IsAnnounced es)) e a.waiting).1;
    told = a.told;
    once = λ h. ground (arith, a.once h, ap (queued h) e);
    bounded = ground (arith, a.bounded, ap length e);
    complete = ground (arith, a.complete, ap length e);
  }

  take_block-IsAccounted :
      (reported : List Report) (s : Observed) (b : Announced) (bs : List Announced) (x : Answer)
      → s.observer.queue ≡ b ∷ bs
      → Some (λ e. e ≡ answer x) es
      → IsAccounted es t reported s
      → IsStill (take_block b bs x s)
  unfolding take_block
  take_block-IsAccounted reported s b bs unreachable e given a =
      (reported, missed-IsAccounted reported s b bs e a)
  take_block-IsAccounted reported s b bs unreadable e given a =
      (reported, missed-IsAccounted reported s b bs e a)
  take_block-IsAccounted reported s b bs (contents txs limits) e given a =
      let known = subst (All (IsAnnounced es)) e a.waiting in
      (
        record { block = b; txs = txs; limits = limits } ∷ reported,
        record {
          tracked =
              ap (λ t'. mark_block_limits (mark_block t' b.height b.time txs) b.height limits)
                a.tracked;
          waiting = known.1;
          told = ((known.0, given), a.told);
          once = λ h. ground (arith, a.once h, ap (queued h) e);
          bounded = ground (arith, a.bounded, ap length e);
          complete = ground (arith, a.complete, ap length e);
        },
      )

  answer-IsAccounted :
      (reported : List Report) (s : Observed) (x : Answer) (q : List Announced)
      → s.observer.queue ≡ q
      → Some (λ e. e ≡ answer x) es
      → IsAccounted es t reported s
      → IsStill (observe_event s (answer x))
  unfolding observe_event
  answer-IsAccounted reported s x [] e given a = rw (observe_event, e) (reported, a)
  answer-IsAccounted reported s x (b ∷ bs) e given a =
      rw (observe_event, e) (take_block-IsAccounted reported s b bs x e given a)

  event-IsAccounted :
      (reported : List Report) (s : Observed) (e : Event)
      → Some (λ e'. e' ≡ e) es
      → IsAccounted es t reported s
      → IsStill (observe_event s e)
  unfolding observe_event
  event-IsAccounted reported s (announce b) given a =
      (reported, on_block-IsAccounted reported s b given a)
  event-IsAccounted reported s (answer x) given a =
      answer-IsAccounted reported s x s.observer.queue refl given a

  events-IsAccounted :
      (later : List Event)
      → All (λ e. Some (λ e'. e' ≡ e) es) later
      → (reported : List Report) (s : Observed) → IsAccounted es t reported s
      → IsStill (observe_all s later)
  unfolding observe_all
  events-IsAccounted [] given reported s a = (reported, a)
  events-IsAccounted (e ∷ later) (own, given) reported s a =
      let (reported', a') = event-IsAccounted reported s e own a in
      events-IsAccounted later given reported' (observe_event s e) a'

abbrev pub started : Tracker → Observed
started t = record { observer = new_observer; tracker = t }

started-IsAccounted : (es : List Event) (t : Tracker) → IsAccounted es t [] (started t)
unfolding lookup
started-IsAccounted es t = record {
  tracked = refl;
  waiting = tt;
  told = tt;
  once = λ h. omega arith;
  bounded = omega arith;
  complete = refl;
}

-- After any sequence of announcements and answers from the start, the tracker is as the reports of
-- blocks to it have left it: each report is of a block that was announced, with an answer that was
-- given; no height was reported twice, nor waits again after its report; the queue holds at most 1024
-- blocks; and the heights seen are as many as those that wait, that were reported and that are counted
-- as missed.
pub observe_all-IsAccounted :
    (es : List Event) (t : Tracker)
    → (reported : List Report) × IsAccounted es t reported (observe_all (started t) es)
observe_all-IsAccounted es t =
    events-IsAccounted es t es (All-self es) [] (started t) (started-IsAccounted es t)
