-- ===== src/Tests/InclusionsTests.antt =====
-- The observer of the blocks at a concrete history.
use norma.Base.{ℕ, ◌≡◌, refl, ◌+◌, List, [], ◌∷◌, nat_comparable, string_comparable}
use norma.Base.Map.{lookup, insert}
use norma.Tracker.Data.{new_tracker}
use norma.Tracker.Inclusions.{
  Announced, Event, announce, answer, contents, unreadable, on_block, take_block, observe_event,
  observe_all,
}
use norma.Tracker.Inclusions.Once.{Report, IsAccounted, started, observe_all-IsAccounted}

abbrev at_height : ℕ → Announced
at_height h = record { height = h; time = 50 + h }

-- Two nodes announce block 3; block 4 cannot be read.
abbrev announcements : List Event
announcements =
    announce (at_height 3)
    ∷ announce (at_height 3)
    ∷ announce (at_height 4)
    ∷ answer (
        contents ((9, 21) ∷ [])
          (record { block = 0; gas_limit = 5; event_gas_limit = 6; gas_power_per_sec = 7 }))
    ∷ announce (at_height 3)
    ∷ answer unreadable
    ∷ []

one_missed : (observe_all (started new_tracker) announcements).observer.missed ≡ 1
unfolding observe_all observe_event on_block take_block lookup insert
one_missed = refl

observe_all-IsAccounted_example :
    (reported : List Report) × IsAccounted announcements new_tracker reported
      (observe_all (started new_tracker) announcements)
observe_all-IsAccounted_example = observe_all-IsAccounted announcements new_tracker
