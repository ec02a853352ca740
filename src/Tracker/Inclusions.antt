-- ===== src/Tracker/Inclusions.antt =====
-- driver/monitoring/transactions/inclusions.go: the observer that reads every announced block once
-- and reports it to the tracker. Announcements and reads come from different goroutines, so a
-- history is any sequence of them.
pub mod Once
use norma.Base.{
  ℕ, ◌+◌, Bool, true, false, List, [], ◌∷◌, ◌++◌, length, ltb, if◌then◌else◌, nat_comparable,
}
use norma.Base.Map.{Map, insert, has}
use norma.Tracker.Blocks.{BlockLimit}
use norma.Tracker.Data.{Tracker}
use norma.Tracker.{mark_block, mark_block_limits}

abbrev pub pending_blocks : ℕ
pending_blocks = 1024

-- An announced block: its height, and the moment it was logged.
pub record Announced : Type 0 where
  pub height : ℕ
  pub time : ℕ

pub record Observer : Type 0 where
  pub queue : List Announced
  pub seen : Map ℕ Bool
  pub missed : ℕ

abbrev pub new_observer : Observer
new_observer = record { queue = []; seen = []; missed = 0 }

abbrev pub count_missed : Observer → Observer
count_missed o = record o { missed = o.missed + 1 }

-- OnBlock
unfoldable pub on_block : Observer → Announced → Observer
on_block o block =
    let o' = record o { seen = insert block.height true o.seen } in
    if has block.height o.seen
    then o
    else if ltb (length o.queue) pending_blocks
    then record o' { queue = o.queue ++ block ∷ [] }
    else count_missed o'

-- How the network answers: it cannot be dialed, the block cannot be read, or it is read with its
-- transactions and limits.
pub data Answer : Type 0 where
  unreachable : Answer
  unreadable : Answer
  contents : List (ℕ × ℕ) → BlockLimit → Answer

-- The observer and the tracker that it reports to.
pub record Observed : Type 0 where
  pub observer : Observer
  pub tracker : Tracker

-- One block of the loop of `run`.
unfoldable pub take_block : Announced → List Announced → Answer → Observed → Observed
take_block block rest unreachable s = record s {
  observer = count_missed (record s.observer { queue = rest });
}
take_block block rest unreadable s = record s {
  observer = count_missed (record s.observer { queue = rest });
}
take_block block rest (contents txs limits) s = record {
  observer = record s.observer { queue = rest };
  tracker =
      mark_block_limits (mark_block s.tracker block.height block.time txs) block.height limits;
}

pub data Event : Type 0 where
  announce : Announced → Event
  answer : Answer → Event

-- An answer without a queued block waits: the loop reads from an empty channel.
unfoldable pub observe_event : Observed → Event → Observed
observe_event s (announce block) = record s { observer = on_block s.observer block }
observe_event s (answer a) = elim s.observer.queue [
  | [] ↦ s
  | block ∷ rest ↦ take_block block rest a s
]

unfoldable pub observe_all : Observed → List Event → Observed
observe_all s [] = s
observe_all s (e ∷ es) = observe_all (observe_event s e) es
