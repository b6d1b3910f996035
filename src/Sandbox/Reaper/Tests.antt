-- ===== src/Sandbox/Reaper/Tests.antt =====
-- Examples of the sweeps (reaper.py).
use meetings.Prelude.{String, ◌≡◌, refl, Bool, true, false, none, some, List, [], ◌∷◌, All}
use meetings.Sandbox.Reaper.{
  MeetingRow, Item, meeting_of, reap_abandoned_meetings, sweep_orphaned_sandboxes,
}
use meetings.Sandbox.Reaper.Orphans.{sweep_orphaned_sandboxes-reap_abandoned_meetings}

abbrev rows : List MeetingRow
rows = record { id = "m"; status = "running"; terminated = false } ∷ []

abbrev items : List Item
items =
    record { name = "one"; label = some "m"; age = none }
    ∷ record { name = "two"; label = some "gone"; age = none }
    ∷ record { name = "three"; label = none; age = none }
    ∷ []

abbrev succeeds : String → Bool
succeeds name = true

sweep_orphaned_sandboxes-reap_abandoned_meetings_example :
    All
      (λ i. meeting_of i ≡ none)
      (sweep_orphaned_sandboxes succeeds (reap_abandoned_meetings rows).0 (some items)).0
sweep_orphaned_sandboxes-reap_abandoned_meetings_example =
    sweep_orphaned_sandboxes-reap_abandoned_meetings succeeds rows items (λ name. refl)
