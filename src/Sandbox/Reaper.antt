-- ===== src/Sandbox/Reaper.antt =====
-- backend/app/sandbox/reaper.py: what the backend clears when it starts. The meetings' rows, what the
-- cluster lists (none where it cannot be asked) and which deletions the cluster accepts are parameters;
-- an age is in minutes, and the name of a sandbox or a claim is unique in its namespace. Whether a
-- claim makes a Sandbox again that was deleted is the cluster's. A label is taken to be the text of a
-- uuid, which the backend writes: another text would make the query of the rows raise.
pub mod Orphans
mod Tests
use meetings.Prelude.{
  ℕ, suc, ◌+◌, String, ◌==◌, Bool, true, false, not, ◌&&◌, Option, none, some, List, [], ◌∷◌, map,
  filter, elem, leb, length, if◌then◌else◌,
}

-- The columns of Meeting that are read and written here.
pub record MeetingRow : Type 0 where
  pub id : String
  pub status : String
  pub terminated : Bool

-- LIVE_STATUSES
abbrev pub live_statuses : List String
live_statuses = "queued" ∷ "running" ∷ "stopping" ∷ []

abbrev pub is_live : MeetingRow → Bool
is_live row = elem row.status live_statuses

terminate : MeetingRow → MeetingRow
terminate row = if is_live row then record row { status = "terminated"; terminated = true } else row

-- The rows after it, and how many were reaped.
unfoldable pub reap_abandoned_meetings : List MeetingRow → List MeetingRow × ℕ
unfolding terminate
reap_abandoned_meetings rows = (map terminate rows, length (filter is_live rows))

-- A Sandbox or a SandboxClaim: its name, its label MEETING_LABEL, and its age.
pub record Item : Type 0 where
  pub name : String
  pub label : Option String
  pub age : Option ℕ

-- The label, where it is not empty.
pub meeting_of : Item → Option String
meeting_of item = elim item.label [ none ↦ none | some m ↦ if m == "" then none else some m ]

abbrev add_label : Option String → List String → List String
add_label none labels = labels
add_label (some m) labels = m ∷ labels

labels_of : List Item → List String
labels_of [] = []
labels_of (item ∷ items) = add_label (meeting_of item) (labels_of items)

-- The ids of the live meetings among the given ones.
live_ids : List String → List MeetingRow → List String
live_ids wanted rows = map (λ r. r.id) (filter (λ r. elem r.id wanted && is_live r) rows)

abbrev is_gone : List String → Option String → Bool
is_gone live none = false
is_gone live (some m) = not (elem m live)

is_stale : List String → Item → Bool
is_stale live item = is_gone live (meeting_of item)

-- The items for which no deletion was accepted, and the number of the others, when the chosen ones are
-- to be deleted.
delete_items : (String → Bool) → (Item → Bool) → List Item → List Item × ℕ
delete_items deletes chosen items = (
  filter (λ i. not (chosen i && deletes i.name)) items,
  length (filter (λ i. chosen i && deletes i.name) items),
)

sweep_labelled : (String → Bool) → List MeetingRow → List Item → List String → List Item × ℕ
unfolding live_ids is_stale delete_items
sweep_labelled deletes rows items [] = (items, 0)
sweep_labelled deletes rows items (m ∷ wanted) =
    delete_items deletes (is_stale (live_ids (m ∷ wanted) rows)) items

-- The items for which no deletion was accepted, and the number that is returned.
unfoldable pub sweep_orphaned_sandboxes :
    (String → Bool) → List MeetingRow → Option (List Item) → List Item × ℕ
unfolding sweep_labelled labels_of
sweep_orphaned_sandboxes deletes rows none = ([], 0)
sweep_orphaned_sandboxes deletes rows (some items) =
    sweep_labelled deletes rows items (labels_of items)

-- Made by something else, and old enough.
is_unlabeled : ℕ → Item → Bool
is_unlabeled max_age item = elim (meeting_of item) [
  | some m ↦ false
  | none ↦ elim item.age [ none ↦ false | some age ↦ leb max_age age ]
]

unfoldable pub sweep_unlabeled_sandbox_claims :
    (String → Bool) → ℕ → Option (List Item) → List Item × ℕ
unfolding is_unlabeled delete_items
sweep_unlabeled_sandbox_claims deletes max_age none = ([], 0)
sweep_unlabeled_sandbox_claims deletes max_age (some items) =
    delete_items deletes (is_unlabeled max_age) items
