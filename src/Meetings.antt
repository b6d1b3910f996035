-- ===== src/Meetings.antt =====
-- backend/app: a meeting's life outside the graph: services/meeting_executor.py runs it,
-- api/routes/meetings.py creates, starts, stops and deletes it, services/cleanup.py empties it.
pub mod Executor
pub mod Lifecycle
pub mod Documents
mod Tests
use meetings.Prelude.{
  ℕ, String, ◌==◌, Bool, true, false, Option, none, some, List, [], ◌∷◌, if◌then◌else◌,
}
use meetings.Orchestration.State.{Event}

-- An event that the executor yields, with its timestamp left out: an entry of the graph's event log,
-- the supervisor's choice, or one of the executor's own.
pub data UiEvent : Type 0 where
  logged : Event → UiEvent
  selected : String → Option String → UiEvent
  error : String → UiEvent
  meeting_started : UiEvent
  meeting_completed : UiEvent

-- Meeting (models/meetings.py), the columns that a meeting's life writes
pub record Meeting : Type 0 where
  pub status : String
  pub terminated : Bool
  pub meeting_log : List UiEvent
  pub final_summary : Option String

abbrev pub keep_history : String
keep_history = "terminate_keeps_history"

abbrev pub purge_transcript : String
purge_transcript = "terminate_purges_transcript"

-- apply_cleanup_rules
unfoldable pub apply_cleanup_rules : Meeting → String → Meeting
apply_cleanup_rules meeting rule =
    if rule == purge_transcript
    then record meeting { meeting_log = []; final_summary = none }
    else meeting

-- What stopping or cancelling a meeting does to its row.
unfoldable pub terminate : String → Meeting → Meeting
unfolding apply_cleanup_rules
terminate rule meeting =
    apply_cleanup_rules (record meeting { status = "terminated"; terminated = true }) rule
