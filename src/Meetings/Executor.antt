-- ===== src/Meetings/Executor.antt =====
-- backend/app/services/meeting_executor.py: one run of a meeting. What the compiled graph streams
-- (its updates and the exception that ends them), whether the pool of the checkpointer opens, and
-- whether writing the result fails are parameters; the rows of the meetings and the leases are state.
pub mod Outcomes
use Prim.Native.String.{◌++◌ as text_append}
use meetings.Prelude.{
  ℕ, String, ◌==◌, Bool, true, false, not, ◌&&◌, ◌||◌, Option, none, some, List, [], ◌∷◌, ◌++◌, map,
  any, elem, if◌then◌else◌,
}
use meetings.Dict.{Dict, get, put, string_eq}
use meetings.Orchestration.State.{Role, Event, Update}
use meetings.Orchestration.Graph.{Validated, valid, refused, validate_attendee_profiles}
use meetings.Profiles.{DriftError, unknown_tools, no_profile, all_tools}
use meetings.Prelude.Order.{sorted_set}
use meetings.Text.{join}
use meetings.Sandbox.Leases as Leases
use meetings.Sandbox.Leases.{Sdk, Config, release_meeting}
use meetings.Meetings.{
  UiEvent, logged, selected, error, meeting_started, meeting_completed, Meeting,
}

abbrev pub runnable_statuses : List String
runnable_statuses = "queued" ∷ "running" ∷ "draft" ∷ []

-- What app_graph.astream gives: each node's update, and the exception that ends them.
pub record Streamed : Type 0 where
  pub updates : List (String × Update)
  pub breaks : Option String

abbrev pub Rows : Type 0
Rows = Dict String Meeting

pub record World : Type 0 where
  pub rows : Rows
  pub sandboxes : Leases.World

supervisor_choice : String → Update → List UiEvent
supervisor_choice node u =
    if node == "supervisor"
    then elim u.next_speaker [
      | none ↦ []
      | some speaker ↦ if speaker == "" then [] else selected speaker u.reasoning ∷ []
    ]
    else []

runtime_exception : Option String → List UiEvent
runtime_exception none = []
runtime_exception (some e) = error (text_append "Nexus Runtime Exception: " e) ∷ []

node_events : List (String × Update) → List UiEvent
unfolding supervisor_choice
node_events [] = []
node_events ((node, u) ∷ updates) =
    map logged u.event_log ++ (supervisor_choice node u ++ node_events updates)

-- _stream_graph
unfoldable pub stream_graph : Streamed → List UiEvent
unfolding node_events runtime_exception
stream_graph s = node_events s.updates ++ runtime_exception s.breaks

-- event.get("type") == "error"
unfoldable pub is_error : UiEvent → Bool
is_error (logged e) = e.type == "error"
is_error (error content) = true
is_error _ = false

-- The reasoning of an event that concludes, if it is not empty.
conclusion : UiEvent → Option String
conclusion (logged e) = elim e.reasoning [
  | none ↦ none
  | some r ↦ if e.is_conclusion && not (r == "") then some r else none
]
conclusion _ = none

-- The last conclusion.
unfoldable pub final_summary_of : List UiEvent → Option String
unfolding conclusion
final_summary_of [] = none
final_summary_of (e ∷ es) = elim (final_summary_of es) [ some r ↦ some r | none ↦ conclusion e ]

abbrev or_kept {ℓ} : {A : Type ℓ} → Option A → A → A
or_kept none a = a
or_kept (some b) a = b

abbrev or_before : Option String → Option String → Option String
or_before none a = a
or_before (some b) a = some b

-- _update_meeting_status
unfoldable pub update_meeting_status :
    String → String → Option (List UiEvent) → Option String → Rows → Rows
update_meeting_status meeting_id status event_log summary rows = elim (get meeting_id rows) [
  | none ↦ rows
  | some m ↦
      put meeting_id
        (record m {
          status = status;
          meeting_log = or_kept event_log m.meeting_log;
          final_summary = or_before summary m.final_summary;
        })
        rows
]

-- A run: its events, the exception that it raises, and the world after it.
pub record Run : Type 0 where
  pub events : List UiEvent
  pub raised : Option String
  pub world : World

abbrev completion : Bool → List UiEvent
completion has_error = if has_error then [] else meeting_completed ∷ []

-- The durable checkpointer: there is no DATABASE_URL, its pool does not open, or it does.
pub data Pool : Type 0 where
  no_url : Pool
  closed : String → Pool
  opened : Pool

abbrev checkpoint_refusal : String → String
checkpoint_refusal detail =
    text_append
      "Durable checkpointing is unavailable, so this meeting cannot be recovered if the backend restarts. Refusing to run. Set ALLOW_VOLATILE_CHECKPOINTS=true to override in development. Cause: "
      detail

abbrev no_database : String
no_database = "DATABASE_URL is not set, so no durable checkpointer is available."

abbrev invalid_status : String
invalid_status = "Simulation target unreachable or invalid status."

abbrev concat : String → String → String → String
concat a b c = text_append a (text_append b c)

-- str(exc) of the ProfileDriftError of one attendee.
unfoldable pub drift_reason : DriftError → String
unfolding join sorted_set
drift_reason (unknown_tools ts) =
    concat (concat "Unknown tools requested: " (join ", " (sorted_set ts)) ". Known tools: ")
      (join ", " (sorted_set all_tools)) "."
drift_reason (no_profile ts closest) =
    concat
      (concat "No profile provides " (join ", " (sorted_set ts))
        " together with the rest of the request. Closest is '")
      closest "'."

problem_line : Role × DriftError → String
unfolding drift_reason
problem_line (role, e) =
    concat (concat "  - " role.display_name " (") (concat role.title "): " (drift_reason e)) ""

-- str(exc) of the ProfileDriftError of the meeting.
unfoldable pub drift_text : List (Role × DriftError) → String
unfolding problem_line join
drift_text problems =
    text_append "Cannot start: some attendees request capabilities no profile provides.\n"
      (join "\n" (map problem_line problems))

module _ (sdk : Sdk) (config : Config) (meeting_id : String) where
  -- _execute_with_checkpointer, where `fails` is the exception of writing the result
  unfoldable pub execute_with_checkpointer : Streamed → Option String → World → Run
  unfolding stream_graph update_meeting_status release_meeting is_error final_summary_of
  execute_with_checkpointer s (some e) w = record {
    events = stream_graph s;
    raised = some e;
    world = w;
  }
  execute_with_checkpointer s none w =
      let events = stream_graph s in
      let has_error = any is_error events in
      record {
        events = events ++ completion has_error;
        raised = none;
        world = record {
          rows =
              update_meeting_status meeting_id (if has_error then "failed" else "completed")
                (some events) (final_summary_of events) w.rows;
          sandboxes = release_meeting sdk config meeting_id w.sandboxes;
        };
      }

  -- The row is marked as failed, and the run ends with an error.
  unfoldable pub refuse : String → World → Run
  unfolding update_meeting_status
  refuse content w = record {
    events = error content ∷ [];
    raised = none;
    world = record w { rows = update_meeting_status meeting_id "failed" none none w.rows };
  }

  after : List UiEvent → Run → Run
  after events r = record r { events = events ++ r.events }

  -- What follows an exception of the durable run: a refusal, or a run that is not durable.
  unfoldable pub recover : Bool → Streamed → Option String → Run → Run
  unfolding execute_with_checkpointer refuse after
  recover allow_volatile s fails r = elim r.raised [
    | none ↦ r
    | some e ↦ after r.events (
        if allow_volatile
        then execute_with_checkpointer s fails r.world
        else refuse (checkpoint_refusal e) r.world)
  ]

  unfoldable pub checkpointed :
      Pool → Bool → Streamed → Option String → Streamed → Option String → World → Run
  unfolding recover execute_with_checkpointer refuse
  checkpointed no_url allow_volatile s fails again fails_again w =
      if allow_volatile then execute_with_checkpointer again fails_again w else refuse no_database w
  checkpointed (closed e) allow_volatile s fails again fails_again w =
      recover allow_volatile again fails_again (record { events = []; raised = some e; world = w })
  checkpointed opened allow_volatile s fails again fails_again w =
      recover allow_volatile again fails_again (execute_with_checkpointer s fails w)

  started : Run → Run
  started r = record r { events = meeting_started ∷ r.events }

  checked : Validated → Run → World → Run
  unfolding refuse drift_text
  checked (refused problems) run w = refuse (drift_text problems) w
  checked (valid profiles) run w = run

  -- `meeting.status = "running"` is committed only by the settings' row being created.
  announced : Bool → World → World
  unfolding update_meeting_status
  announced creates_settings w =
      if creates_settings
      then record w { rows = update_meeting_status meeting_id "running" none none w.rows }
      else w

  -- run_meeting_execution: `s` and `again` are what the graph streams in a durable run and in one
  -- that is not, `fails` and `fails_again` the exceptions of writing their results; the row of the
  -- settings may have to be created.
  unfoldable pub run_meeting_execution :
      Dict String Role
      → Bool
      → Pool
      → Bool
      → Streamed
      → Option String
      → Streamed
      → Option String
      → World
      → Run
  unfolding checkpointed started checked announced
  run_meeting_execution attendees creates_settings pool allow_volatile s fails again fails_again w =
      elim (get meeting_id w.rows) [
        | none ↦ record { events = error invalid_status ∷ []; raised = none; world = w }
        | some m ↦
            if elem m.status runnable_statuses
            then started (
                checked (validate_attendee_profiles attendees)
                  (checkpointed pool allow_volatile s fails again fails_again
                    (announced creates_settings w))
                  (announced creates_settings w))
            else record { events = error invalid_status ∷ []; raised = none; world = w }
      ]
