-- ===== src/Meetings/Tests.antt =====
-- Runs of a meeting, and what its sockets can do to it.
use meetings.Prelude.{ℕ, String, ◌≡◌, refl, true, false, Option, none, some, [], ◌∷◌, length}
use meetings.Dict.{get, put, remove, has_key, number_eq, string_eq}
use meetings.Sandbox.Leases.{Sdk, Config, refused}
use meetings.Orchestration.Graph.{validate_attendee_profiles}
use meetings.Meetings.{Meeting, UiEvent}
use meetings.Internal.Search.{Document, Library}
use meetings.Meetings.Executor.{Streamed, World, opened, run_meeting_execution}
use meetings.Meetings.Executor.Outcomes.{IsSettled, run_meeting_execution-IsSettled}
use meetings.Meetings.Lifecycle.{
  Life, Task, launch, is_active, start_meeting, stop_meeting, begin, finish_run, drop, Steps, stays,
  then_step, starts, begins, finishes,
}
use meetings.Meetings.Lifecycle.Serial.{idle, Steps-single_task}

abbrev empty_sdk : Sdk
empty_sdk = record { create = λ n. refused "none"; deletes = λ c. true }

abbrev plain_config : Config
plain_config = record { namespace = "boardroom"; base_url_for = λ n. n }

abbrev queued_row : Meeting
queued_row = record {
  status = "queued";
  terminated = false;
  meeting_log = [];
  final_summary = none;
}

abbrev empty_world : World
empty_world = record {
  rows = ("m", queued_row) ∷ [];
  sandboxes = record { leases = []; live = []; stranded = []; requested = 0 };
}

abbrev broken_stream : Streamed
broken_stream = record { updates = []; breaks = some "recursion limit" }

-- A meeting that holds a sandbox when its graph comes to its end.
abbrev leased_world : World
leased_world = record {
  rows = ("m", queued_row) ∷ [];
  sandboxes = record {
    leases =
        (
          ("m", "a"),
          record {
            handle = record {
              claim_name = "claim";
              sandbox_name = "sandbox";
              namespace = "boardroom";
              base_url = "http://sandbox";
              sandbox_uid = "uid";
            };
            profile = "baseline";
            bound = true;
          },
        )
        ∷ [];
    live = "claim" ∷ [];
    stranded = [];
    requested = 1;
  };
}

abbrev quiet_stream : Streamed
quiet_stream = record { updates = []; breaks = none }

run_meeting_execution-IsSettled_example :
    IsSettled empty_sdk plain_config "m" leased_world.sandboxes.leases
      (λ c. refl)
      (run_meeting_execution empty_sdk plain_config "m" [] false opened false quiet_stream none
        quiet_stream none leased_world)
unfolding get
run_meeting_execution-IsSettled_example =
    run_meeting_execution-IsSettled empty_sdk plain_config "m" leased_world.sandboxes.leases
      (λ c. refl) [] false opened false quiet_stream quiet_stream leased_world queued_row refl refl
      refl

-- An exception in writing the result of a durable run, where a volatile one is allowed: the graph
-- runs a second time.
run_twice :
    length
      (run_meeting_execution empty_sdk plain_config "m" [] false opened true broken_stream
        (some "lost")
        broken_stream
        none
        empty_world).events
    ≡ 3
unfolding run_meeting_execution get validate_attendee_profiles
run_twice = refl

abbrev one_begun : Life
one_begun = begin 0 (start_meeting "a" (idle (some queued_row)))

-- One socket's run has ended, and another socket has started the meeting again.
abbrev started_again : Life
started_again = start_meeting "b" (finish_run 0 "completed" [] one_begun)

resumed : Steps (idle (some queued_row)) started_again
unfolding finish_run begin start_meeting launch get put
resumed =
    then_step
      (then_step (then_step (then_step stays (starts "a")) (begins 0 refl))
        (finishes 0 "completed" [] refl))
      (starts "b")

Steps-single_task_example : ◌≡◌ {A = ℕ} 1 1
unfolding finish_run begin start_meeting launch has_key put remove
Steps-single_task_example = Steps-single_task (some queued_row) started_again 1 1 resumed refl refl

-- Two sockets whose starts both pass the check before either registers its task.
raced : length (launch "b" (launch "a" (idle (some queued_row)))).tasks ≡ 2
unfolding launch put
raced = refl

abbrev status_of : Option Meeting → String
status_of none = ""
status_of (some m) = m.status

-- A stop from another socket than the one that started the meeting.
stopped_elsewhere :
    status_of
      (finish_run 0 "completed" [] (stop_meeting "terminate_keeps_history" "b" one_begun)).row
    ≡ "completed"
unfolding finish_run stop_meeting begin start_meeting launch get put meetings.Meetings.terminate
    meetings.Meetings.Lifecycle.cancel_own
stopped_elsewhere = refl

abbrev plan_document : Document
plan_document = record {
  id = "d1";
  document_name = "Plan";
  library_scope = "company";
  owner_agent_id = none;
  meeting_id = none;
  file_type = none;
  metadata_json = "{}";
}

abbrev plan_library : Library
plan_library = record {
  documents = plan_document ∷ [];
  chunks =
      record {
        document_id = "d1";
        chunk_index = 0;
        page_number = none;
        text = "We wait.";
        normalized_text = none;
        embedding = none;
      }
      ∷ [];
}
