-- ===== src/Orchestration/Graph/Tests.antt =====
-- Examples of a meeting's run (graph.py).
use meetings.Prelude.{ℕ, String, ◌≡◌, refl, true, false, none, some, [], ◌∷◌, arith}
use meetings.Dict.{Dict, get, string_eq}
use meetings.Profiles.{resolve, resolve_wanted, wanted_tools}
use meetings.Orchestration.State.{Role, MeetingState}
use meetings.Orchestration.LlmCall.{text, Outcome}
use meetings.Orchestration.TurnCache.{Database}
use meetings.Sandbox.Leases.{Sdk, made, Config}
use meetings.Orchestration.Agents.{Pod, Backend}
use meetings.Orchestration.Graph.{
  supervisor, ended, valid, validate_attendee_profiles, validated, resolve_all, add_role,
}
use meetings.Orchestration.Graph.Meetings.{
  HoldsAttendees, run_meeting, run_meeting-ends, run_meeting-IsSound,
}
use meetings.Orchestration.Graph.Steps.{IsSound}

abbrev names : Dict String String
names = ("a", "baseline") ∷ []

abbrev sdk : Sdk
sdk = record { create = λ n. made "claim" "sandbox" "uid"; deletes = λ c. true }

abbrev config : Config
config = record { namespace = "meetings"; base_url_for = λ name. name }

abbrev database : Database
database = record { connected = true; reads = true; writes = true }

abbrev role : Role
role = record {
  display_name = "Ada";
  title = "Chief";
  department = "Research";
  default_tools = none;
}

abbrev attendees : Dict String Role
attendees = ("a", role) ∷ []

-- A model that always calls on the same attendee, and sandboxes that break.
abbrev outcome : ℕ → ℕ → Outcome
outcome n attempt = record {
  value = some (("next_speaker", text "a") ∷ []);
  strategy = some "tools";
  attempts = [];
}

abbrev pods : ℕ → ℕ → Pod
pods n attempt = record { bind_fails = none; events = []; breaks = some "ReadError" }

abbrev start : MeetingState
start = record {
  meeting_id = "m";
  brief = "";
  agenda = "";
  objective = "";
  expectations = "";
  turn_limit = 4;
  current_turn = 0;
  messages = [];
  event_log = [];
  tool_audit = [];
  sandboxes = [];
  active_agent_id = none;
  stop_requested = false;
  terminated = false;
  final_summary = none;
  next_speaker = none;
  next_speaker_reason = none;
}

abbrev backend : Backend
backend = record {
  world = record { leases = []; live = []; stranded = []; requested = 0 };
  turns = [];
}

abbrev same : String → String
same s = s

all_valid : validate_attendee_profiles attendees ≡ valid names
unfolding validate_attendee_profiles validated resolve_all add_role resolve resolve_wanted
    wanted_tools
all_valid = refl

nothing_held : HoldsAttendees attendees backend
unfolding get
nothing_held key st g = absurd (cc)

known : get "a" attendees ≡ some role
unfolding get
known = refl

-- Four turns are nine nodes.
run_meeting-ends_example :
    (run_meeting sdk config database attendees same same none outcome pods 9 start backend).halt
    ≡ ended
run_meeting-ends_example =
    run_meeting-ends sdk config database attendees same same none outcome pods 9 start backend names
      refl all_valid nothing_held (ground arith)

run_meeting-IsSound_example :
    IsSound attendees supervisor
      (run_meeting sdk config database attendees same same none outcome pods 9 start backend).state
run_meeting-IsSound_example =
    run_meeting-IsSound sdk config database attendees same same none outcome pods 9 start backend
      nothing_held refl refl
