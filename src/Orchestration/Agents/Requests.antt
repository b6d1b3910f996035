-- ===== src/Orchestration/Agents/Requests.antt =====
-- The turn that an attendee's node (backend/app/orchestration/agents.py) asks of its sandbox, and what
-- the persona's loop (sandbox/runtime/runtime/agent.py) reads of the request.
pub mod Heard
use meetings.Prelude.{String, Option, none, some, List, [], ◌∷◌, map, or_text}
use meetings.Dict.{Dict, get, string_eq}
use meetings.Orchestration.State.{Role, Message, public_transcript, MeetingState}
use meetings.Orchestration.Agents.{turn_key}
use meetings.Orchestration.Agents.Binding.{RoleAgent}
use meetings.Runtime.Prompt.{Attendee, Scene}
use meetings.Runtime.Turn as Turn

-- Utterance and TurnRequest (protocol.py)
pub record Utterance : Type 0 where
  pub speaker_id : String
  pub display_name : String
  pub title : String
  pub content : String

pub record TurnRequest : Type 0 where
  pub turn_key : String
  pub objective : String
  pub agenda : String
  pub brief : String
  pub expectations : String
  pub attendees : List Attendee
  pub transcript : List Utterance
  pub directive : String

abbrev pub attendee_of : String × RoleAgent → Attendee
attendee_of (id, a) = record {
  id = id;
  display_name = a.role.display_name;
  title = a.role.title;
  department = a.role.department;
}

-- str(m.additional_kwargs.get("agent_id", ""))
abbrev pub speaker_of : Message → String
speaker_of m = or_text (get "agent_id" m.kwargs) ""

abbrev pub utterance_of : Message → Utterance
utterance_of m = record {
  speaker_id = speaker_of m;
  display_name = "";
  title = "";
  content = m.content;
}

-- turn = TurnRequest(...)
unfoldable pub turn_request : String → Dict String RoleAgent → MeetingState → TurnRequest
turn_request agent_id attendees s = record {
  turn_key = turn_key s.meeting_id s.current_turn agent_id;
  objective = s.objective;
  agenda = s.agenda;
  brief = s.brief;
  expectations = s.expectations;
  attendees = map attendee_of attendees;
  transcript = map utterance_of (public_transcript s.messages);
  directive = or_text s.next_speaker_reason "";
}

-- What the persona's loop reads of the request.
unfoldable pub received : TurnRequest → Turn.TurnRequest
received t = record {
  turn_key = t.turn_key;
  scene = record {
    objective = t.objective;
    agenda = t.agenda;
    brief = t.brief;
    expectations = t.expectations;
  };
  attendees = t.attendees;
  transcript = map (λ u. u.content) t.transcript;
  directive = t.directive;
}
