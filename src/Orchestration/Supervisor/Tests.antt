-- ===== src/Orchestration/Supervisor/Tests.antt =====
-- Examples of the chair (supervisor.py).
use meetings.Prelude.{ℕ, String, ◌≡◌, refl, false, none, [], ◌∷◌}
use meetings.Dict.{Dict, has_key, string_eq}
use meetings.Orchestration.State.{Role, MeetingState, merge}
use meetings.Orchestration.LlmCall.{Outcome}
use meetings.Orchestration.Recovery.{finish}
use meetings.Orchestration.Agents.{turn_key}
use meetings.Orchestration.Agents.Requests.{turn_request}
use meetings.Orchestration.Agents.Requests.Heard.{turn_request-supervise}
use meetings.Text.{join, after_prefix}
use meetings.Text.Replace.{replace, replace_from}
use meetings.Orchestration.Supervisor.Prompt.{
  tools_question, text_question, final_sys_prompt, attendee_option, question-supervise,
}
use meetings.Orchestration.Supervisor.{supervise}
use meetings.Orchestration.Supervisor.Rulings.{IsRuling, supervise-IsRuling, supervise-closes}
use meetings.Orchestration.Supervisor.Fallback.{MayFinish, supervise-MayFinish}

abbrev same : String → String
same s = s

abbrev role : Role
role = record {
  display_name = "Ada";
  title = "Chief";
  department = "Research";
  default_tools = none;
}

abbrev attendees : Dict String Role
attendees = ("a", role) ∷ []

-- A model that never answers.
abbrev silent : ℕ → Outcome
silent attempt = record { value = none; strategy = none; attempts = [] }

abbrev after_turns : ℕ → MeetingState
after_turns n = record {
  meeting_id = "m";
  brief = "";
  agenda = "";
  objective = "";
  expectations = "";
  turn_limit = 4;
  current_turn = n;
  messages = [];
  event_log = [];
  tool_audit = [];
  sandboxes = [];
  active_agent_id = none;
  stop_requested = false;
  terminated = false;
  final_summary = none;
  next_speaker = none;
  next_speaker_reason = none;
}

supervise-IsRuling_example :
    IsRuling attendees (after_turns 0) (supervise same same attendees silent (after_turns 0))
supervise-IsRuling_example = supervise-IsRuling attendees (after_turns 0) same same silent

no_finish : has_key finish attendees ≡ false
unfolding has_key
no_finish = refl

supervise-MayFinish_example : MayFinish same silent attendees (after_turns 4)
supervise-MayFinish_example =
    supervise-MayFinish same same attendees no_finish (after_turns 4) silent
      (supervise-closes attendees (after_turns 4) same same silent refl).0

turn_request-supervise_example :
    let ruled = merge (after_turns 0) (supervise same same attendees silent (after_turns 0)) in
    turn_request "a" [] ruled ≡ record (turn_request "a" [] (after_turns 0)) {
      turn_key = turn_key (after_turns 0).meeting_id ruled.current_turn "a";
    }
turn_request-supervise_example =
    turn_request-supervise same same attendees [] (after_turns 0) silent "a"

question-supervise_example :
    let ruled = merge (after_turns 0) (supervise same same attendees silent (after_turns 0)) in
    (tools_question "Pick one of {{ATTENDEE LIST}}" none attendees ruled
      ≡ tools_question "Pick one of {{ATTENDEE LIST}}" none attendees (after_turns 0))
    × (text_question "Pick one of {{ATTENDEE LIST}}" none attendees ruled
        ≡ text_question "Pick one of {{ATTENDEE LIST}}" none attendees (after_turns 0))
question-supervise_example =
    question-supervise "Pick one of {{ATTENDEE LIST}}" none attendees same same (after_turns 0)
      silent

prompted :
    final_sys_prompt "Pick one of {{ATTENDEE LIST}}" none attendees (after_turns 0)
    ≡ "Pick one of ID: 'a' | Name: Ada | Role: Chief | Department: Research"
unfolding final_sys_prompt attendee_option replace replace_from join after_prefix
prompted = refl
