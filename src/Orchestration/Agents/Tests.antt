-- ===== src/Orchestration/Agents/Tests.antt =====
-- Examples of an attendee's turn (agents.py).
use meetings.Prelude.{
  ℕ, ◌+◌, ◌≤◌, String, ◌≡◌, refl, true, false, none, some, [], ◌∷◌, ◌++◌, eq_refl, arith,
}
use meetings.Dict.{Dict, get, put, has_key, string_eq, pair_eq}
use meetings.Profiles.{resolve, resolve_wanted, wanted_tools}
use meetings.Orchestration.State.{Role, MeetingState, Update, make_utterance, merge}
use meetings.Orchestration.TurnCache.{Database, lookup, record_turn}
use meetings.Sandbox.Leases.{
  Sdk, made, Config, acquire, claim_sandbox, new_lease, needs_bind, mark_bound,
}
use meetings.Sandbox.Leases.Accounting.{IsAccounted}
use meetings.Orchestration.Agents.{
  Pod, Backend, TurnResult, turn_result, progress, Node, returned, turn_key, success_state,
  agent_node, known_node, replay_or_run, run_resolved, take_turn, attempt_turn, with_sandbox,
  settle_turn, issue, read_stream,
}
use meetings.Orchestration.Agents.Attributed.{HoldsOwn}
use meetings.Orchestration.Agents.Replay.{agent_node-agent_node}
use meetings.Orchestration.Agents.Requests.{turn_request}
use meetings.Orchestration.Agents.Requests.Heard.{heard, turn_request-agent_node}
use meetings.Orchestration.Agents.Leasing.{agent_node_requests, agent_node-IsAccounted}

abbrev sdk : Sdk
sdk = record { create = λ n. made "claim" "sandbox" "uid"; deletes = λ c. true }

abbrev config : Config
config = record { namespace = "meetings"; base_url_for = λ name. name }

abbrev database : Database
database = record { connected = true; reads = true; writes = true }

abbrev role : Role
role = record {
  display_name = "Ada";
  title = "Chief";
  department = "Research";
  default_tools = none;
}

abbrev attendees : Dict String Role
attendees = ("a", role) ∷ []

abbrev result : TurnResult
result = record {
  turn_key = "m:0:a";
  public_content = "Hello";
  private_reasoning = "";
  tool_calls = [];
  tool_results = [];
}

-- The first sandbox answers after some progress.
abbrev answering : ℕ → Pod
answering n = record {
  bind_fails = none;
  events = progress "thinking" ∷ turn_result result ∷ [];
  breaks = none;
}

-- Every sandbox is lost.
abbrev breaking : ℕ → Pod
breaking n = record { bind_fails = none; events = []; breaks = some "ReadError" }

abbrev start : MeetingState
start = record {
  meeting_id = "m";
  brief = "";
  agenda = "";
  objective = "";
  expectations = "";
  turn_limit = 4;
  current_turn = 0;
  messages = [];
  event_log = [];
  tool_audit = [];
  sandboxes = [];
  active_agent_id = none;
  stop_requested = false;
  terminated = false;
  final_summary = none;
  next_speaker = none;
  next_speaker_reason = none;
}

abbrev backend : Backend
backend = record {
  world = record { leases = []; live = []; stranded = []; requested = 0 };
  turns = [];
}

-- The run that answers.
abbrev first_run : Node × Backend
first_run = agent_node sdk config database attendees "a" start answering backend

abbrev said_hello : Update
said_hello = success_state "a" "sandbox" result

first_run_returned : first_run.0 ≡ returned said_hello
unfolding agent_node get known_node replay_or_run lookup run_resolved resolve resolve_wanted
    wanted_tools take_turn attempt_turn acquire claim_sandbox new_lease with_sandbox issue
    needs_bind settle_turn read_stream mark_bound put
first_run_returned = refl

first_run_recorded : has_key (turn_key "m" 0 "a") first_run.1.turns ≡ true
unfolding agent_node get known_node replay_or_run lookup run_resolved resolve resolve_wanted
    wanted_tools take_turn attempt_turn acquire claim_sandbox new_lease with_sandbox issue
    needs_bind settle_turn read_stream mark_bound put record_turn has_key
first_run_recorded = ground (arith, eq_refl (turn_key "m" 0 "a"))

nothing_held : HoldsOwn "a" (turn_key "m" 0 "a") []
unfolding get
nothing_held st g = absurd (cc)

known : get "a" attendees ≡ some role
unfolding get
known = refl

-- Another run, when no sandbox answers.
agent_node-agent_node_example :
    agent_node sdk config database attendees "a" start breaking first_run.1
    ≡ (returned said_hello, first_run.1)
agent_node-agent_node_example =
    agent_node-agent_node sdk config database attendees "a" role known start start answering
      breaking backend first_run.1 said_hello refl refl first_run_returned first_run_recorded refl
      refl refl

turn_request-agent_node_example :
    (content : String) × (said_hello.messages ≡ make_utterance content "a" ∷ [])
    × (turn_request "b" [] (merge start said_hello) ≡ record (turn_request "b" [] start) {
      transcript = (turn_request "b" [] start).transcript ++ heard content "a" ∷ [];
    })
turn_request-agent_node_example =
    turn_request-agent_node sdk config database attendees "a" role known [] start answering backend
      said_hello "b" nothing_held first_run_returned

agent_node_requests_example :
    (agent_node sdk config database attendees "a" start breaking backend).1.world.requested
    ≤ backend.world.requested + 2
agent_node_requests_example =
    agent_node_requests sdk config database attendees "a" start breaking backend

backend-IsAccounted : IsAccounted backend.world
backend-IsAccounted = record { held = λ c h. absurd (cc); unique = tt }

agent_node-IsAccounted_example :
    IsAccounted (agent_node sdk config database attendees "a" start breaking backend).1.world
agent_node-IsAccounted_example =
    agent_node-IsAccounted sdk config database attendees "a" start breaking backend (λ c. refl)
      backend-IsAccounted
