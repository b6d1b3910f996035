-- ===== src/Runtime/Turn/Tests.antt =====
-- Turns of a persona on concrete messages, and its prompt.
use meetings.Prelude.{
  ℕ, String, ◌≡◌, refl, true, none, some, List, [], ◌∷◌, map, All, ◌==◌, if◌then◌else◌,
}
use meetings.Text.{lstrip, is_some, take_text}
use meetings.Orchestration.Agents.{
  Pod, Backend, TurnResult, TurnEvent, turn_error, turn_result, progress, take_turn, read_stream,
}
use meetings.Dict.{get, string_eq}
use meetings.Runtime.Cache.{cache_get}
use meetings.Runtime.Server.{RuntimeState, Served, run_turn}
use meetings.Runtime.Server.Delivered.{events_of, response_of, delivered, run_turn-read_stream}
use meetings.Sandbox.Client.{Json, IsSent, any_code, stream_turn}
use meetings.Sandbox.Client.Lines.{httpx}
use meetings.Orchestration.Recovery.Thoughts.{flat}
use meetings.Runtime.Prompt.{PersonaSpec, Scene}
use meetings.Runtime.Turn.{
  Produced, ai, answer, produced, raised, Invoked, BoundPersona, TurnRequest, run_persona_turn,
  final_result, with_speaker, result_of,
}
use meetings.Orchestration.State.{Role}
use meetings.Orchestration.TurnCache.{Database}
use meetings.Sandbox.Leases.{Sdk, Config, made}
use meetings.Runtime.Turn.Published.{IsPersonaPod, IsPublished, take_turn-IsPublished}
use meetings.Runtime.Turn.Stream.{
  IsHonest, IsPublic, IsAloud, wire, wire_result, final_result-IsPublic,
}

abbrev cfo_spec : PersonaSpec
cfo_spec = record {
  display_name = "Ana";
  title = "CFO";
  department = "Finance";
  guidance = none;
  summary = none;
  seniority = none;
  responsibilities = [];
  kpis = [];
  objectives = [];
  priorities = [];
  risk_tolerance = none;
  tone = [];
  collaboration_style = none;
  challenge_style = none;
  allowed_shared_library_access = true;
}

abbrev bound_cfo : BoundPersona
bound_cfo = record {
  agent_id = "cfo";
  persona = cfo_spec;
  system_prompt_template = "You are here.";
  active_tools = "search_corpus" ∷ [];
}

abbrev budget_scene : Scene
budget_scene = record { objective = "Budget"; agenda = ""; brief = ""; expectations = "" }

abbrev first_request : TurnRequest
first_request = record {
  turn_key = "m:0:cfo";
  scene = budget_scene;
  attendees = [];
  transcript = [];
  directive = "";
}

-- A denied tool and a spoken answer with a thought that is never closed.
abbrev denied_messages : List Produced
denied_messages =
    answer (some "1") "u" (some "run_python_analysis") (flat "DENIED_BY_CLUSTER: no pods/exec")
    ∷ ai [] (flat "[Ana - CFO] We wait. <thought>stall")
        (record { prompt_tokens = 3; completion_tokens = 4 })
    ∷ []

abbrev same_text : String → String
same_text s = s

abbrev denied_loop : String → List String → Invoked
denied_loop prompt history = produced denied_messages

denied_run :
    (final_result same_text denied_loop bound_cfo "m:0:cfo" denied_messages).public_content
    ≡ "[Ana - CFO] We wait."
unfolding final_result meetings.Text.is_space
denied_run = refl

-- A failed write of an artifact, in the words of the tool.
failed_write :
    (result_of same_text none "u" none "Could not save the artifact: timeout").is_ok ≡ true
unfolding result_of meetings.Text.after_prefix
failed_write = refl

final_result-IsPublic_example :
    ((said : String) × ((final_result same_text denied_loop bound_cfo "m:0:cfo"
          denied_messages).public_content
        ≡ with_speaker cfo_spec said)
      × IsPublic said
      × IsAloud denied_messages said)
    × All IsHonest
        (final_result same_text denied_loop bound_cfo "m:0:cfo" denied_messages).tool_results
final_result-IsPublic_example =
    final_result-IsPublic same_text denied_loop bound_cfo "m:0:cfo" denied_messages

abbrev cfo_role : Role
cfo_role = record {
  display_name = "Ana";
  title = "CFO";
  department = "Finance";
  default_tools = none;
}

abbrev one_sandbox : Sdk
one_sandbox = record { create = λ n. made "c" "s" "u"; deletes = λ c. true }

abbrev plain_config : Config
plain_config = record { namespace = "boardroom"; base_url_for = λ n. n }

abbrev open_database : Database
open_database = record { connected = true; reads = true; writes = true }

abbrev empty_backend : Backend
empty_backend = record {
  world = record { leases = []; live = []; stranded = []; requested = 0 };
  turns = [];
}

abbrev persona_pod : ℕ → Pod
persona_pod n = record {
  bind_fails = none;
  events = map wire (run_persona_turn same_text denied_loop bound_cfo first_request).0;
  breaks = (run_persona_turn same_text denied_loop bound_cfo first_request).1;
}

persona_streams : (n : ℕ) → IsPersonaPod same_text denied_loop bound_cfo (persona_pod n)
persona_streams n = record { request = first_request; streams = refl; breaks_off = refl }

take_turn-IsPublished_example :
    IsPublished denied_loop bound_cfo cfo_role "cfo"
      (take_turn one_sandbox plain_config open_database "cfo" cfo_role "m" "m:0:cfo" "baseline"
        persona_pod empty_backend).0
take_turn-IsPublished_example =
    take_turn-IsPublished same_text denied_loop bound_cfo one_sandbox plain_config open_database
      "cfo" cfo_role "m" "m:0:cfo" "baseline" persona_pod empty_backend persona_streams

-- The JSON of a stream of one text and the turn's result.
abbrev denied_result : TurnResult
denied_result = wire_result (final_result same_text denied_loop bound_cfo "m:0:cfo" denied_messages)

abbrev turn_json : Json TurnEvent TurnEvent
turn_json = record {
  model_dump_json =
      λ e. elim e [ turn_error t ↦ "{error}" | turn_result r ↦ "{result}" | progress t ↦ "{text}" ];
  model_validate = λ t.
      if t == "{result}"
      then some (turn_result denied_result)
      else if t == "{text}"
      then some (progress "We wait.")
      else some (turn_error "boom");
  wire = λ e. e;
}

abbrev broken_loop : String → List String → Invoked
broken_loop prompt history = raised "boom"

abbrev bound_state : RuntimeState
bound_state = record {
  persona = some (record { agent_id = "cfo"; active_tools = []; refused_tools = [] });
  cache = [];
}

abbrev broken_served : Served
broken_served =
    (run_turn 64 "m:0:cfo"
      (map wire (run_persona_turn same_text broken_loop bound_cfo first_request).0)
      (run_persona_turn same_text broken_loop bound_cfo first_request).1 bound_state).0

broken-IsSent : All (IsSent turn_json httpx) (events_of broken_served)
unfolding run_turn cache_get get run_persona_turn any_code take_text
broken-IsSent = (record { inner = "error"; object = refl; one_line = refl; reads = refl }, tt)

bound_misses : (cache_get "m:0:cfo" bound_state.cache).0 ≡ none
unfolding cache_get get
bound_misses = refl

run_turn-read_stream_example :
    let read = stream_turn turn_json httpx (response_of turn_json broken_served) in
    read_stream read.0 read.1 ≡ delivered same_text broken_loop bound_cfo "m:0:cfo" (raised "boom")
run_turn-read_stream_example =
    run_turn-read_stream same_text broken_loop turn_json httpx 64 bound_cfo first_request
      bound_state (record { agent_id = "cfo"; active_tools = []; refused_tools = [] }) (λ e. refl)
      refl bound_misses broken-IsSent
