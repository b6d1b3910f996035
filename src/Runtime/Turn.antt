-- ===== src/Runtime/Turn.antt =====
-- sandbox/runtime/runtime/agent.py: one turn of the persona that a sandbox is bound to. The ReAct
-- loop is a parameter: from the system prompt and the history, the messages that it produces or the
-- exception that it raises. So is `lower`, Python's case mapping, whose Unicode tables are not
-- modelled. A call or a result carries the uuid that would be drawn for it.
pub mod Stream
pub mod Published
mod Tests
use Prim.Native.String.{◌++◌ as text_append}
use meetings.Prelude.{
  ℕ, ◌+◌, String, ◌==◌, Bool, true, false, not, ◌&&◌, ◌||◌, Option, none, some, List, [], ◌∷◌, ◌++◌,
  map, if◌then◌else◌, or_text,
}
use meetings.Dict.{Dict}
use meetings.Text.{strip, after_prefix, is_some, take_text}
use meetings.Text.Replace.{lstrip_colon}
use meetings.Orchestration.Recovery.Thoughts.{Content, as_text, split_thought, strip_speaker_prefix}
use meetings.Runtime.Prompt.{
  PersonaSpec, Attendee, Scene, build_system_prompt, render_attendee_list, render_tool_guidance,
}

-- ToolCall (protocol.py)
pub record ToolCall : Type 0 where
  pub id : String
  pub name : String
  pub args : Dict String String

-- ToolResult (protocol.py), whose duration stays at its default
pub record ToolResult : Type 0 where
  pub id : String
  pub name : String
  pub is_ok : Bool
  pub summary : String
  pub denied_reason : Option String

-- TokenUsage (protocol.py)
pub record TokenUsage : Type 0 where
  pub prompt_tokens : ℕ
  pub completion_tokens : ℕ

-- TurnResult (protocol.py)
pub record TurnResult : Type 0 where
  pub turn_key : String
  pub agent_id : String
  pub public_content : String
  pub private_reasoning : String
  pub tool_calls : List ToolCall
  pub tool_results : List ToolResult
  pub usage : TokenUsage

-- TurnEvent (protocol.py), of the types that this loop yields
pub data TurnEvent : Type 0 where
  tool_call : ToolCall → TurnEvent
  tool_result : ToolResult → TurnEvent
  thought_delta : String → TurnEvent
  speech_delta : String → TurnEvent
  turn_result : TurnResult → TurnEvent

-- A tool call of a message.
pub record Asked : Type 0 where
  pub id : Option String
  pub drawn : String
  pub name : Option String
  pub args : Option (Dict String String)

-- A message of the loop: an AIMessage with its usage, a ToolMessage, or another.
pub data Produced : Type 0 where
  ai : List Asked → Content → TokenUsage → Produced
  answer : Option String → String → Option String → Content → Produced
  other : Produced

pub data Invoked : Type 0 where
  raised : String → Invoked
  produced : List Produced → Invoked

-- Utterance (protocol.py), as the loop reads it, and TurnRequest
pub record TurnRequest : Type 0 where
  pub turn_key : String
  pub scene : Scene
  pub attendees : List Attendee
  pub transcript : List String
  pub directive : String

-- PersonaBindRequest (protocol.py), with the tools that are active
pub record BoundPersona : Type 0 where
  pub agent_id : String
  pub persona : PersonaSpec
  pub system_prompt_template : String
  pub active_tools : List String

abbrev pub denied_prefix : String
denied_prefix = "DENIED_BY_CLUSTER"

abbrev default_cue : String
default_cue =
    "It is your turn to speak. Contribute to the meeting now, in character, addressing the objective and agenda directly. Do not ask for context; everything you need is above. Do not restate your role."

unfoldable pub system_prompt : BoundPersona → TurnRequest → String
system_prompt b request =
    build_system_prompt b.system_prompt_template b.persona request.scene
      (render_attendee_list request.attendees b.agent_id) (render_tool_guidance b.active_tools)

unfoldable pub history : TurnRequest → List String
history request =
    request.transcript ++ text_append "[Chair] " (or_text (some request.directive) default_cue) ∷ []

pub call_of : Asked → ToolCall
call_of a = record {
  id = or_text a.id a.drawn;
  name = elim a.name [ none ↦ "unknown" | some n ↦ n ];
  args = elim a.args [ none ↦ [] | some d ↦ d ];
}

-- body[len(DENIED_PREFIX):].lstrip(": ") if denied
unfoldable pub denial : String → Option String
unfolding after_prefix lstrip_colon
denial body = elim (after_prefix denied_prefix body) [
  | none ↦ none
  | some reason ↦ some (lstrip_colon reason)
]

module _ (lower : String → String) where
  abbrev pub says_failed : String → Bool
  says_failed body =
      is_some (after_prefix "error" (lower body))
      || is_some (after_prefix "retrieval is unavailable" (lower body))

  unfoldable pub result_of : Option String → String → Option String → String → ToolResult
  unfolding denial
  result_of id drawn name body = record {
    id = or_text id drawn;
    name = or_text name "unknown";
    is_ok = not (is_some (after_prefix denied_prefix body)) && not (says_failed body);
    summary = take_text 500 body;
    denied_reason = denial body;
  }

  -- The calls and the results of the messages, as events.
  unfoldable pub tool_events : List Produced → List TurnEvent
  unfolding result_of call_of
  tool_events [] = []
  tool_events (ai calls content usage ∷ ms) =
      map (λ a. tool_call (call_of a)) calls ++ tool_events ms
  tool_events (answer id drawn name content ∷ ms) =
      tool_result (result_of id drawn name (as_text content)) ∷ tool_events ms
  tool_events (other ∷ ms) = tool_events ms

-- The text of the last AIMessage that is not blank.
unfoldable pub spoken_text : List Produced → Option String
unfolding as_text strip
spoken_text [] = none
spoken_text (ai calls content usage ∷ ms) = elim (spoken_text ms) [
  | some later ↦ some later
  | none ↦ if strip (as_text content) == "" then none else some (as_text content)
]
spoken_text (answer id drawn name content ∷ ms) = spoken_text ms
spoken_text (other ∷ ms) = spoken_text ms

abbrev pub no_comment : String
no_comment = "(no comment this turn)"

-- public and thought
unfoldable pub speech : List Produced → String × String
unfolding spoken_text split_thought strip_speaker_prefix
speech ms =
    let (said, thought) = split_thought (or_text (spoken_text ms) "") in
    let public = strip_speaker_prefix said in (if public == "" then no_comment else public, thought)

unfoldable pub add_usage : List Produced → TokenUsage
add_usage [] = record { prompt_tokens = 0; completion_tokens = 0 }
add_usage (ai calls content u ∷ ms) =
    let rest = add_usage ms in
    record {
      prompt_tokens = u.prompt_tokens + rest.prompt_tokens;
      completion_tokens = u.completion_tokens + rest.completion_tokens;
    }
add_usage (answer id drawn name content ∷ ms) = add_usage ms
add_usage (other ∷ ms) = add_usage ms

unfoldable pub calls_in : List TurnEvent → List ToolCall
calls_in [] = []
calls_in (tool_call c ∷ es) = c ∷ calls_in es
calls_in (_ ∷ es) = calls_in es

unfoldable pub results_in : List TurnEvent → List ToolResult
results_in [] = []
results_in (tool_result r ∷ es) = r ∷ results_in es
results_in (_ ∷ es) = results_in es

-- f"[{persona.display_name} - {persona.title}] {public}"
unfoldable pub with_speaker : PersonaSpec → String → String
with_speaker p public =
    text_append "[" (
      text_append p.display_name
        (text_append " - " (text_append p.title (text_append "] " public))))

module _ (lower : String → String) (invoke : String → List String → Invoked) where
  unfoldable pub final_result : BoundPersona → String → List Produced → TurnResult
  unfolding speech tool_events calls_in results_in add_usage with_speaker
  final_result b key ms = record {
    turn_key = key;
    agent_id = b.agent_id;
    public_content = with_speaker b.persona (speech ms).0;
    private_reasoning = (speech ms).1;
    tool_calls = calls_in (tool_events lower ms);
    tool_results = results_in (tool_events lower ms);
    usage = add_usage ms;
  }

  abbrev pub thoughts : String → List TurnEvent
  thoughts thought = if thought == "" then [] else thought_delta thought ∷ []

  -- The events of what the loop came to, and the exception that ends them.
  unfoldable pub yielded : BoundPersona → String → Invoked → List TurnEvent × Option String
  unfolding final_result tool_events speech
  yielded b key (raised e) = ([], some e)
  yielded b key (produced ms) = (
    tool_events lower ms
        ++ (thoughts (speech ms).1
            ++ (speech_delta (speech ms).0 ∷ turn_result (final_result b key ms) ∷ [])),
    none,
  )

  -- BoundPersona.run_turn
  unfoldable pub run_persona_turn : BoundPersona → TurnRequest → List TurnEvent × Option String
  unfolding yielded system_prompt history
  run_persona_turn b request =
      yielded b request.turn_key (invoke (system_prompt b request) (history request))
