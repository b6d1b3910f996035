-- ===== src/Orchestration/Supervisor/Prompt.antt =====
-- What the chair's model is asked (backend/app/orchestration/supervisor.py): the template of its
-- prompt, the values that the template is filled with, and the client's settings. Filling the template
-- is the framework's. The prompt that stands in for a missing one is a parameter, and so is the type
-- of a temperature.
use Prim.Native.String.{◌++◌ as text_append}
use mathlib.Core.List.{append-nil}
use meetings.Prelude.{
  ℕ, String, ◌==◌, ◌≡◌, refl, ap, ◌∙◌, Bool, Option, none, some, List, [], ◌∷◌, ◌++◌, map, or_text,
  if◌then◌else◌,
}
use meetings.Dict.{Dict, string_eq}
use meetings.Text.{join}
use meetings.Text.Replace.{replace}
use meetings.Orchestration.State.{
  Role, Message, make_utterance, public_transcript, Update, MeetingState, merge,
}
use meetings.Orchestration.LlmCall.{Outcome}
use meetings.Orchestration.Supervisor.{supervise}
use meetings.Orchestration.Supervisor.Rulings.{supervise-IsRuling}
use meetings.Orchestration.Agents.Attributed.{IsOwnUpdate}
use meetings.Orchestration.Agents.Requests.Heard.{public_transcript-append, utterance_alone}

-- The settings that reach the client, and the one of the process (core/config.py) that may.
pub record ChairSettings (F : Type 0) : Type 0 where
  pub inference_api_key : Option String
  pub inference_endpoint : Option String
  pub inference_model_name : Option String
  pub supervisor_temperature : F
  pub inference_ignore_tls : Bool
  pub llm_timeout_seconds : ℕ
  pub supervisor_reasoning_effort : String

-- llm_params
pub record ChairLlm (F : Type 0) : Type 0 where
  pub api_key : String
  pub base_url : Option String
  pub model : Option String
  pub temperature : F
  pub timeout : ℕ
  pub max_tokens : ℕ
  pub max_retries : ℕ
  pub reasoning_effort : Option String
  pub unverified_client : Bool

-- _build_chair_llm
unfoldable pub build_chair_llm : {F : Type 0} → ℕ → ChairSettings F → ChairLlm F
build_chair_llm max_tokens s = record {
  api_key = or_text s.inference_api_key "not-required";
  base_url = s.inference_endpoint;
  model = s.inference_model_name;
  temperature = s.supervisor_temperature;
  timeout = s.llm_timeout_seconds;
  max_tokens = max_tokens;
  max_retries = 0;
  reasoning_effort =
      if s.supervisor_reasoning_effort == "" then none else some s.supervisor_reasoning_effort;
  unverified_client = s.inference_ignore_tls;
}

-- An entry of attendee_options.
unfoldable pub attendee_option : String × Role → String
attendee_option (id, r) = join "" (
    "ID: '" ∷ id ∷ "' | Name: " ∷ r.display_name ∷ " | Role: " ∷ r.title ∷ " | Department: "
    ∷ r.department ∷ [])

-- final_sys_prompt
unfoldable pub final_sys_prompt : String → Option String → Dict String Role → MeetingState → String
unfolding attendee_option replace join
final_sys_prompt default_supervisor_prompt supervisor_prompt attendees s =
    let raw_prompt = or_text supervisor_prompt default_supervisor_prompt in
    let options = join "\n" (map attendee_option attendees) in
    let listed = replace "{{ATTENDEE LIST}}" options raw_prompt in
    let aimed = replace "{{AGENDA}}" "{agenda}" (replace "{{OBJECTIVE}}" "{objective}" listed) in
    replace "{{EXPECTATIONS}}" (or_text (some s.expectations) "Not specified.")
      (replace "{{BRIEF}}" (or_text (some s.brief) "None provided.") aimed)

-- text_instruction
abbrev pub text_instruction : String
text_instruction =
    "\n\nReply with a single JSON object and nothing else, in this exact form:\n{{\"next_speaker\": \"<one ID from the list above, or FINISH>\", \"reasoning\": \"<one sentence>\"}}"

-- chain_inputs
pub record ChainInputs : Type 0 where
  pub objective : String
  pub agenda : String
  pub messages : List Message

unfoldable pub chain_inputs : MeetingState → ChainInputs
chain_inputs s = record {
  objective = s.objective;
  agenda = s.agenda;
  messages = public_transcript s.messages;
}

-- A question to the model: the template, and what fills it.
pub record Question : Type 0 where
  pub template : String
  pub inputs : ChainInputs

module _ (default_supervisor_prompt : String) (supervisor_prompt : Option String)
    (attendees : Dict String Role) where
  -- invoke_tools
  unfoldable pub tools_question : MeetingState → Question
  unfolding final_sys_prompt chain_inputs
  tools_question s = record {
    template = final_sys_prompt default_supervisor_prompt supervisor_prompt attendees s;
    inputs = chain_inputs s;
  }

  -- invoke_text
  unfoldable pub text_question : MeetingState → Question
  unfolding final_sys_prompt chain_inputs
  text_question s = record {
    template =
        text_append (final_sys_prompt default_supervisor_prompt supervisor_prompt attendees s)
          text_instruction;
    inputs = chain_inputs s;
  }

  -- What is asked after a node's update is what was asked before it, with what the update says in
  -- public at the end of the messages.
  question-merge :
      (s : MeetingState) (u : Update)
      → (tools_question (merge s u)).inputs.messages
        ≡ (tools_question s).inputs.messages ++ public_transcript u.messages
  unfolding tools_question chain_inputs merge
  question-merge s u = public_transcript-append s.messages u.messages

  -- The chair is asked the same after a ruling of its own, in both forms of the question: it never
  -- reads its own comments or reasons back.
  pub question-supervise :
      (lower upper : String → String) (s : MeetingState) (outcome : ℕ → Outcome)
      → let ruled = merge s (supervise lower upper attendees outcome s) in
        (tools_question ruled ≡ tools_question s) × (text_question ruled ≡ text_question s)
  unfolding tools_question text_question chain_inputs merge final_sys_prompt
  question-supervise lower upper s outcome =
      let u = supervise lower upper attendees outcome s in
      let q : public_transcript (s.messages ++ u.messages) ≡ public_transcript s.messages =
        public_transcript-append s.messages u.messages
        ∙ ap (λ l. public_transcript s.messages ++ l)
            (supervise-IsRuling attendees s lower upper outcome).quiet
        ∙ append-nil (public_transcript s.messages) in
      (rw q refl, rw q refl)

  -- After an attendee's turn the chair reads that turn's one utterance, and nothing else of it.
  pub question-IsOwnUpdate :
      (agent_id : String) (s : MeetingState) (u : Update) (o : IsOwnUpdate agent_id u)
      → tools_question (merge s u) ≡ record (tools_question s) {
        inputs = record (chain_inputs s) {
          messages = public_transcript s.messages ++ make_utterance o.content agent_id ∷ [];
        };
      }
  unfolding tools_question chain_inputs merge final_sys_prompt
  question-IsOwnUpdate agent_id s u o =
      let q : public_transcript (s.messages ++ u.messages)
          ≡ public_transcript s.messages ++ make_utterance o.content agent_id ∷ [] =
        public_transcript-append s.messages u.messages
        ∙ ap (λ l. public_transcript s.messages ++ public_transcript l) o.said
        ∙ ap (λ l. public_transcript s.messages ++ l) (utterance_alone o.content agent_id) in
      rw q refl
