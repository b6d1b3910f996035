-- ===== src/Orchestration/Agents/Binding.antt =====
-- The persona that an attendee's node (backend/app/orchestration/agents.py) binds its sandbox to, and
-- what the sandbox makes of the request (sandbox/runtime/runtime/agent.py, BoundPersona.__init__). A
-- temperature is passed on and never computed with: its type is a parameter. So is the prompt that
-- stands in for a missing one, a text of prompts.py.
pub mod Granted
mod Tests
use meetings.Prelude.{
  ℕ, String, ◌==◌, Bool, true, false, not, Option, none, some, List, [], ◌∷◌, or_text,
  if◌then◌else◌,
}
use meetings.Prelude.Order.{sorted}
use meetings.Profiles.{Profile}
use meetings.Orchestration.State.{Role}
use meetings.Runtime.Capabilities.{resolve_grant}
use meetings.Runtime.Prompt.{PersonaSpec}
use meetings.Runtime.Turn.{BoundPersona}
use meetings.Runtime.Tools.Retrieval.{search_scopes}

-- The JSON column `tone`: a list, or another value.
pub data Tone : Type 0 where
  tones : List String → Tone
  other_tone : Tone

-- RoleAgent (models/roles.py): the columns that reach a persona. A list of JSON values is one of texts.
pub record RoleAgent : Type 0 where
  pub role : Role
  pub seniority : Option String
  pub summary : Option String
  pub responsibilities : Option (List String)
  pub kpis : Option (List String)
  pub priorities : Option (List String)
  pub objectives : Option (List String)
  pub risk_tolerance : Option String
  pub tone : Tone
  pub collaboration_style : Option String
  pub challenge_style : Option String
  pub allowed_shared_library_access : Bool
  pub system_prompt : Option String

-- list(x or [])
abbrev pub or_empty : Option (List String) → List String
or_empty none = []
or_empty (some xs) = xs

abbrev pub tone_list : Tone → List String
tone_list (tones xs) = xs
tone_list other_tone = []

-- _persona_from_role
unfoldable pub persona_from_role : RoleAgent → PersonaSpec
persona_from_role r = record {
  display_name = r.role.display_name;
  title = r.role.title;
  department = r.role.department;
  guidance = r.system_prompt;
  summary = r.summary;
  seniority = r.seniority;
  responsibilities = or_empty r.responsibilities;
  kpis = or_empty r.kpis;
  objectives = or_empty r.objectives;
  priorities = or_empty r.priorities;
  risk_tolerance = r.risk_tolerance;
  tone = tone_list r.tone;
  collaboration_style = r.collaboration_style;
  challenge_style = r.challenge_style;
  allowed_shared_library_access = r.allowed_shared_library_access;
}

-- ModelConfig (protocol.py)
pub record ModelConfig (F : Type 0) : Type 0 where
  pub endpoint : String
  pub model_name : String
  pub temperature : F
  pub timeout_seconds : ℕ
  pub reasoning_effort : String
  pub max_tokens : ℕ
  pub ignore_tls : Bool

-- TurnLimits (protocol.py)
pub record TurnLimits : Type 0 where
  pub retrieval_limit : ℕ
  pub max_evidence_per_message : ℕ
  pub max_tool_calls_per_turn : ℕ

-- PersonaBindRequest (protocol.py)
pub record BindRequest (F : Type 0) : Type 0 where
  pub agent_id : String
  pub meeting_id : String
  pub persona : PersonaSpec
  pub system_prompt_template : String
  pub granted_tools : List String
  pub model : ModelConfig F
  pub limits : TurnLimits

-- The settings of the process that reach a bind (core/config.py).
pub record ProcessSettings : Type 0 where
  pub llm_timeout_seconds : ℕ
  pub sandbox_llm_proxy_url : Option String
  pub inference_reasoning_effort : String

-- The settings of the meeting that reach a bind.
pub record ModelSettings (F : Type 0) : Type 0 where
  pub agent_prompt : Option String
  pub inference_endpoint : Option String
  pub inference_model_name : Option String
  pub inference_temperature : F
  pub inference_ignore_tls : Bool
  pub retrieval_limits_per_agent : ℕ
  pub max_evidence_per_message : ℕ

-- The constructor's arguments of the chat model of a bound persona.
pub record LlmKwargs (F : Type 0) : Type 0 where
  pub api_key : String
  pub base_url : String
  pub model : String
  pub temperature : F
  pub timeout : ℕ
  pub max_tokens : ℕ
  pub max_retries : ℕ
  pub reasoning_effort : Option String
  pub verify : Bool

module _ {F : Type 0} where
  -- model=ModelConfig(...)
  unfoldable pub model_config : ProcessSettings → ModelSettings F → ModelConfig F
  model_config p m = record {
    endpoint = or_text p.sandbox_llm_proxy_url (or_text m.inference_endpoint "");
    model_name = or_text m.inference_model_name "";
    temperature = m.inference_temperature;
    timeout_seconds = p.llm_timeout_seconds;
    reasoning_effort = p.inference_reasoning_effort;
    max_tokens = 2048;
    ignore_tls = m.inference_ignore_tls;
  }

  -- bind = PersonaBindRequest(...), for the profile that the role resolved to
  unfoldable pub bind_request :
      String
      → ProcessSettings
      → ModelSettings F
      → String
      → String
      → RoleAgent
      → Profile
      → BindRequest F
  unfolding persona_from_role model_config sorted
  bind_request default_agent_prompt p m agent_id meeting_id r profile = record {
    agent_id = agent_id;
    meeting_id = meeting_id;
    persona = persona_from_role r;
    system_prompt_template = or_text m.agent_prompt default_agent_prompt;
    granted_tools = sorted profile.tools;
    model = model_config p m;
    limits = record {
      retrieval_limit = m.retrieval_limits_per_agent;
      max_evidence_per_message = m.max_evidence_per_message;
      max_tool_calls_per_turn = 6;
    };
  }

  -- llm_kwargs of BoundPersona.__init__
  unfoldable pub llm_kwargs : ModelConfig F → LlmKwargs F
  llm_kwargs c = record {
    api_key = "sandbox-serviceaccount";
    base_url = c.endpoint;
    model = c.model_name;
    temperature = c.temperature;
    timeout = c.timeout_seconds;
    max_tokens = c.max_tokens;
    max_retries = 0;
    reasoning_effort = if c.reasoning_effort == "" then none else some c.reasoning_effort;
    verify = not c.ignore_tls;
  }

  -- BoundPersona.__init__, in a sandbox that allows the tools: the persona, and what is refused
  unfoldable pub bound_persona : List String → BindRequest F → BoundPersona × List String
  unfolding resolve_grant
  bound_persona allowed b =
      let (active, refused) = resolve_grant allowed b.granted_tools in
      (
        record {
          agent_id = b.agent_id;
          persona = b.persona;
          system_prompt_template = b.system_prompt_template;
          active_tools = active;
        },
        refused,
      )

  -- The scopes that the persona's document search asks for, of those that the tool offers.
  unfoldable pub persona_scopes : Bool → Bool → BindRequest F → List String
  unfolding search_scopes
  persona_scopes company private b =
      search_scopes company private b.persona.allowed_shared_library_access
