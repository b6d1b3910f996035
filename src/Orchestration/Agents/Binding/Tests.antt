-- ===== src/Orchestration/Agents/Binding/Tests.antt =====
-- Examples of the persona that an attendee's node (agents.py) binds.
use meetings.Prelude.{String, ◌≡◌, refl, true, false, none, some, [], ◌∷◌, elem}
use meetings.Profiles.{ok, resolve, resolve_wanted, wanted_tools, analyst}
use meetings.Runtime.Prompt.{build_tools}
use meetings.Orchestration.Agents.Binding.{
  RoleAgent, other_tone, ModelSettings, ProcessSettings, bind_request, bound_persona, model_config,
  llm_kwargs,
}
use meetings.Orchestration.Agents.Binding.Granted.{bound_persona-build_tools}

abbrev director : RoleAgent
director = record {
  role = record {
    display_name = "Ada";
    title = "Finance Director";
    department = "Finance";
    default_tools = some ("query_business_metrics" ∷ []);
  };
  seniority = none;
  summary = none;
  responsibilities = none;
  kpis = none;
  priorities = none;
  objectives = none;
  risk_tolerance = none;
  tone = other_tone;
  collaboration_style = none;
  challenge_style = none;
  allowed_shared_library_access = true;
  system_prompt = none;
}

abbrev process : ProcessSettings
process = record {
  llm_timeout_seconds = 90;
  sandbox_llm_proxy_url = some "http://proxy";
  inference_reasoning_effort = "";
}

abbrev tuned : ModelSettings String
tuned = record {
  agent_prompt = none;
  inference_endpoint = some "http://provider";
  inference_model_name = none;
  inference_temperature = "0.7";
  inference_ignore_tls = false;
  retrieval_limits_per_agent = 2;
  max_evidence_per_message = 5;
}

director_resolves : resolve director.role.default_tools ≡ ok analyst
unfolding resolve wanted_tools resolve_wanted
director_resolves = refl

-- The proxy comes before the provider, and an effort that is not configured is not sent.
proxied : (llm_kwargs (model_config process tuned)).base_url ≡ "http://proxy"
unfolding llm_kwargs model_config
proxied = refl

effortless : (llm_kwargs (model_config process tuned)).reasoning_effort ≡ none
unfolding llm_kwargs model_config
effortless = refl

bound_persona-build_tools_example :
    let bound =
      bound_persona analyst.tools (bind_request "prompt" process tuned "a" "m" director analyst) in
    (elem "query_business_metrics" bound.1 ≡ false)
    × (elem "query_business_metrics" (build_tools bound.0.active_tools)
        ≡ elem "query_business_metrics" analyst.tools)
    × (elem "query_business_metrics" (wanted_tools director.role.default_tools) ≡ true
        → elem "query_business_metrics" (build_tools bound.0.active_tools) ≡ true)
bound_persona-build_tools_example =
    bound_persona-build_tools "prompt" process tuned "a" "m" director analyst analyst.tools
      "query_business_metrics" director_resolves refl
