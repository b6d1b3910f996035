-- ===== src/Roles/Tests.antt =====
-- Examples of what a selection grants (api/routes/roles.py) and of a meeting's matrix
-- (api/routes/meetings.py).
use mathlib.Core.List.{Perm}
use meetings.Prelude.{String, ◌≡◌, refl, true, false, none, some, List, [], ◌∷◌, All}
use meetings.Prelude.Order.{sorted, sorted_set}
use meetings.Dict.{Dict}
use meetings.Profiles.{
  ok, drift, unknown_tools, resolve, resolve_wanted, wanted_tools, quant, all_tools,
}
use meetings.Orchestration.Agents.Binding.{RoleAgent, tones, ModelSettings, ProcessSettings}
use meetings.Roles.{
  Entry, unresolved, resolve_capability_profile, get_meeting_capabilities, matrix, raised,
}
use meetings.Roles.Matrix.{
  Resolves, ShowsAll, get_meeting_capabilities-ShowsAll, get_meeting_capabilities-raised,
}

abbrev holding : List String → RoleAgent
holding tools = record {
  role = record {
    display_name = "Ada";
    title = "Engineer";
    department = "Research";
    default_tools = some tools;
  };
  seniority = none;
  summary = none;
  responsibilities = none;
  kpis = none;
  priorities = none;
  objectives = none;
  risk_tolerance = none;
  tone = tones [];
  collaboration_style = none;
  challenge_style = none;
  allowed_shared_library_access = true;
  system_prompt = none;
}

abbrev process : ProcessSettings
process = record {
  llm_timeout_seconds = 90;
  sandbox_llm_proxy_url = none;
  inference_reasoning_effort = "";
}

abbrev tuned : ModelSettings String
tuned = record {
  agent_prompt = none;
  inference_endpoint = none;
  inference_model_name = none;
  inference_temperature = "0.7";
  inference_ignore_tls = false;
  retrieval_limits_per_agent = 2;
  max_evidence_per_message = 5;
}

abbrev engineer : RoleAgent
engineer = holding ("run_python_analysis" ∷ [])

abbrev room : Dict String RoleAgent
room = ("a", engineer) ∷ []

engineer_resolves : resolve engineer.role.default_tools ≡ ok quant
unfolding resolve wanted_tools resolve_wanted
engineer_resolves = refl

room-Resolves : All Resolves room
room-Resolves = ((quant, engineer_resolves), tt)

get_meeting_capabilities-ShowsAll_example :
    (shown es : List Entry) × (get_meeting_capabilities (some room)
      ≡ matrix shown (sorted all_tools))
    × Perm shown es
    × ShowsAll "prompt" process tuned "m" room es
get_meeting_capabilities-ShowsAll_example =
    get_meeting_capabilities-ShowsAll "prompt" process tuned "m" room room-Resolves

-- A tool that the catalogue does not know: the editor is told, and the matrix fails.
told_drift :
    resolve_capability_profile (some ("fly" ∷ [])) ≡ unresolved (unknown_tools ("fly" ∷ []))
unfolding resolve_capability_profile resolve wanted_tools resolve_wanted sorted_set
told_drift = refl

drifts : resolve (some ("fly" ∷ [])) ≡ drift (unknown_tools ("fly" ∷ []))
unfolding resolve wanted_tools resolve_wanted sorted_set
drifts = refl

failed_matrix :
    get_meeting_capabilities (some (("a", holding ("fly" ∷ [])) ∷ room))
    ≡ raised (unknown_tools ("fly" ∷ []))
failed_matrix =
    get_meeting_capabilities-raised room "a" (holding ("fly" ∷ [])) (unknown_tools ("fly" ∷ []))
      drifts
