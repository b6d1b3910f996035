-- ===== src/Profiles.antt =====
-- Capability profiles (backend/app/orchestration/profiles.py). A persona's requested tools are
-- mapped onto the profile that the cluster provisions. A frozenset is a list of texts without
-- repetition, read only by `elem` and `subset`. The proofs stand in the children.
pub mod Covering
pub mod Resolution
mod Tests
use meetings.Prelude.{
  ℕ, suc, String, Bool, true, false, not, ◌==◌, Option, none, some, List, [], ◌∷◌, ◌++◌, map, elem,
  subset, filter, find?, length, ltb, if◌then◌else◌,
}
use meetings.Prelude.Order.{sorted_set}

abbrev pub retrieve_documents : String
retrieve_documents = "retrieve_documents"

abbrev pub draft_artifact : String
draft_artifact = "draft_artifact"

abbrev pub read_artifact : String
read_artifact = "read_artifact"

abbrev pub record_action_item : String
record_action_item = "record_action_item"

abbrev pub query_business_metrics : String
query_business_metrics = "query_business_metrics"

abbrev pub run_python_analysis : String
run_python_analysis = "run_python_analysis"

abbrev pub check_policy_compliance : String
check_policy_compliance = "check_policy_compliance"

abbrev pub search_corpus : String
search_corpus = "search_corpus"

abbrev pub all_tools : List String
all_tools =
    retrieve_documents ∷ draft_artifact ∷ read_artifact ∷ record_action_item
    ∷ query_business_metrics ∷ run_python_analysis ∷ check_policy_compliance ∷ search_corpus ∷ []

abbrev pub baseline_tools : List String
baseline_tools = retrieve_documents ∷ draft_artifact ∷ read_artifact ∷ record_action_item ∷ []

pub record Profile : Type 0 where
  pub name : String
  pub tools : List String
  pub can_execute_code : Bool
  pub needs_metrics_dsn : Bool
  pub needs_corpus_egress : Bool
  pub description : String
  pub warm_replicas : ℕ
  pub seed_titles : List String

-- __post_init__: `none` is the ValueError at import time.
unfoldable pub post_init : Profile → Option Profile
post_init p = if ltb p.warm_replicas 1 then none else some p

abbrev pub baseline : Profile
baseline = record {
  name = "baseline";
  tools = baseline_tools;
  can_execute_code = false;
  needs_metrics_dsn = false;
  needs_corpus_egress = false;
  description = "Reads the shared library, drafts artifacts, records actions.";
  warm_replicas = 2;
  seed_titles = [];
}

abbrev pub counsel : Profile
counsel = record {
  name = "counsel";
  tools = baseline_tools ++ check_policy_compliance ∷ [];
  can_execute_code = false;
  needs_metrics_dsn = false;
  needs_corpus_egress = false;
  description = "Baseline plus deterministic policy checks.";
  warm_replicas = 1;
  seed_titles = "GC" ∷ "Quality" ∷ [];
}

abbrev pub strategist : Profile
strategist = record {
  name = "strategist";
  tools = baseline_tools ++ search_corpus ∷ [];
  can_execute_code = false;
  needs_metrics_dsn = false;
  needs_corpus_egress = true;
  description = "Baseline plus the external corpus.";
  warm_replicas = 1;
  seed_titles = "Chief Architect" ∷ "Solution Architect" ∷ [];
}

abbrev pub analyst : Profile
analyst = record {
  name = "analyst";
  tools = baseline_tools ++ query_business_metrics ∷ [];
  can_execute_code = false;
  needs_metrics_dsn = true;
  needs_corpus_egress = false;
  description = "Baseline plus read-only business metrics. Cannot execute code.";
  warm_replicas = 1;
  seed_titles = "VP" ∷ "Inspector" ∷ [];
}

abbrev pub quant : Profile
quant = record {
  name = "quant";
  tools = baseline_tools ++ query_business_metrics ∷ run_python_analysis ∷ [];
  can_execute_code = true;
  needs_metrics_dsn = true;
  needs_corpus_egress = false;
  description = "Metrics plus model-authored analysis, executed in a network-isolated sandbox.";
  warm_replicas = 1;
  seed_titles = "FD" ∷ "Engineer" ∷ [];
}

abbrev pub chief : Profile
chief = record {
  name = "chief";
  tools = baseline_tools ++ query_business_metrics ∷ check_policy_compliance ∷ search_corpus ∷ [];
  can_execute_code = false;
  needs_metrics_dsn = true;
  needs_corpus_egress = true;
  description = "Broad read access across metrics, policy and corpus. No code execution.";
  warm_replicas = 1;
  seed_titles = "CEO" ∷ [];
}

-- Least to most capable.
abbrev pub profiles : List Profile
profiles = baseline ∷ counsel ∷ strategist ∷ analyst ∷ quant ∷ chief ∷ []

-- ProfileDriftError, with what its message names.
pub data DriftError : Type 0 where
  unknown_tools : List String → DriftError
  no_profile : List String → String → DriftError

pub data Resolved : Type 0 where
  ok : Profile → Resolved
  drift : DriftError → Resolved

-- {t for t in (requested or []) if t}
unfoldable pub wanted_tools : Option (List String) → List String
wanted_tools none = []
wanted_tools (some requested) = filter (λ t. not (t == "")) requested

abbrev pub covers : List String → Profile → Bool
covers wanted p = subset wanted p.tools

-- len(wanted & p.tools), which counts each tool once
overlap : List String → Profile → ℕ
overlap wanted p = length (filter (λ t. elem t wanted) p.tools)

-- max(PROFILES, key=...): the first of the largest
closest : List String → Profile → List Profile → Profile
unfolding overlap
closest wanted best [] = best
closest wanted best (p ∷ ps) =
    closest wanted (if ltb (overlap wanted best) (overlap wanted p) then p else best) ps

or_drift : List String → Option Profile → Resolved
unfolding closest
or_drift wanted (some p) = ok p
or_drift wanted none =
    let best = closest wanted baseline profiles in
    drift (no_profile (sorted_set (filter (λ t. not (elem t best.tools)) wanted)) best.name)

resolve_known : List String → List String → Resolved
unfolding or_drift
resolve_known wanted [] = or_drift wanted (find? (covers wanted) profiles)
resolve_known wanted (t ∷ unknown) = drift (unknown_tools (sorted_set (t ∷ unknown)))

unfoldable pub resolve_wanted : List String → Resolved
unfolding resolve_known
resolve_wanted [] = ok baseline
resolve_wanted (t ∷ wanted) =
    resolve_known (t ∷ wanted) (filter (λ s. not (elem s all_tools)) (t ∷ wanted))

unfoldable pub resolve : Option (List String) → Resolved
unfolding resolve_wanted
resolve requested = resolve_wanted (wanted_tools requested)

or_baseline : Option Profile → Profile
or_baseline none = baseline
or_baseline (some p) = p

unfoldable pub for_persona : String → Profile
unfolding or_baseline
for_persona title = or_baseline (find? (λ p. elem title p.seed_titles) profiles)
