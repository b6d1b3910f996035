-- ===== src/Roles.antt =====
-- backend/app/api/routes/roles.py: what a selection of tools grants; and the capability matrix of a
-- meeting (backend/app/api/routes/meetings.py). The rows of the meeting's attendees are what the
-- database returns for their ids. The text of a refusal is the exception that it prints.
pub mod Matrix
mod Tests
use Prim.Native.Nat.{Ordering}
use Prim.Native.String.{compare}
use meetings.Prelude.{
  String, ◌==◌, Bool, Option, none, some, List, [], ◌∷◌, map, or_text, if◌then◌else◌,
}
use meetings.Prelude.Order.{sorted}
use meetings.Dict.{Dict, get, string_eq}
use meetings.Profiles.{Profile, DriftError, Resolved, ok, drift, profiles, all_tools, resolve}
use meetings.Runtime.Prompt.{tool_guidance}
use meetings.Orchestration.State.{Role}
use meetings.Orchestration.Agents.Binding.{RoleAgent}

-- What a profile is told to grant.
pub record Grant : Type 0 where
  pub profile : String
  pub description : String
  pub granted_tools : List String
  pub can_execute_code : Bool
  pub holds_metrics_credential : Bool

unfoldable pub grant_of : Profile → Grant
unfolding sorted
grant_of p = record {
  profile = p.name;
  description = p.description;
  granted_tools = sorted p.tools;
  can_execute_code = p.can_execute_code;
  holds_metrics_credential = p.needs_metrics_dsn;
}

-- capability_catalog: the tools with their guidance, and the profiles
unfoldable pub capability_catalog : List (String × String) × List Grant
unfolding sorted get grant_of
capability_catalog = (
  map (λ name. (name, or_text (get name tool_guidance) "")) (sorted all_tools),
  map grant_of profiles,
)

pub data Selection : Type 0 where
  in_profile : Grant → Selection
  unresolved : DriftError → Selection

-- resolve_capability_profile: the requested tools are absent or a list
unfoldable pub resolve_capability_profile : Option (List String) → Selection
unfolding grant_of
resolve_capability_profile requested = elim (resolve requested) [
  | ok profile ↦ in_profile (grant_of profile)
  | drift e ↦ unresolved e
]

-- An attendee's entry of the matrix.
pub record Entry : Type 0 where
  pub agent_id : String
  pub display_name : String
  pub title : String
  pub grant : Grant

-- The answer: the entries and all tools, no meeting, or the exception that the route raises.
pub data Capabilities : Type 0 where
  meeting_not_found : Capabilities
  raised : DriftError → Capabilities
  matrix : List Entry → List String → Capabilities

abbrev pub entry_of : String → RoleAgent → Profile → Entry
entry_of id r p = record {
  agent_id = id;
  display_name = r.role.display_name;
  title = r.role.title;
  grant = grant_of p;
}

-- The entries of the rows in their order, or the exception that the first drifting row raises.
pub data Entries : Type 0 where
  stopped : DriftError → Entries
  collected : List Entry → Entries

unfoldable pub entries : Dict String RoleAgent → Entries
entries [] = collected []
entries ((id, r) ∷ rows) =
    let rest = entries rows in
    elim (resolve r.role.default_tools) [
      | drift e ↦ stopped e
      | ok p ↦ elim rest [ stopped e ↦ stopped e | collected es ↦ collected (entry_of id r p ∷ es) ]
    ]

insert_entry : Entry → List Entry → List Entry
insert_entry e [] = e ∷ []
insert_entry e (x ∷ xs) =
    let rest = x ∷ insert_entry e xs in
    elim (compare e.display_name x.display_name) [ Ordering.gt ↦ rest | _ ↦ e ∷ x ∷ xs ]

-- sorted(entries, key=lambda e: e["display_name"])
unfoldable pub sort_entries : List Entry → List Entry
unfolding insert_entry
sort_entries [] = []
sort_entries (e ∷ es) = insert_entry e (sort_entries es)

-- get_meeting_capabilities: the rows of the attendees, if the meeting exists
unfoldable pub get_meeting_capabilities : Option (Dict String RoleAgent) → Capabilities
unfolding entries sort_entries sorted
get_meeting_capabilities none = meeting_not_found
get_meeting_capabilities (some rows) = elim (entries rows) [
  | stopped e ↦ raised e
  | collected es ↦ matrix (sort_entries es) (sorted all_tools)
]
