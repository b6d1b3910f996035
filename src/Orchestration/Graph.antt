-- ===== src/Orchestration/Graph.antt =====
-- backend/app/orchestration/graph.py: the checks before a meeting, the router, and the run of the
-- graph that build_meeting_graph describes: START goes to the supervisor, the router's answer goes
-- to an attendee or to END, and an attendee goes back to the supervisor. LangGraph runs one node
-- after the other, merges what each returns, and gives up after `recursion_limit` nodes. The chair
-- and the attendees are interfaces here.
use meetings.Prelude.{
  ℕ, zero, suc, ◌+◌, ◌≤◌, String, ◌≡◌, ◌==◌, Bool, true, false, not, Option, none, some, List, [],
  ◌∷◌, ◌++◌, if◌then◌else◌,
}
use meetings.Dict.{Dict, has_key, string_eq}
use meetings.Profiles.{Profile, DriftError, Resolved, ok, drift, resolve}
use meetings.Orchestration.State.{Role, Update, MeetingState, merge}
use meetings.Orchestration.Recovery.{finish}
use meetings.Orchestration.Supervisor.Rulings.{IsRuling}
use meetings.Orchestration.Agents.{Node, returned, raised}
use meetings.Orchestration.Agents.Attributed.{IsOwnUpdate}
pub mod Validation
pub mod Steps
pub mod Runs
pub mod Meetings
mod Tests

-- What validate_attendee_profiles gives: the profile names, or the ProfileDriftError with the
-- attendees that it lists.
pub data Validated : Type 0 where
  valid : Dict String String → Validated
  refused : List (Role × DriftError) → Validated

-- One pass of the loop over the attendees.
add_role :
    String
    → Role
    → Resolved
    → Dict String String × List (Role × DriftError)
    → Dict String String × List (Role × DriftError)
add_role id role (ok p) (resolved, problems) = ((id, p.name) ∷ resolved, problems)
add_role id role (drift e) (resolved, problems) = (resolved, (role, e) ∷ problems)

resolve_all : Dict String Role → Dict String String × List (Role × DriftError)
unfolding add_role
resolve_all [] = ([], [])
resolve_all ((id, role) ∷ attendees) =
    add_role id role (resolve role.default_tools) (resolve_all attendees)

validated : Dict String String × List (Role × DriftError) → Validated
validated (resolved, []) = valid resolved
validated (resolved, p ∷ problems) = refused (p ∷ problems)

unfoldable pub validate_attendee_profiles : Dict String Role → Validated
unfolding resolve_all validated
validate_attendee_profiles attendees = validated (resolve_all attendees)

-- The chair: what the supervisor's node returns as the n-th node of the run.
pub record Chair (attendees : Dict String Role) : Type 0 where
  pub rule : ℕ → MeetingState → Update
  -- the exception that the node raises in place of it, if it does
  pub raises : MeetingState → Option String
  pub ruling : (n : ℕ) (s : MeetingState) → IsRuling attendees s (rule n s)
  pub closes :
      (n : ℕ) (s : MeetingState)
      → s.turn_limit ≤ s.current_turn
      → ((rule n s).next_speaker ≡ some finish) × ((rule n s).current_turn ≡ none)

-- An update of one of the attendees.
pub record IsAttendeeUpdate (attendees : Dict String Role) (u : Update) : Type 0 where
  pub speaker : String
  pub attends : has_key speaker attendees ≡ true
  pub own : IsOwnUpdate speaker u

-- The attendees: what a node returns or raises, on a state of its own that stays good.
pub record Speakers (attendees : Dict String Role) (W : Type 0) : Type 1 where
  pub speak : String → ℕ → MeetingState → W → Node × W
  pub IsGood : W → Type 0
  pub speak-IsGood :
      (a : String) (n : ℕ) (s : MeetingState) (w : W) → IsGood w → IsGood (speak a n s w).1
  pub speak-IsAttendeeUpdate :
      (a : String) (n : ℕ) (s : MeetingState) (w : W) (u : Update)
      → has_key a attendees ≡ true
      → IsGood w
      → (speak a n s w).0 ≡ returned u
      → IsAttendeeUpdate attendees u

-- The node that runs next.
pub data At : Type 0 where
  supervisor : At
  attendee : String → At

-- How a run of the graph stops: at END, by an exception of a node, or by GraphRecursionError.
pub data Halt : Type 0 where
  ended : Halt
  failed_with : DriftError → Halt
  chair_failed : String → Halt
  recursion_error : Halt

pub record Run (W : Type 0) : Type 0 where
  pub halt : Halt
  pub state : MeetingState
  pub backend : W

-- router
unfoldable pub router : Dict String Role → MeetingState → String
router attendees s = elim s.next_speaker [
  | none ↦ finish
  | some next ↦
      if next == finish then finish else if not (has_key next attendees) then finish else next
]

-- The conditional edge from the supervisor: END, or the attendee's node.
pub edge : String → Option At
edge target = if target == finish then none else some (attendee target)

module _ {W : Type 0} {attendees : Dict String Role} (chair : Chair attendees)
    (speakers : Speakers attendees W) where
  -- The compiled graph, with as many nodes left as the limit allows, from the n-th node on.
  unfoldable pub graph_run : ℕ → ℕ → At → MeetingState → W → Run W
  unfolding router edge
  graph_run zero n at s w = record { halt = recursion_error; state = s; backend = w }
  graph_run (suc left) n supervisor s w =
      let next = merge s (chair.rule n s) in
      elim (chair.raises s) [
        | some e ↦ record { halt = chair_failed e; state = s; backend = w }
        | none ↦ elim (edge (router attendees next)) [
          | none ↦ record { halt = ended; state = next; backend = w }
          | some at ↦ graph_run left (suc n) at next w
        ]
      ]
  graph_run (suc left) n (attendee a) s w =
      let r = speakers.speak a n s w in
      elim r.0 [
        | raised e ↦ record { halt = failed_with e; state = s; backend = r.1 }
        | returned u ↦ graph_run left (suc n) supervisor (merge s u) r.1
      ]
