-- ===== src/Orchestration/Agents.antt =====
-- backend/app/orchestration/agents.py: one turn of an attendee. The sandbox that serves the attempt
-- is a parameter: whether binding the persona raises, which events it streams, and whether the
-- stream breaks. What is sent to it stands in Binding and Requests.
pub mod Attributed
pub mod Replay
pub mod Leasing
pub mod Binding
pub mod Requests
mod Tests
use Prim.Native.String.{◌++◌ as text_append}
use meetings.Prelude.{
  ℕ, zero, suc, String, Bool, true, false, Option, none, some, List, [], ◌∷◌, map, if◌then◌else◌,
}
use meetings.Dict.{Dict, get, put, string_eq}
use meetings.Text.{decimal}
use meetings.Profiles.{Profile, DriftError, Resolved, ok, drift, resolve}
use meetings.Orchestration.State.{
  Role, make_utterance, Event, Audit, Update, no_update, MeetingState,
}
use meetings.Orchestration.TurnCache.{Database, Table, serialisable, lookup, record_turn}
use meetings.Sandbox.Leases.{
  Handle, Sdk, Config, World, Acquired, handle_of, unavailable, acquire, needs_bind, mark_bound,
  invalidate,
}

-- ToolResult (protocol.py)
pub record ToolResult : Type 0 where
  pub name : String
  pub is_ok : Bool
  pub denied_reason : Option String
  pub duration_ms : ℕ

-- TurnResult (protocol.py)
pub record TurnResult : Type 0 where
  pub turn_key : String
  pub public_content : String
  pub private_reasoning : String
  pub tool_calls : List String
  pub tool_results : List ToolResult

-- TurnEvent (protocol.py)
pub data TurnEvent : Type 0 where
  turn_error : String → TurnEvent
  turn_result : TurnResult → TurnEvent
  progress : String → TurnEvent

-- The sandbox of one attempt: the exception of `bind`, the events, the exception that ends them.
pub record Pod : Type 0 where
  pub bind_fails : Option String
  pub events : List TurnEvent
  pub breaks : Option String

-- What an attempt with a handle comes to.
pub data Issued : Type 0 where
  answered : TurnResult → Issued
  errored : String → Issued
  lost : String → Issued
  ended : Issued

end_of : Option String → Issued
end_of none = ended
end_of (some e) = lost e

-- async for event in client.stream_turn(turn)
unfoldable pub read_stream : List TurnEvent → Option String → Issued
unfolding end_of
read_stream [] breaks = end_of breaks
read_stream (turn_error e ∷ events) breaks = errored e
read_stream (turn_result r ∷ events) breaks = answered r
read_stream (progress t ∷ events) breaks = read_stream events breaks

audit_of : String → TurnResult → ToolResult → Audit
audit_of agent_id result tr = record {
  turn_key = some result.turn_key;
  agent_id = agent_id;
  tool = some tr.name;
  is_ok = tr.is_ok;
  denied_reason = tr.denied_reason;
  duration_ms = tr.duration_ms;
  error = none;
}

-- _success_state
unfoldable pub success_state : String → String → TurnResult → Update
unfolding audit_of
success_state agent_id sandbox_name result = record no_update {
  messages = make_utterance result.public_content agent_id ∷ [];
  event_log =
      record {
        type = "agent_spoke";
        agent_id = agent_id;
        content = result.public_content;
        reasoning = none;
        private_reasoning = some result.private_reasoning;
        is_conclusion = false;
        sandbox = some sandbox_name;
        tool_calls = result.tool_calls;
      }
      ∷ [];
  tool_audit = map (audit_of agent_id result) result.tool_results;
  sandboxes = (agent_id, sandbox_name) ∷ [];
  active_agent_id = some agent_id;
}

pub unable : Role → String
unable role =
    text_append (text_append (text_append (text_append "[" role.display_name) " - ") role.title)
      "] (unable to contribute this turn)"

-- _failure_state
unfoldable pub failure_state : String → Role → String → Update
unfolding unable
failure_state agent_id role message = record no_update {
  messages = make_utterance (unable role) agent_id ∷ [];
  event_log =
      record {
        type = "agent_failed";
        agent_id = agent_id;
        content = unable role;
        reasoning = none;
        private_reasoning = some message;
        is_conclusion = false;
        sandbox = none;
        tool_calls = [];
      }
      ∷ [];
  tool_audit =
      record {
        turn_key = none;
        agent_id = agent_id;
        tool = none;
        is_ok = false;
        denied_reason = none;
        duration_ms = 0;
        error = some message;
      }
      ∷ [];
  active_agent_id = some agent_id;
}

-- f"{meeting_id}:{turn_no}:{agent_id}"
unfoldable pub turn_key : String → ℕ → String → String
turn_key meeting_id turn_no agent_id =
    text_append (text_append (text_append (text_append meeting_id ":") (decimal turn_no)) ":")
      agent_id

-- The shared state that a node changes: the leases with the cluster, and the table of turns.
pub record Backend : Type 0 where
  pub world : World
  pub turns : Table

-- The node's return, or the exception that it raises.
pub data Node : Type 0 where
  returned : Update → Node
  raised : DriftError → Node

module _ (sdk : Sdk) (config : Config) (db : Database) (agent_id : String) (role : Role) where
  -- Binding where it is needed, then the turn.
  unfoldable pub issue : String → Pod → World → Issued × World
  unfolding read_stream
  issue meeting_id pod w =
      if needs_bind sdk config meeting_id agent_id w
      then elim pod.bind_fails [
        | some e ↦ (lost e, w)
        | none ↦ (read_stream pod.events pod.breaks, mark_bound sdk config meeting_id agent_id w)
      ]
      else (read_stream pod.events pod.breaks, w)

  abbrev fail : String → Backend → Update × Backend
  fail message b = (failure_state agent_id role message, b)

  -- What follows an attempt: `again` is the next one, where the loop has one.
  unfoldable pub settle_turn :
      String
      → String
      → String
      → Handle
      → Issued
      → Backend
      → Option (String → Backend → Update × Backend)
      → Update × Backend
  settle_turn meeting_id key last h (answered r) b again =
      let u = success_state agent_id h.sandbox_name r in
      (u, record b { turns = record_turn db key (serialisable u) b.turns })
  settle_turn meeting_id key last h (errored e) b again = fail e b
  settle_turn meeting_id key last h ended b again = fail last b
  settle_turn meeting_id key last h (lost e) b none =
      fail e (record b { world = invalidate sdk config meeting_id agent_id b.world })
  settle_turn meeting_id key last h (lost e) b (some again) =
      again e (record b { world = invalidate sdk config meeting_id agent_id b.world })

  -- One pass of the loop, given the sandbox that was acquired.
  unfoldable pub with_sandbox :
      String
      → String
      → String
      → Pod
      → Backend
      → Option (String → Backend → Update × Backend)
      → Acquired × World
      → Update × Backend
  unfolding issue settle_turn
  with_sandbox meeting_id key last pod b again (unavailable e, w) =
      fail (text_append "No sandbox available: " e) (record b { world = w })
  with_sandbox meeting_id key last pod b again (handle_of h, w) =
      let r = issue meeting_id pod w in
      settle_turn meeting_id key last h r.0 (record b { world = r.1 }) again

  unfoldable pub attempt_turn :
      String
      → String
      → String
      → Pod
      → Option (String → Backend → Update × Backend)
      → String
      → Backend
      → Update × Backend
  unfolding with_sandbox
  attempt_turn meeting_id key profile pod again last b =
      with_sandbox meeting_id key last pod b again
        (acquire sdk config meeting_id agent_id profile b.world)

  -- for attempt in range(2)
  unfoldable pub take_turn : String → String → String → (ℕ → Pod) → Backend → Update × Backend
  unfolding attempt_turn
  take_turn meeting_id key profile pods b =
      attempt_turn meeting_id key profile (pods 0)
        (some (attempt_turn meeting_id key profile (pods 1) none))
        "Sandbox closed the stream without a result" b

  run_resolved : String → String → (ℕ → Pod) → Backend → Resolved → Node × Backend
  unfolding take_turn
  run_resolved meeting_id key pods b (drift e) = (raised e, b)
  run_resolved meeting_id key pods b (ok profile) =
      let r = take_turn meeting_id key profile.name pods b in (returned r.0, r.1)

  replay_or_run : MeetingState → (ℕ → Pod) → Backend → Option Update → Node × Backend
  unfolding run_resolved
  replay_or_run s pods b (some cached) = (returned cached, b)
  replay_or_run s pods b none =
      run_resolved s.meeting_id (turn_key s.meeting_id s.current_turn agent_id) pods b
        (resolve role.default_tools)

  -- agent_node, for a role that is among the attendees
  unfoldable pub known_node : MeetingState → (ℕ → Pod) → Backend → Node × Backend
  unfolding replay_or_run
  known_node s pods b =
      replay_or_run s pods b (lookup db (turn_key s.meeting_id s.current_turn agent_id) b.turns)

-- agent_node
unfoldable pub agent_node :
    Sdk
    → Config
    → Database
    → Dict String Role
    → String
    → MeetingState
    → (ℕ → Pod)
    → Backend
    → Node × Backend
agent_node sdk config db attendees agent_id s pods b = elim (get agent_id attendees) [
  | none ↦ (returned no_update, b)
  | some role ↦ known_node sdk config db agent_id role s pods b
]
