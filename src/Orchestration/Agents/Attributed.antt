-- ===== src/Orchestration/Agents/Attributed.antt =====
-- What every turn of an attendee (agents.py) says, and what it leaves in the table of turns.
use meetings.Prelude.{
  ℕ, String, ◌≡◌, refl, ap, ◌⊎◌, inl, inr, Option, none, some, [], ◌∷◌, Option-cases,
}
use meetings.Dict.{get, string_eq}
use meetings.Profiles.{DriftError, Resolved, ok, drift, resolve}
use meetings.Orchestration.State.{Role, make_utterance, Update, MeetingState}
use meetings.Orchestration.TurnCache.{
  Database, Table, Stored, serialisable, rehydrate, lookup, record_turn,
}
use meetings.Sandbox.Leases.{Handle, Sdk, Config, World, Acquired, handle_of, unavailable}
use meetings.Orchestration.Agents.{
  Issued, answered, errored, lost, ended, Pod, TurnResult, success_state, failure_state, unable,
  Backend, Node, returned, raised, turn_key, settle_turn, with_sandbox, attempt_turn, take_turn,
  run_resolved, replay_or_run, known_node,
}

-- The update of an attendee's turn: one utterance, attributed to the attendee, and nothing that
-- routes, counts or ends the meeting.
pub record IsOwnUpdate (agent_id : String) (u : Update) : Type 0 where
  pub content : String
  pub said : u.messages ≡ make_utterance content agent_id ∷ []
  pub unrouted : u.next_speaker ≡ none
  pub uncounted : u.current_turn ≡ none
  pub inconclusive : u.final_summary ≡ none

success-IsOwnUpdate :
    (agent_id name : String) (r : TurnResult) → IsOwnUpdate agent_id (success_state agent_id name r)
unfolding success_state
success-IsOwnUpdate agent_id name r = record {
  content = r.public_content;
  said = refl;
  unrouted = refl;
  uncounted = refl;
  inconclusive = refl;
}

failure-IsOwnUpdate :
    (agent_id : String) (role : Role) (e : String)
    → IsOwnUpdate agent_id (failure_state agent_id role e)
unfolding failure_state
failure-IsOwnUpdate agent_id role e = record {
  content = unable role;
  said = refl;
  unrouted = refl;
  uncounted = refl;
  inconclusive = refl;
}

-- An utterance is rebuilt as it was stored.
utterance-rehydrate :
    (u : Update) (content agent_id : String)
    → u.messages ≡ make_utterance content agent_id ∷ []
    → (rehydrate (serialisable u)).messages ≡ u.messages
unfolding rehydrate serialisable make_utterance get
utterance-rehydrate u content agent_id e = rw (e) refl

-- The update that an attendee's turn returns is rebuilt from the table as it was.
pub rehydrate-serialisable :
    (agent_id : String) (u : Update) → IsOwnUpdate agent_id u → rehydrate (serialisable u) ≡ u
unfolding rehydrate serialisable
rehydrate-serialisable agent_id u o =
    ap (λ m. record u { messages = m }) (utterance-rehydrate u o.content agent_id o.said)

module _ (sdk : Sdk) (config : Config) (db : Database) (agent_id : String) (role : Role)
    (meeting_id key : String) (table : Table) where
  -- A turn that began with the table: it leaves it, or records what it returns.
  pub record IsTurn (r : Update × Backend) : Type 0 where
    pub own : IsOwnUpdate agent_id r.0
    pub kept : (r.1.turns ≡ table) ⊎ (r.1.turns ≡ record_turn db key (serialisable r.0) table)

  IsGood : Option (String → Backend → Update × Backend) → Type 0
  IsGood none = Unit
  IsGood (some again) = (e : String) (b : Backend) → b.turns ≡ table → IsTurn (again e b)

  failure-IsTurn :
      (e : String) (b : Backend) → b.turns ≡ table → IsTurn (failure_state agent_id role e, b)
  failure-IsTurn e b h = record { own = failure-IsOwnUpdate agent_id role e; kept = inl h }

  settle-IsTurn :
      (last : String) (h : Handle) (i : Issued) (b : Backend)
      (again : Option (String → Backend → Update × Backend))
      → IsGood again
      → b.turns ≡ table
      → IsTurn (settle_turn sdk config db agent_id role meeting_id key last h i b again)
  unfolding settle_turn IsGood
  settle-IsTurn last h (answered r) b again g e = record {
    own = success-IsOwnUpdate agent_id h.sandbox_name r;
    kept = inr (ap (record_turn db key (serialisable (success_state agent_id h.sandbox_name r))) e);
  }
  settle-IsTurn last h (errored t) b again g e = failure-IsTurn t b e
  settle-IsTurn last h ended b again g e = failure-IsTurn last b e
  settle-IsTurn last h (lost t) b none g e = failure-IsTurn t _ e
  settle-IsTurn last h (lost t) b (some again) g e = g t _ e

  with_sandbox-IsTurn :
      (last : String) (pod : Pod) (b : Backend)
      (again : Option (String → Backend → Update × Backend)) (a : Acquired × World)
      → IsGood again
      → b.turns ≡ table
      → IsTurn (with_sandbox sdk config db agent_id role meeting_id key last pod b again a)
  unfolding with_sandbox
  with_sandbox-IsTurn last pod b again (unavailable t, w) g e = failure-IsTurn _ _ e
  with_sandbox-IsTurn last pod b again (handle_of h, w) g e = settle-IsTurn last h _ _ again g e

  take_turn-IsTurn :
      (profile : String) (pods : ℕ → Pod) (b : Backend)
      → b.turns ≡ table
      → IsTurn (take_turn sdk config db agent_id role meeting_id key profile pods b)
  unfolding take_turn attempt_turn IsGood
  take_turn-IsTurn profile pods b e =
      with_sandbox-IsTurn _ (pods 0) b _ _ (λ t c h. with_sandbox-IsTurn t (pods 1) c none _ tt h) e

-- What the table holds for a key is a turn of the attendee.
abbrev pub HoldsOwn : String → String → Table → Type 0
HoldsOwn agent_id key table =
    (st : Stored) → get key table ≡ some st → IsOwnUpdate agent_id (rehydrate st)

module _ (sdk : Sdk) (config : Config) (db : Database) (agent_id : String) (role : Role)
    (s : MeetingState) where
  -- A run of the node: it replays what the table holds, raises, or takes a turn.
  pub data IsRun (pods : ℕ → Pod) (b : Backend) : Node × Backend → Type 0 where
    replayed :
        (u : Update)
        → lookup db (turn_key s.meeting_id s.current_turn agent_id) b.turns ≡ some u
        → IsRun pods b (returned u, b)
    drifted : (e : DriftError) → resolve role.default_tools ≡ drift e → IsRun pods b (raised e, b)
    took :
        (u : Update) (c : Backend)
        → lookup db (turn_key s.meeting_id s.current_turn agent_id) b.turns ≡ none
        → IsTurn sdk config db agent_id role s.meeting_id
            (turn_key s.meeting_id s.current_turn agent_id)
            b.turns
            (u, c)
        → IsRun pods b (returned u, c)

  pub known_node-IsRun :
      (pods : ℕ → Pod) (b : Backend)
      → IsRun pods b (known_node sdk config db agent_id role s pods b)
  unfolding known_node replay_or_run run_resolved
  known_node-IsRun pods b =
      elim (Option-cases (lookup db (turn_key s.meeting_id s.current_turn agent_id) b.turns)) [
        | inl n ↦ rw n (resolved n (resolve role.default_tools) refl)
        | inr (u, e) ↦ rw e (replayed u e)
      ]
    where
      resolved :
          lookup db (turn_key s.meeting_id s.current_turn agent_id) b.turns ≡ none
          → (r : Resolved) → resolve role.default_tools ≡ r
          → IsRun pods b (
              run_resolved sdk config db agent_id role s.meeting_id
                (turn_key s.meeting_id s.current_turn agent_id)
                pods
                b
                r)
      resolved n (drift e) h = drifted e h
      resolved n (ok p) h = took _ _ n (
          take_turn-IsTurn sdk config db agent_id role s.meeting_id
            (turn_key s.meeting_id s.current_turn agent_id) b.turns p.name pods b refl)
