-- ===== src/Orchestration/Agents/Replay.antt =====
-- The attendee's node (agents.py) as the graph calls it: whose update it returns, and what it does
-- when it is run again after a crash.
use meetings.Prelude.{ℕ, String, ◌≡◌, refl, sym, ap, ◌∙◌, subst, inl, inr, true, some, arith}
use meetings.Dict.{Dict, get, has_key, string_eq}
use meetings.Orchestration.State.{Role, Update, MeetingState}
use meetings.Orchestration.TurnCache.{Database, serialisable, rehydrate, lookup}
use meetings.Orchestration.TurnCache.Lookup.{
  lookup_found, lookup_missing, lookup-get, has_key_of_get, record_turn-get, record_turn-cases,
}
use meetings.Sandbox.Leases.{Sdk, Config}
use meetings.Orchestration.Agents.{
  Pod, Backend, Node, returned, turn_key, known_node, replay_or_run, agent_node,
}
use meetings.Orchestration.Agents.Attributed.{
  IsOwnUpdate, HoldsOwn, IsRun, replayed, drifted, took, known_node-IsRun, rehydrate-serialisable,
}

module _ (sdk : Sdk) (config : Config) (db : Database) (attendees : Dict String Role)
    (agent_id : String) (role : Role) (known : get agent_id attendees ≡ some role) where
  node_known :
      (s : MeetingState) (pods : ℕ → Pod) (b : Backend)
      → agent_node sdk config db attendees agent_id s pods b
        ≡ known_node sdk config db agent_id role s pods b
  unfolding agent_node
  node_known s pods b = rw (agent_node, known) refl

  node-IsRun :
      (s : MeetingState) (pods : ℕ → Pod) (b : Backend)
      → IsRun sdk config db agent_id role s pods b
          (agent_node sdk config db attendees agent_id s pods b)
  node-IsRun s pods b =
      rw (node_known s pods b) (known_node-IsRun sdk config db agent_id role s pods b)

  run-IsOwnUpdate :
      (s : MeetingState) (pods : ℕ → Pod) (b : Backend) (r : Node × Backend) (u : Update)
      → IsRun sdk config db agent_id role s pods b r
      → HoldsOwn agent_id (turn_key s.meeting_id s.current_turn agent_id) b.turns
      → r.0 ≡ returned u
      → IsOwnUpdate agent_id u
  run-IsOwnUpdate s pods b r u (replayed v l) own e =
      let (st, g, same) =
        lookup-get db (turn_key s.meeting_id s.current_turn agent_id) b.turns v l in
      subst (IsOwnUpdate agent_id) (ground (arith, same, e)) (own st g)
  run-IsOwnUpdate s pods b r u (drifted d q) own e = absurd (cc)
  run-IsOwnUpdate s pods b r u (took v c l t) own e =
      subst (IsOwnUpdate agent_id) (ground (arith, e)) t.own

  -- Whatever the sandbox, the cluster and the database do: an attendee's node that returns gives an
  -- update with exactly one utterance, attributed to that attendee, and leaves the next speaker, the
  -- turn count and the summary alone. What the table holds for the turn's key is assumed to be such
  -- an update.
  pub agent_node-IsOwnUpdate :
      (s : MeetingState) (pods : ℕ → Pod) (b : Backend) (u : Update)
      → HoldsOwn agent_id (turn_key s.meeting_id s.current_turn agent_id) b.turns
      → (agent_node sdk config db attendees agent_id s pods b).0 ≡ returned u
      → IsOwnUpdate agent_id u
  agent_node-IsOwnUpdate s pods b u =
      run-IsOwnUpdate s pods b (agent_node sdk config db attendees agent_id s pods b) u
        (node-IsRun s pods b)

  run-lookup :
      (s : MeetingState) (pods : ℕ → Pod) (b : Backend) (r : Node × Backend) (u : Update)
      → IsRun sdk config db agent_id role s pods b r
      → db.connected ≡ true
      → db.reads ≡ true
      → r.0 ≡ returned u
      → has_key (turn_key s.meeting_id s.current_turn agent_id) r.1.turns ≡ true
      → lookup db (turn_key s.meeting_id s.current_turn agent_id) r.1.turns ≡ some u
  run-lookup s pods b r u (replayed v l) c d e h = ground (arith, e, l)
  run-lookup s pods b r u (drifted x q) c d e h = absurd (cc)
  run-lookup s pods b r u (took v w l t) c d e h =
      let key = turn_key s.meeting_id s.current_turn agent_id in
      let absent = has_key_of_get key b.turns (lookup_missing db key b.turns c d l) in
      elim t.kept [
        | inl k ↦ absurd (ground (arith, absent, k, h))
        | inr k ↦
            lookup_found db key w.turns (serialisable v) c d (
              subst (λ x. get key x ≡ some (serialisable v)) (sym k)
                (record_turn-get db key (serialisable v) b.turns absent
                  (subst (λ x. has_key key x ≡ true) k h)))
            ∙ ap some (rehydrate-serialisable agent_id v t.own)
            ∙ ground (arith, e)
      ]

  replay_known :
      (s : MeetingState) (pods : ℕ → Pod) (b : Backend) (u : Update)
      → lookup db (turn_key s.meeting_id s.current_turn agent_id) b.turns ≡ some u
      → known_node sdk config db agent_id role s pods b ≡ (returned u, b)
  unfolding known_node replay_or_run
  replay_known s pods b u l = rw l refl

  -- When the database answers: once an attendee's turn is in the table, running the node again for
  -- the same meeting and turn gives the same update and changes nothing, whichever sandboxes are
  -- offered then and whatever became of the leases meanwhile. No sandbox is asked for.
  pub agent_node-agent_node :
      (s t : MeetingState) (pods others : ℕ → Pod) (b later : Backend) (u : Update)
      → db.connected ≡ true
      → db.reads ≡ true
      → (agent_node sdk config db attendees agent_id s pods b).0 ≡ returned u
      → has_key
          (turn_key s.meeting_id s.current_turn agent_id)
          (agent_node sdk config db attendees agent_id s pods b).1.turns
        ≡ true
      → later.turns ≡ (agent_node sdk config db attendees agent_id s pods b).1.turns
      → t.meeting_id ≡ s.meeting_id
      → t.current_turn ≡ s.current_turn
      → agent_node sdk config db attendees agent_id t others later ≡ (returned u, later)
  agent_node-agent_node s t pods others b later u c d e h same m n =
      node_known t others later
      ∙ replay_known t others later u (
          rw (m, n, same)
            (run-lookup s pods b (agent_node sdk config db attendees agent_id s pods b) u
              (node-IsRun s pods b) c d e h))

  run-HoldsOwn :
      (s : MeetingState) (pods : ℕ → Pod) (b : Backend) (r : Node × Backend)
      → IsRun sdk config db agent_id role s pods b r
      → HoldsOwn agent_id (turn_key s.meeting_id s.current_turn agent_id) b.turns
      → HoldsOwn agent_id (turn_key s.meeting_id s.current_turn agent_id) r.1.turns
  run-HoldsOwn s pods b r (replayed v l) own st g = own st g
  run-HoldsOwn s pods b r (drifted x q) own st g = own st g
  run-HoldsOwn s pods b r (took v w l t) own st g =
      let key = turn_key s.meeting_id s.current_turn agent_id in
      elim t.kept [
        | inl k ↦ own st (subst (λ x. get key x ≡ some st) k g)
        | inr k ↦
            elim (record_turn-cases db key key (serialisable v) st b.turns
              (subst (λ x. get key x ≡ some st) k g)) [
                | inl h ↦ own st h
                | inr h ↦
                    subst (λ x. IsOwnUpdate agent_id (rehydrate x)) h
                      (subst (IsOwnUpdate agent_id) (sym (rehydrate-serialisable agent_id v t.own))
                        t.own)
              ]
      ]

  -- If what the table holds for a turn's key is rebuilt to an update with one utterance of the
  -- attendee, so is what it holds after the attendee's node has run for that turn.
  pub agent_node-HoldsOwn :
      (s : MeetingState) (pods : ℕ → Pod) (b : Backend)
      → HoldsOwn agent_id (turn_key s.meeting_id s.current_turn agent_id) b.turns
      → HoldsOwn agent_id
          (turn_key s.meeting_id s.current_turn agent_id)
          (agent_node sdk config db attendees agent_id s pods b).1.turns
  agent_node-HoldsOwn s pods b =
      run-HoldsOwn s pods b (agent_node sdk config db attendees agent_id s pods b)
        (node-IsRun s pods b)
