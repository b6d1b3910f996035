-- ===== src/Orchestration/Graph/Meetings.antt =====
-- The meeting graph (graph.py) with the chair of supervisor.py and the attendees of agents.py. The
-- model's outcomes and the sandboxes are parameters, by the number of the node that runs.
use meetings.Prelude.{
  Option, ℕ, ◌+◌, ◌*◌, ◌-◌, ◌≤◌, String, ◌≡◌, ◌≢◌, sym, subst, inl, inr, ◌==◌, true, none, some, [],
  ◌∷◌, arith, Bool-cases, Option-cases,
}
use meetings.Dict.{Dict, get, has_key, string_eq}
use meetings.Profiles.{Profile, DriftError, ok, resolve}
use meetings.Orchestration.State.{Role, Update, MeetingState}
use meetings.Orchestration.LlmCall.{Outcome}
use meetings.Orchestration.Recovery.{finish}
use meetings.Orchestration.Supervisor.{supervise, unprepared}
use meetings.Orchestration.Supervisor.Rulings.{supervise-IsRuling, supervise-closes}
use meetings.Orchestration.TurnCache.{Database, Stored, serialisable, rehydrate}
use meetings.Orchestration.TurnCache.Lookup.{lookup-get, record_turn-cases}
use meetings.Sandbox.Leases.{Sdk, Config}
use meetings.Orchestration.Agents.{Pod, Backend, Node, returned, raised, turn_key, agent_node}
use meetings.Orchestration.Agents.Attributed.{
  IsRun, replayed, drifted, took, known_node-IsRun, rehydrate-serialisable,
}
use meetings.Orchestration.Graph.{
  Chair, Speakers, IsAttendeeUpdate, supervisor, ended, Run, graph_run, valid,
  validate_attendee_profiles,
}
use meetings.Orchestration.Graph.Steps.{IsSound}
use meetings.Orchestration.Graph.Runs.{graph_run-IsSound, graph_run-ends}
use meetings.Orchestration.Graph.Validation.{validate_attendee_profiles-resolve}

-- Every turn in the table is an attendee's.
abbrev pub HoldsAttendees : Dict String Role → Backend → Type 0
HoldsAttendees attendees b =
    (key : String) (st : Stored)
    → get key b.turns ≡ some st
    → IsAttendeeUpdate attendees (rehydrate st)

has_key-get :
    (attendees : Dict String Role) (a : String)
    → has_key a attendees ≡ true
    → (role : Role) × (get a attendees ≡ some role)
unfolding has_key get
has_key-get [] a h = absurd (cc)
has_key-get ((j, r) ∷ d) a h = elim (Bool-cases (j == a)) [
  | inl y ↦ (r, ground (arith, y))
  | inr n ↦ let (x, e) = has_key-get d a (ground (arith, n, h)) in (x, ground (arith, n, e))
]

get-has_key :
    (attendees : Dict String Role) (a : String) (role : Role)
    → get a attendees ≡ some role
    → has_key a attendees ≡ true
unfolding has_key get
get-has_key [] a role h = absurd (cc)
get-has_key ((j, r) ∷ d) a role h = ground (arith, get-has_key d a role)

module _ (sdk : Sdk) (config : Config) (db : Database) (attendees : Dict String Role) where
  run-IsAttendeeUpdate :
      (a : String) (role : Role) (s : MeetingState) (pods : ℕ → Pod) (b : Backend)
      (r : Node × Backend) (u : Update)
      → IsRun sdk config db a role s pods b r
      → has_key a attendees ≡ true
      → HoldsAttendees attendees b
      → r.0 ≡ returned u
      → IsAttendeeUpdate attendees u
  run-IsAttendeeUpdate a role s pods b r u (replayed v l) k g e =
      let (st, f, same) = lookup-get db (turn_key s.meeting_id s.current_turn a) b.turns v l in
      subst (IsAttendeeUpdate attendees) (ground (arith, same, e))
        (g (turn_key s.meeting_id s.current_turn a) st f)
  run-IsAttendeeUpdate a role s pods b r u (drifted x q) k g e = absurd (cc)
  run-IsAttendeeUpdate a role s pods b r u (took v c l t) k g e =
      subst (IsAttendeeUpdate attendees) (ground (arith, e))
        (record { speaker = a; attends = k; own = t.own })

  run-HoldsAttendees :
      (a : String) (role : Role) (s : MeetingState) (pods : ℕ → Pod) (b : Backend)
      (r : Node × Backend)
      → IsRun sdk config db a role s pods b r
      → has_key a attendees ≡ true
      → HoldsAttendees attendees b
      → HoldsAttendees attendees r.1
  run-HoldsAttendees a role s pods b r (replayed v l) k g j st f = g j st f
  run-HoldsAttendees a role s pods b r (drifted x q) k g j st f = g j st f
  run-HoldsAttendees a role s pods b r (took v c l t) k g j st f =
      let key = turn_key s.meeting_id s.current_turn a in
      elim t.kept [
        | inl same ↦ g j st (subst (λ x. get j x ≡ some st) same f)
        | inr same ↦
            elim (record_turn-cases db key j (serialisable v) st b.turns
              (subst (λ x. get j x ≡ some st) same f)) [
                | inl h ↦ g j st h
                | inr h ↦
                    subst (λ x. IsAttendeeUpdate attendees (rehydrate x)) h
                      (subst (IsAttendeeUpdate attendees) (sym (rehydrate-serialisable a v t.own))
                        (record { speaker = a; attends = k; own = t.own }))
              ]
      ]

  node-IsRun :
      (a : String) (role : Role) (s : MeetingState) (pods : ℕ → Pod) (b : Backend)
      → get a attendees ≡ some role
      → IsRun sdk config db a role s pods b (agent_node sdk config db attendees a s pods b)
  unfolding agent_node
  node-IsRun a role s pods b e = rw (agent_node, e) (known_node-IsRun sdk config db a role s pods b)

  speak-HoldsAttendees :
      (a : String) (s : MeetingState) (pods : ℕ → Pod) (b : Backend)
      → HoldsAttendees attendees b
      → HoldsAttendees attendees (agent_node sdk config db attendees a s pods b).1
  unfolding agent_node
  speak-HoldsAttendees a s pods b g = elim (Option-cases (get a attendees)) [
    | inl n ↦ rw (agent_node, n) g
    | inr (role, e) ↦
        run-HoldsAttendees a role s pods b (agent_node sdk config db attendees a s pods b)
          (node-IsRun a role s pods b e) (get-has_key attendees a role e) g
  ]

  -- The attendees' nodes.
  pub meeting_speakers : (ℕ → ℕ → Pod) → Speakers attendees Backend
  meeting_speakers pods = record {
    speak = λ a n s b. agent_node sdk config db attendees a s (pods n) b;
    IsGood = HoldsAttendees attendees;
    speak-IsGood = λ a n s b g. speak-HoldsAttendees a s (pods n) b g;
    speak-IsAttendeeUpdate = λ a n s b u k g e.
        let (role, h) = has_key-get attendees a k in
        run-IsAttendeeUpdate a role s (pods n) b (agent_node sdk config db attendees a s (pods n) b)
          u (node-IsRun a role s (pods n) b h) k g e;
  }

  chair_closes :
      (lower upper : String → String) (outcome : ℕ → Outcome) (s : MeetingState)
      → s.turn_limit ≤ s.current_turn
      → ((supervise lower upper attendees outcome s).next_speaker ≡ some finish)
        × ((supervise lower upper attendees outcome s).current_turn ≡ none)
  chair_closes lower upper outcome s h =
      supervise-closes attendees s lower upper outcome (ground (arith, h))

  -- The supervisor's node.
  pub meeting_chair :
      (String → String) → (String → String) → Option String → (ℕ → ℕ → Outcome) → Chair attendees
  meeting_chair lower upper failure outcome = record {
    raises = λ s. unprepared failure s;
    rule = λ n s. supervise lower upper attendees (outcome n) s;
    ruling = λ n s. supervise-IsRuling attendees s lower upper (outcome n);
    closes = λ n s h. chair_closes lower upper (outcome n) s h;
  }

  never_raises :
      (failure : Option String) (s : MeetingState) → failure ≡ none → unprepared failure s ≡ none
  unfolding unprepared
  never_raises failure s p = ground (arith, p)

  -- A meeting from its initial state, allowed `recursion_limit` nodes; `failure` is what building the
  -- chair's client and prompt templates raises, if it does.
  pub run_meeting :
      (String → String)
      → (String → String)
      → Option String
      → (ℕ → ℕ → Outcome)
      → (ℕ → ℕ → Pod)
      → ℕ
      → MeetingState
      → Backend
      → Run Backend
  run_meeting lower upper failure outcome pods recursion_limit s b =
      graph_run (meeting_chair lower upper failure outcome) (meeting_speakers pods) recursion_limit
        0 supervisor s b

  drift_free :
      (names : Dict String String)
      → validate_attendee_profiles attendees ≡ valid names
      → (a : String) (s : MeetingState) (pods : ℕ → Pod) (b : Backend) (x : DriftError)
      → has_key a attendees ≡ true
      → (agent_node sdk config db attendees a s pods b).0 ≢ raised x
  drift_free names v a s pods b x k e =
      let (role, h) = has_key-get attendees a k in
      let (p, f, _) = validate_attendee_profiles-resolve attendees names a role v h in
      go role p f (agent_node sdk config db attendees a s pods b) (node-IsRun a role s pods b h) e
    where
      go :
          (role : Role) (p : Profile)
          → resolve role.default_tools ≡ ok p
          → (r : Node × Backend) → IsRun sdk config db a role s pods b r
          → r.0 ≢ raised x
      go role p f r (replayed u l) e = absurd (cc)
      go role p f r (drifted y q) e = absurd (cc)
      go role p f r (took u c l t) e = absurd (cc)

  -- A meeting whose attendees passed validate_attendee_profiles, whose chair's client and prompt
  -- templates can be built, and whose table of turns, which all meetings share, holds turns of its
  -- attendees only, reaches END, whatever the model replies, the sandboxes do and the cluster answers,
  -- if it is allowed two nodes for each turn that is left and one more.
  pub run_meeting-ends :
      (lower upper : String → String) (failure : Option String) (outcome : ℕ → ℕ → Outcome)
      (pods : ℕ → ℕ → Pod) (recursion_limit : ℕ) (s : MeetingState) (b : Backend)
      (names : Dict String String)
      → failure ≡ none
      → validate_attendee_profiles attendees ≡ valid names
      → HoldsAttendees attendees b
      → 2 * (s.turn_limit - s.current_turn) + 1 ≤ recursion_limit
      → (run_meeting lower upper failure outcome pods recursion_limit s b).halt ≡ ended
  unfolding run_meeting meeting_speakers meeting_chair
  run_meeting-ends lower upper failure outcome pods recursion_limit s b names p v g f =
      graph_run-ends (meeting_chair lower upper failure outcome) (meeting_speakers pods)
        (λ t. never_raises failure t p) (λ a n t w x k. drift_free names v a t (pods n) w x k)
        recursion_limit 0 s b g f

  -- A meeting that starts at turn 0 with no messages, on a table that holds attendees' turns only:
  -- in the state that its run leaves, however it stops, every public utterance is attributed to an
  -- attendee, there are no more utterances than counted turns, and no more counted turns than the
  -- limit.
  pub run_meeting-IsSound :
      (lower upper : String → String) (failure : Option String) (outcome : ℕ → ℕ → Outcome)
      (pods : ℕ → ℕ → Pod) (recursion_limit : ℕ) (s : MeetingState) (b : Backend)
      → HoldsAttendees attendees b
      → s.messages ≡ []
      → s.current_turn ≡ 0
      → IsSound attendees supervisor
          (run_meeting lower upper failure outcome pods recursion_limit s b).state
  unfolding run_meeting meeting_speakers meeting_chair
  run_meeting-IsSound lower upper failure outcome pods recursion_limit s b g m t =
      graph_run-IsSound (meeting_chair lower upper failure outcome) (meeting_speakers pods)
        recursion_limit s b g m t
