-- ===== src/Orchestration/Agents/Requests/Heard.antt =====
-- What the persona's loop is told of the meeting after an attendee has spoken.
use mathlib.Core.List.{map-append, append-nil}
use meetings.Prelude.{
  ℕ, String, ◌≡◌, refl, ap, Bool-cases, inl, inr, or_text, ◌∙◌, some, List, [], ◌∷◌, ◌++◌, map,
}
use meetings.Dict.{Dict, get, string_eq}
use meetings.Orchestration.State.{
  Role, Message, make_utterance, is_utterance, public_transcript, Update, MeetingState, merge,
}
use meetings.Orchestration.TurnCache.{Database}
use meetings.Orchestration.LlmCall.{Outcome}
use meetings.Orchestration.Supervisor.{supervise}
use meetings.Orchestration.Supervisor.Rulings.{supervise-IsRuling}
use meetings.Sandbox.Leases.{Sdk, Config}
use meetings.Orchestration.Agents.{Pod, Backend, returned, turn_key, agent_node}
use meetings.Orchestration.Agents.Attributed.{IsOwnUpdate, HoldsOwn}
use meetings.Orchestration.Agents.Replay.{agent_node-IsOwnUpdate}
use meetings.Orchestration.Agents.Binding.{RoleAgent}
use meetings.Orchestration.Agents.Requests.{Utterance, utterance_of, turn_request}

pub public_transcript-append :
    (a b : List Message) → public_transcript (a ++ b) ≡ public_transcript a ++ public_transcript b
unfolding public_transcript
public_transcript-append [] b = refl
public_transcript-append (x ∷ a) b = elim (Bool-cases (is_utterance x)) [
  | inl y ↦ rw y (ap (λ l. x ∷ l) (public_transcript-append a b))
  | inr n ↦ rw n (public_transcript-append a b)
]

pub utterance_alone :
    (content agent_id : String)
    → public_transcript (make_utterance content agent_id ∷ [])
      ≡ make_utterance content agent_id ∷ []
unfolding public_transcript is_utterance make_utterance get
utterance_alone content agent_id = refl

-- The utterance as the wire carries it.
pub heard : String → String → Utterance
heard content agent_id = record {
  speaker_id = or_text (some agent_id) "";
  display_name = "";
  title = "";
  content = content;
}

utterance_of-make :
    (content agent_id : String)
    → utterance_of (make_utterance content agent_id) ≡ heard content agent_id
unfolding make_utterance get heard
utterance_of-make content agent_id = refl

-- The transcript of a request, with what a node adds to the messages.
transcript-append :
    (messages added : List Message)
    → map utterance_of (public_transcript (messages ++ added))
      ≡ map utterance_of (public_transcript messages) ++ map utterance_of (public_transcript added)
transcript-append messages added =
    ap (map utterance_of) (public_transcript-append messages added)
    ∙ map-append utterance_of (public_transcript messages) (public_transcript added)

-- What a node that neither counts nor gives a reason leaves of the next request.
request-merge :
    (roles : Dict String RoleAgent) (next : String) (s : MeetingState) (u : Update)
    → turn_request next roles (merge s u) ≡ record (turn_request next roles s) {
      turn_key = turn_key s.meeting_id (merge s u).current_turn next;
      transcript =
          (turn_request next roles s).transcript ++ map utterance_of (public_transcript u.messages);
    }
unfolding turn_request merge
request-merge roles next s u = rw (transcript-append s.messages u.messages) refl

own-request :
    (roles : Dict String RoleAgent) (next agent_id : String) (s : MeetingState) (u : Update)
    (o : IsOwnUpdate agent_id u)
    → turn_request next roles (merge s u) ≡ record (turn_request next roles s) {
      transcript = (turn_request next roles s).transcript ++ heard o.content agent_id ∷ [];
    }
unfolding turn_request merge
own-request roles next agent_id s u o =
    let said : map utterance_of (public_transcript u.messages) ≡ heard o.content agent_id ∷ [] =
      ap (λ l. map utterance_of (public_transcript l)) o.said
      ∙ ap (map utterance_of) (utterance_alone o.content agent_id)
      ∙ ap (λ x. x ∷ []) (utterance_of-make o.content agent_id) in
    request-merge roles next s u ∙ rw (said, o.uncounted) refl

module _ (sdk : Sdk) (config : Config) (db : Database) (attendees : Dict String Role)
    (agent_id : String) (role : Role) (known : get agent_id attendees ≡ some role)
    (roles : Dict String RoleAgent) where
  -- Once an attendee's node has returned, on whatever path, the request for anyone's turn differs
  -- from the one before in a single utterance, attributed to the attendee, at the end of the
  -- transcript: the request carries nothing else of the turn. What the table holds for the turn's key is assumed to be an update of the attendee.
  pub turn_request-agent_node :
      (s : MeetingState) (pods : ℕ → Pod) (b : Backend) (u : Update) (next : String)
      → HoldsOwn agent_id (turn_key s.meeting_id s.current_turn agent_id) b.turns
      → (agent_node sdk config db attendees agent_id s pods b).0 ≡ returned u
      → (content : String) × (u.messages ≡ make_utterance content agent_id ∷ [])
        × (turn_request next roles (merge s u) ≡ record (turn_request next roles s) {
          transcript = (turn_request next roles s).transcript ++ heard content agent_id ∷ [];
        })
  turn_request-agent_node s pods b u next h e =
      let o = agent_node-IsOwnUpdate sdk config db attendees agent_id role known s pods b u h e in
      (o.content, o.said, own-request roles next agent_id s u o)

module _ (lower upper : String → String) (attendees : Dict String Role)
    (roles : Dict String RoleAgent) where
  -- A ruling of the chair changes nothing of the request for anyone's turn but the turn's number in
  -- its key: neither the chair's comments nor its reasons reach a persona.
  pub turn_request-supervise :
      (s : MeetingState) (outcome : ℕ → Outcome) (next : String)
      → let ruled = merge s (supervise lower upper attendees outcome s) in
        turn_request next roles ruled ≡ record (turn_request next roles s) {
          turn_key = turn_key s.meeting_id ruled.current_turn next;
        }
  unfolding turn_request merge
  turn_request-supervise s outcome next =
      let u = supervise lower upper attendees outcome s in
      let q = (supervise-IsRuling attendees s lower upper outcome).quiet in
      request-merge roles next s u
      ∙ rw (q, append-nil (map utterance_of (public_transcript s.messages))) refl
