-- ===== src/Runtime/Turn/Published.antt =====
-- From the persona's loop in the sandbox (agent.py) to the transcript (agents.py): what an attendee's
-- turn says in public, where its sandboxes stream what the loop yields.
use meetings.Prelude.{
  ℕ, String, ◌≡◌, refl, ◌⊎◌, inl, inr, Option, none, some, List, [], ◌∷◌, map, if_cases, subst⁻¹,
}
use meetings.Orchestration.State.{Role, make_utterance, Update}
use meetings.Orchestration.TurnCache.{Database}
use meetings.Sandbox.Leases.{
  Handle, Sdk, Config, World, Acquired, handle_of, unavailable, needs_bind, mark_bound,
}
use meetings.Orchestration.Agents.{
  Issued, answered, errored, lost, ended, Pod, success_state, failure_state, unable, Backend,
  read_stream, issue, settle_turn, with_sandbox, attempt_turn, take_turn,
}
use meetings.Runtime.Turn.{
  Invoked, raised, Produced, produced, BoundPersona, TurnRequest, yielded, run_persona_turn,
  with_speaker, system_prompt, history, final_result,
}
use meetings.Runtime.Turn.Stream.{
  wire, wire_result, IsPublic, yielded_answered, final_result-IsPublic, IsAloud,
}

-- A text of the persona: its name, its title, and what it says of the messages that the loop produces
-- for a request.
pub record IsSaidBy (invoke : String → List String → Invoked) (b : BoundPersona) (content : String)
    : Type 0 where
  pub request : TurnRequest
  pub messages : List Produced
  pub answered_with : invoke (system_prompt b request) (history request) ≡ produced messages
  pub said : String
  pub named : content ≡ with_speaker b.persona said
  pub public : IsPublic said
  pub spoken : IsAloud messages said

-- One utterance of the attendee: what its persona says, or that it is unable to contribute.
pub record IsPublished (invoke : String → List String → Invoked) (b : BoundPersona) (role : Role)
    (agent_id : String) (u : Update) : Type 0 where
  pub content : String
  pub uttered : u.messages ≡ make_utterance content agent_id ∷ []
  pub origin : (content ≡ unable role) ⊎ IsSaidBy invoke b content

IsHonestIssue : (String → List String → Invoked) → BoundPersona → Issued → Type 0
IsHonestIssue invoke b (answered r) = IsSaidBy invoke b r.public_content
IsHonestIssue invoke b _ = Unit

module _ (lower : String → String) (invoke : String → List String → Invoked)
    (b : BoundPersona) where
  -- The sandbox streams a turn of the persona.
  pub record IsPersonaPod (pod : Pod) : Type 0 where
    pub request : TurnRequest
    pub streams : pod.events ≡ map wire (run_persona_turn lower invoke b request).0
    pub breaks_off : pod.breaks ≡ (run_persona_turn lower invoke b request).1

  yielded_honest :
      (request : TurnRequest) (key : String) (i : Invoked)
      → invoke (system_prompt b request) (history request) ≡ i
      → IsHonestIssue invoke b
          (read_stream (map wire (yielded lower invoke b key i).0) (yielded lower invoke b key i).1)
  unfolding IsHonestIssue yielded read_stream final_result wire_result
  yielded_honest request key (raised e) h = tt
  yielded_honest request key (produced ms) h =
      let (said, named, public, spoken) = (final_result-IsPublic lower invoke b key ms).0 in
      subst⁻¹ (IsHonestIssue invoke b) (yielded_answered lower invoke b key ms) (record {
        request = request;
        messages = ms;
        answered_with = h;
        said = said;
        named = named;
        public = public;
        spoken = spoken;
      })

  pod_honest :
      (pod : Pod) → IsPersonaPod pod → IsHonestIssue invoke b (read_stream pod.events pod.breaks)
  unfolding run_persona_turn
  pod_honest pod h =
      subst⁻¹ (λ es. IsHonestIssue invoke b (read_stream es pod.breaks)) h.streams
        (subst⁻¹
          (λ o.
            IsHonestIssue invoke b
              (read_stream (map wire (run_persona_turn lower invoke b h.request).0) o))
          h.breaks_off
          (yielded_honest h.request h.request.turn_key
            (invoke (system_prompt b h.request) (history h.request)) refl))

bound_cases :
    (P : Issued × World → Type 0) (o : Option String) (w v : World) (r : Issued)
    → ((e : String) → P (lost e, w))
    → P (r, v)
    → P (elim o [ some e ↦ (lost e, w) | none ↦ (r, v) ])
bound_cases P none w v r f p = p
bound_cases P (some e) w v r f p = f e

module _ (lower : String → String) (invoke : String → List String → Invoked) (b : BoundPersona)
    (sdk : Sdk) (config : Config) (db : Database) (agent_id : String) (role : Role)
    (meeting_id : String) where
  IsHonestRun : Issued × World → Type 0
  IsHonestRun r = IsHonestIssue invoke b r.0

  issue_honest :
      (pod : Pod) (w : World)
      → IsPersonaPod lower invoke b pod
      → IsHonestRun (issue sdk config db agent_id role meeting_id pod w)
  unfolding issue IsHonestRun IsHonestIssue
  issue_honest pod w h =
      if_cases IsHonestRun (needs_bind sdk config meeting_id agent_id w)
        (λ _.
          bound_cases IsHonestRun pod.bind_fails w (mark_bound sdk config meeting_id agent_id w)
            (read_stream pod.events pod.breaks) (λ e. tt) (pod_honest lower invoke b pod h))
        (λ _. pod_honest lower invoke b pod h)

  abbrev Again : Type 0
  Again = Option (String → Backend → Update × Backend)

  PublishesAgain : Again → Type 0
  PublishesAgain none = Unit
  PublishesAgain (some again) =
      (e : String) (c : Backend) → IsPublished invoke b role agent_id (again e c).0

  failure-IsPublished :
      (e : String) → IsPublished invoke b role agent_id (failure_state agent_id role e)
  unfolding failure_state
  failure-IsPublished e = record { content = unable role; uttered = refl; origin = inl refl }

  settle-IsPublished :
      (key last : String) (h : Handle) (i : Issued) (c : Backend) (again : Again)
      → IsHonestIssue invoke b i
      → PublishesAgain again
      → IsPublished invoke b role agent_id
          (settle_turn sdk config db agent_id role meeting_id key last h i c again).0
  unfolding settle_turn IsHonestIssue PublishesAgain success_state
  settle-IsPublished key last h (answered r) c again i g = record {
    content = r.public_content;
    uttered = refl;
    origin = inr i;
  }
  settle-IsPublished key last h (errored e) c again i g = failure-IsPublished e
  settle-IsPublished key last h ended c again i g = failure-IsPublished last
  settle-IsPublished key last h (lost e) c none i g = failure-IsPublished e
  settle-IsPublished key last h (lost e) c (some again) i g = g e _

  with_sandbox-IsPublished :
      (key last : String) (pod : Pod) (c : Backend) (again : Again) (a : Acquired × World)
      → IsPersonaPod lower invoke b pod
      → PublishesAgain again
      → IsPublished invoke b role agent_id
          (with_sandbox sdk config db agent_id role meeting_id key last pod c again a).0
  unfolding with_sandbox IsHonestRun
  with_sandbox-IsPublished key last pod c again (unavailable e, w) h g = failure-IsPublished _
  with_sandbox-IsPublished key last pod c again (handle_of k, w) h g =
      settle-IsPublished key last k _ _ again (issue_honest pod w h) g

  -- An attendee's turn whose sandboxes stream what the persona's loop yields, whatever the loop does,
  -- on every path: it says in public either that the attendee is unable to contribute, or the
  -- persona's name and title and a text that is not empty and holds no opening tag of private
  -- reasoning; where the loop's last answer is made of spoken passages and of private ones between
  -- <thought> and </thought>, none of which holds a "<", that text is what is said aloud.
  pub take_turn-IsPublished :
      (key profile : String) (pods : ℕ → Pod) (c : Backend)
      → ((n : ℕ) → IsPersonaPod lower invoke b (pods n))
      → IsPublished invoke b role agent_id
          (take_turn sdk config db agent_id role meeting_id key profile pods c).0
  unfolding take_turn attempt_turn PublishesAgain
  take_turn-IsPublished key profile pods c h =
      with_sandbox-IsPublished key _ (pods 0) c _ _ (h 0)
        (λ e d. with_sandbox-IsPublished key e (pods 1) d none _ (h 1) tt)
