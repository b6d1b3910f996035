-- ===== src/Runtime/Turn/Stream.antt =====
-- sandbox/runtime/runtime/agent.py against backend/app/orchestration/agents.py: what the sandbox
-- streams, as the backend reads it. An event on the wire that is no result and no error is progress.
use meetings.Prelude.{
  arith, String, ◌==◌, ◌≡◌, refl, Bool, false, not, ◌&&◌, Option, none, some, List, [], ◌∷◌, ◌++◌,
  map, ap, All, All-append, subst⁻¹, ◌∙◌, if_cases, if◌then◌else◌, or_text,
}
use meetings.Text.{is_some, after_prefix, contains, strip}
use meetings.Orchestration.Recovery.Thoughts.Spoken.{
  Passage, IsPlain, written, heard_aloud, split_thought-heard_aloud,
}
use meetings.Text.Replace.{lstrip_colon}
use meetings.Orchestration.Agents as Backend
use meetings.Orchestration.Agents.{read_stream, answered}
use meetings.Orchestration.Recovery.Thoughts.{as_text, split_thought, strip_speaker_prefix}
use meetings.Orchestration.Recovery.Thoughts.Public.{
  HidesThoughts, strip_speaker_prefix-HidesThoughts,
}
use meetings.Runtime.Turn.{
  ToolResult, TurnResult, TurnEvent, tool_call, tool_result, thought_delta, speech_delta,
  turn_result, Produced, ai, answer, other, Asked, call_of, Invoked, produced, BoundPersona,
  TurnRequest, result_of, tool_events, results_in, speech, spoken_text, final_result, yielded,
  run_persona_turn, system_prompt, history, denial, denied_prefix, no_comment, says_failed,
  with_speaker, thoughts,
}

-- ToolResult and TurnResult as the backend reads them.
unfoldable pub wire_tool_result : ToolResult → Backend.ToolResult
wire_tool_result r = record {
  name = r.name;
  is_ok = r.is_ok;
  denied_reason = r.denied_reason;
  duration_ms = 0;
}

unfoldable pub wire_result : TurnResult → Backend.TurnResult
unfolding wire_tool_result
wire_result r = record {
  turn_key = r.turn_key;
  public_content = r.public_content;
  private_reasoning = r.private_reasoning;
  tool_calls = map (λ c. c.name) r.tool_calls;
  tool_results = map wire_tool_result r.tool_results;
}

unfoldable pub wire : TurnEvent → Backend.TurnEvent
unfolding wire_result
wire (tool_call c) = Backend.progress c.name
wire (tool_result r) = Backend.progress r.name
wire (thought_delta t) = Backend.progress t
wire (speech_delta t) = Backend.progress t
wire (turn_result r) = Backend.turn_result (wire_result r)

-- An event that does not end the backend's reading.
IsProgress : TurnEvent → Type 0
IsProgress e = (t : String) × (wire e ≡ Backend.progress t)

read_stream_progress :
    (es rest : List TurnEvent) (breaks : Option String)
    → All IsProgress es
    → read_stream (map wire (es ++ rest)) breaks ≡ read_stream (map wire rest) breaks
unfolding read_stream IsProgress
read_stream_progress [] rest breaks h = refl
read_stream_progress (e ∷ es) rest breaks h = rw (h.0.1) (read_stream_progress es rest breaks h.1)

calls-IsProgress : (calls : List Asked) → All IsProgress (map (λ a. tool_call (call_of a)) calls)
unfolding IsProgress wire
calls-IsProgress [] = tt
calls-IsProgress (a ∷ calls) = ((_, refl), calls-IsProgress calls)

module _ (lower : String → String) where
  tool_events-IsProgress : (ms : List Produced) → All IsProgress (tool_events lower ms)
  unfolding tool_events IsProgress wire
  tool_events-IsProgress [] = tt
  tool_events-IsProgress (ai calls content usage ∷ ms) =
      All-append IsProgress (map (λ a. tool_call (call_of a)) calls) (tool_events lower ms)
        (calls-IsProgress calls) (tool_events-IsProgress ms)
  tool_events-IsProgress (answer id drawn name content ∷ ms) =
      ((_, refl), tool_events-IsProgress ms)
  tool_events-IsProgress (other ∷ ms) = tool_events-IsProgress ms

-- A denial of the cluster is never reported as a success.
abbrev pub IsHonest : ToolResult → Type 0
IsHonest r = (r.is_ok && is_some r.denied_reason) ≡ false

denied_honest :
    (o : Option String) (failed : Bool)
    → ((not (is_some o) && not failed)
        && is_some (elim o [ none ↦ none | some reason ↦ some (lstrip_colon reason) ]))
      ≡ false
denied_honest none failed = ground arith
denied_honest (some r) failed = refl

module _ (lower : String → String) where
  result_of-IsHonest :
      (id : Option String) (drawn : String) (name : Option String) (body : String)
      → IsHonest (result_of lower id drawn name body)
  unfolding result_of denial
  result_of-IsHonest id drawn name body =
      denied_honest (after_prefix denied_prefix body) (says_failed lower body)

  calls_results :
      (calls : List Asked) (es : List TurnEvent)
      → results_in (map (λ a. tool_call (call_of a)) calls ++ es) ≡ results_in es
  unfolding results_in
  calls_results [] es = refl
  calls_results (a ∷ calls) es = calls_results calls es

  results-IsHonest : (ms : List Produced) → All IsHonest (results_in (tool_events lower ms))
  unfolding tool_events results_in
  results-IsHonest [] = tt
  results-IsHonest (ai calls content usage ∷ ms) =
      subst⁻¹ (All IsHonest) (calls_results calls (tool_events lower ms)) (results-IsHonest ms)
  results-IsHonest (answer id drawn name content ∷ ms) =
      (result_of-IsHonest id drawn name (as_text content), results-IsHonest ms)
  results-IsHonest (other ∷ ms) = results-IsHonest ms

-- What a persona says: nothing private, and not nothing.
abbrev pub IsPublic : String → Type 0
IsPublic said = HidesThoughts said × ((said == "") ≡ false)

no_comment-IsPublic : IsPublic no_comment
unfolding contains after_prefix
no_comment-IsPublic = ((refl, refl), refl)

speech-IsPublic : (ms : List Produced) → IsPublic (speech ms).0
unfolding speech
speech-IsPublic ms =
    said (strip_speaker_prefix (split_thought (or_text (spoken_text ms) "")).0)
      (strip_speaker_prefix-HidesThoughts (or_text (spoken_text ms) ""))
  where
    said :
        (public : String)
        → HidesThoughts public
        → IsPublic (if public == "" then no_comment else public)
    said public h = if_cases IsPublic (public == "") (λ _. no_comment-IsPublic) (λ n. (h, n))

-- What a persona says of an answer of spoken and private passages: what is said aloud, without a tag
-- of the speaker in front and the blanks around it, or that there is no comment.
abbrev pub told_aloud : List Passage → String
told_aloud ps =
    let public = strip_speaker_prefix (strip (heard_aloud ps)) in
    if public == "" then no_comment else public

-- The text says nothing of the private passages, however the answer is made of passages.
abbrev pub IsAloud : List Produced → String → Type 0
IsAloud ms said =
    (ps : List Passage)
    → All IsPlain ps
    → or_text (spoken_text ms) "" ≡ written ps
    → said ≡ told_aloud ps

speech-IsAloud : (ms : List Produced) → IsAloud ms (speech ms).0
unfolding speech
speech-IsAloud ms ps h e =
    ap (λ t. or_comment (strip_speaker_prefix (split_thought t).0)) e
    ∙ ap (λ t. or_comment (strip_speaker_prefix t)) (split_thought-heard_aloud ps h)
  where
    or_comment : String → String
    or_comment public = if public == "" then no_comment else public

module _ (lower : String → String) (invoke : String → List String → Invoked) where
  thoughts_answered :
      (thought said : String) (r : TurnResult)
      → read_stream
          (map wire (thoughts lower invoke thought ++ (speech_delta said ∷ turn_result r ∷ [])))
          none
        ≡ answered (wire_result r)
  unfolding read_stream wire
  thoughts_answered thought said r =
      if_cases
        (λ es.
          read_stream (map wire (es ++ (speech_delta said ∷ turn_result r ∷ []))) none
          ≡ answered (wire_result r))
        (thought == "") (λ _. refl) (λ _. refl)

  pub yielded_answered :
      (b : BoundPersona) (key : String) (ms : List Produced)
      → read_stream (map wire (yielded lower invoke b key (produced ms)).0) none
        ≡ answered (wire_result (final_result lower invoke b key ms))
  unfolding yielded
  yielded_answered b key ms =
      read_stream_progress (tool_events lower ms) _ none (tool_events-IsProgress lower ms)
      ∙ thoughts_answered (speech ms).1 (speech ms).0 (final_result lower invoke b key ms)

  -- When the loop produces messages, what the backend reads from the stream is the turn's result,
  -- whatever the messages are: the stream never ends without one.
  pub run_persona_turn-read_stream :
      (b : BoundPersona) (request : TurnRequest) (ms : List Produced)
      → invoke (system_prompt b request) (history request) ≡ produced ms
      → let run = run_persona_turn lower invoke b request in
        read_stream (map wire run.0) run.1
        ≡ answered (wire_result (final_result lower invoke b request.turn_key ms))
  unfolding run_persona_turn
  run_persona_turn-read_stream b request ms e =
      subst⁻¹
        (λ i.
          read_stream (map wire (yielded lower invoke b request.turn_key i).0)
            (yielded lower invoke b request.turn_key i).1
          ≡ answered (wire_result (final_result lower invoke b request.turn_key ms)))
        e (yielded_answered b request.turn_key ms)

  -- Every message that the loop can produce: the turn's result attributes to the persona a text that
  -- is not empty and holds no opening tag of private reasoning. Where the loop's last answer is made
  -- of spoken passages and of private ones between <thought> and </thought>, none of which holds a
  -- "<", the text is what is said aloud. No tool result that the cluster denied is reported as a
  -- success.
  pub final_result-IsPublic :
      (b : BoundPersona) (key : String) (ms : List Produced)
      → ((said : String) × ((final_result lower invoke b key ms).public_content
            ≡ with_speaker b.persona said)
          × IsPublic said
          × IsAloud ms said)
        × All IsHonest (final_result lower invoke b key ms).tool_results
  unfolding final_result
  final_result-IsPublic b key ms =
      (((speech ms).0, refl, speech-IsPublic ms, speech-IsAloud ms), results-IsHonest lower ms)
