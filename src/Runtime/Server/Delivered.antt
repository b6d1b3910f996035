-- ===== src/Runtime/Server/Delivered.antt =====
-- A turn from the persona's loop (sandbox/runtime/runtime/agent.py) through the sandbox's server
-- (server.py) and the text of its stream to what the backend (backend/app/sandbox/client.py and
-- orchestration/agents.py) makes of it.
use mathlib.Core.List.{append-nil}
use mathlib.Core.Path.{ap₂}
use meetings.Prelude.{
  ℕ, String, ◌≡◌, refl, ap, ◌∙◌, subst⁻¹, Option, none, some, All, List, [], ◌∷◌, ◌++◌, map, arith,
}
use meetings.Text.{take_text}
use meetings.Orchestration.Agents.{TurnEvent, TurnResult, Issued, answered, errored, read_stream}
use meetings.Runtime.Cache.{Entries, cache_get}
use meetings.Runtime.Server.{
  Bound, RuntimeState, Served, conflict, streamed, ending, stream_events_all, serve_bound, run_turn,
  run_turn_bound,
}
use meetings.Runtime.Turn.{
  Invoked, raised, produced, BoundPersona, TurnRequest, system_prompt, history, run_persona_turn,
  final_result, yielded,
}
use meetings.Runtime.Turn.Stream.{wire, wire_result, yielded_answered}
use meetings.Sandbox.Client.{Json, Httpx, IsSent, Response, sse_body, stream_turn}
use meetings.Sandbox.Client.Streams.{stream_turn-sse_body}

-- The events that are streamed.
abbrev pub events_of : Served → List TurnEvent
events_of conflict = []
events_of (streamed es) = es

-- The response of the route: status 409, or the stream of the events.
unfoldable pub response_of : Json TurnEvent TurnEvent → Served → Response
response_of json conflict = record {
  status = 409;
  body = "No persona bound to this sandbox";
  breaks = none;
}
response_of json (streamed es) = record { status = 200; body = sse_body json es; breaks = none }

-- What a turn comes to for the backend: the result, or the loop's exception.
abbrev pub delivered :
    (String → String) → (String → List String → Invoked) → BoundPersona → String → Invoked → Issued
delivered lower invoke b key (raised e) = errored (take_text 500 e)
delivered lower invoke b key (produced ms) =
    answered (wire_result (final_result lower invoke b key ms))

bound_streams :
    (max : ℕ) (key : String) (es : List TurnEvent) (breaks : Option String) (s : RuntimeState)
    (q : Option TurnResult × Entries)
    → q.0 ≡ none
    → (serve_bound max key es breaks s q).0 ≡ streamed (es ++ ending breaks)
unfolding serve_bound
bound_streams max key es breaks s (none, c) h = ap streamed (stream_events_all max key es breaks c)
bound_streams max key es breaks s (some r, c) h = absurd (cc)

map_same :
    (f : TurnEvent → TurnEvent)
    → ((e : TurnEvent) → f e ≡ e)
    → (es : List TurnEvent) → map f es ≡ es
map_same f same [] = refl
map_same f same (e ∷ es) = ap₂ ◌∷◌ (same e) (map_same f same es)

-- What the backend reads of a stream is what was streamed.
read_served :
    (json : Json TurnEvent TurnEvent) (httpx : Httpx)
    → ((e : TurnEvent) → json.wire e ≡ e)
    → (served : Served) (es : List TurnEvent) → served ≡ streamed es
    → All (IsSent json httpx) (events_of served)
    → stream_turn json httpx (response_of json served) ≡ (es, none)
unfolding response_of
read_served json httpx same conflict es e lines = absurd (cc)
read_served json httpx same (streamed fs) es e lines =
    let kept : fs ≡ es = cc in
    stream_turn-sse_body json httpx 200 none fs (omega arith) (omega arith) lines
    ∙ ap (λ l. (l, none)) (map_same json.wire same fs ∙ kept)

module _ (lower : String → String) (invoke : String → List String → Invoked) where
  -- What the backend reads of all that the loop yields, the exception included.
  yielded-delivered :
      (b : BoundPersona) (key : String) (i : Invoked)
      → read_stream
          (map wire (yielded lower invoke b key i).0 ++ ending (yielded lower invoke b key i).1)
          none
        ≡ delivered lower invoke b key i
  unfolding yielded read_stream
  yielded-delivered b key (raised e) = refl
  yielded-delivered b key (produced ms) =
      subst⁻¹
        (λ es. read_stream es none ≡ answered (wire_result (final_result lower invoke b key ms)))
        (append-nil (map wire (yielded lower invoke b key (produced ms)).0))
        (yielded_answered lower invoke b key ms)

  -- A turn that a bound sandbox has not served yet, each event's JSON an object on one line
  -- that is read back as the event: whatever the loop does, the backend reads from the text of the response the turn's result, or the message of
  -- the loop's exception. The stream never ends without one of them.
  pub run_turn-read_stream :
      (json : Json TurnEvent TurnEvent) (httpx : Httpx) (max : ℕ) (b : BoundPersona)
      (request : TurnRequest) (s : RuntimeState) (p : Bound)
      → ((e : TurnEvent) → json.wire e ≡ e)
      → s.persona ≡ some p
      → (cache_get request.turn_key s.cache).0 ≡ none
      → let run = run_persona_turn lower invoke b request in
        let served = (run_turn max request.turn_key (map wire run.0) run.1 s).0 in
        All (IsSent json httpx) (events_of served)
        → let read = stream_turn json httpx (response_of json served) in
          read_stream read.0 read.1
          ≡ delivered lower invoke b request.turn_key
              (invoke (system_prompt b request) (history request))
  unfolding run_persona_turn
  run_turn-read_stream json httpx max b request s p same e h lines =
      let run = run_persona_turn lower invoke b request in
      let served = (run_turn max request.turn_key (map wire run.0) run.1 s).0 in
      let all_streamed : served ≡ streamed (map wire run.0 ++ ending run.1) =
        ap (λ r. r.0) (run_turn_bound max request.turn_key (map wire run.0) run.1 s p e)
        ∙ bound_streams max request.turn_key (map wire run.0) run.1 s
            (cache_get request.turn_key s.cache) h in
      ap (λ r. read_stream r.0 r.1)
        (read_served json httpx same served (map wire run.0 ++ ending run.1) all_streamed lines)
      ∙ yielded-delivered b request.turn_key (invoke (system_prompt b request) (history request))
