-- ===== src/Runtime/Tests.antt =====
-- Examples of the sandbox's server (sandbox/runtime/runtime).
use meetings.Prelude.{◌≡◌, refl, none, some, List, [], ◌∷◌, ◌++◌, arith}
use meetings.Dict.{get, string_eq}
use meetings.Orchestration.Agents.{TurnResult, TurnEvent, turn_result, progress}
use meetings.Runtime.Cache.{cache_get, max_entries}
use meetings.Runtime.Server.{
  Bound, RuntimeState, streamed, run_turn, last_result, ending, run_turn-run_turn,
}

abbrev result : TurnResult
result = record {
  turn_key = "m:0:a";
  public_content = "Hello";
  private_reasoning = "";
  tool_calls = [];
  tool_results = [];
}

abbrev bound : Bound
bound = record { agent_id = "a"; active_tools = []; refused_tools = [] }

abbrev served : RuntimeState
served = record { persona = some bound; cache = ("m:0:a", result) ∷ [] }

abbrev fresh : RuntimeState
fresh = record { persona = some bound; cache = [] }

empty_get : (cache_get "m:0:a" []).0 ≡ none
unfolding cache_get get
empty_get = refl

abbrev nothing_yielded : List TurnEvent
nothing_yielded = []

abbrev thought_then_broken : List TurnEvent
thought_then_broken = progress "thinking" ∷ progress "a tool" ∷ turn_result result ∷ []

run_turn-run_turn_example :
    let first = run_turn max_entries "m:0:a" thought_then_broken (some "boom") fresh in
    (first.0 ≡ streamed (thought_then_broken ++ ending (some "boom")))
    × ((r : TurnResult)
        → last_result thought_then_broken ≡ some r
        → (run_turn max_entries "m:0:a" nothing_yielded none first.1).0
          ≡ streamed (turn_result r ∷ []))
run_turn-run_turn_example =
    run_turn-run_turn max_entries "m:0:a" thought_then_broken nothing_yielded (some "boom") none
      fresh bound (ground arith) refl empty_get
