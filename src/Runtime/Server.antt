-- ===== src/Runtime/Server.antt =====
-- sandbox/runtime/runtime/server.py: binding a persona, and serving a turn once. What the persona's
-- loop (agent.py) yields is a parameter of the turn: its events, and the exception that ends them.
pub mod Delivered
use meetings.Prelude.{
  ℕ, ◌≤◌, String, ◌≡◌, refl, ap, ◌∙◌, ◌++◌, Option-cases, inl, inr, ◌==◌, Bool, false, not, Option,
  none, some, List, [], ◌∷◌, if◌then◌else◌, arith,
}
use meetings.Dict.{get, string_eq}
use meetings.Text.{take_text}
use meetings.Orchestration.Agents.{TurnResult, TurnEvent, turn_error, turn_result, progress}
use meetings.Runtime.Capabilities.{resolve_grant}
use meetings.Runtime.Cache.{Entries, cache_get, cache_put, cache_get-cache_put}

-- BoundPersona, as the server reads it
pub record Bound : Type 0 where
  pub agent_id : String
  pub active_tools : List String
  pub refused_tools : List String

-- RuntimeState
pub record RuntimeState : Type 0 where
  pub persona : Option Bound
  pub cache : Entries

is_rebound : Option Bound → String → Bool
is_rebound none agent_id = false
is_rebound (some p) agent_id = not (p.agent_id == agent_id)

-- bind_persona, in a sandbox that allows the tools
unfoldable pub bind_persona : List String → String → List String → RuntimeState → RuntimeState
unfolding is_rebound
bind_persona allowed agent_id granted_tools s =
    let (active, refused) = resolve_grant allowed granted_tools in
    record {
      persona =
          some (record { agent_id = agent_id; active_tools = active; refused_tools = refused });
      cache = if is_rebound s.persona agent_id then [] else s.cache;
    }

-- What a request for a turn gets: status 409, or the events of the stream.
pub data Served : Type 0 where
  conflict : Served
  streamed : List TurnEvent → Served

abbrev pub ending : Option String → List TurnEvent
ending none = []
ending (some e) = turn_error (take_text 500 e) ∷ []

-- The events of the loop, each result put into the cache as it passes.
pub stream_events : ℕ → String → List TurnEvent → Option String → Entries → List TurnEvent × Entries
stream_events max key [] breaks cache = (ending breaks, cache)
stream_events max key (turn_result r ∷ events) breaks cache =
    let rest = stream_events max key events breaks (cache_put max key r cache) in
    (turn_result r ∷ rest.0, rest.1)
stream_events max key (turn_error e ∷ events) breaks cache =
    let rest = stream_events max key events breaks cache in (turn_error e ∷ rest.0, rest.1)
stream_events max key (progress t ∷ events) breaks cache =
    let rest = stream_events max key events breaks cache in (progress t ∷ rest.0, rest.1)

-- run_turn
serve_bound :
    ℕ
    → String
    → List TurnEvent
    → Option String
    → RuntimeState
    → Option TurnResult × Entries
    → Served × RuntimeState
unfolding stream_events
serve_bound max key events breaks s (some r, cache) =
    (streamed (turn_result r ∷ []), record s { cache = cache })
serve_bound max key events breaks s (none, cache) =
    let run = stream_events max key events breaks cache in
    (streamed run.0, record s { cache = run.1 })

unfoldable pub run_turn :
    ℕ → String → List TurnEvent → Option String → RuntimeState → Served × RuntimeState
unfolding serve_bound
run_turn max key events breaks s = elim s.persona [
  | none ↦ (conflict, s)
  | some p ↦ serve_bound max key events breaks s (cache_get key s.cache)
]

-- A sandbox that is bound to another persona than before forgets every turn it has served, so that
-- the new persona's turns are never answered with the old one's.
pub bind_persona-get :
    (allowed granted_tools : List String) (agent_id key : String) (p : Bound) (s : RuntimeState)
    → s.persona ≡ some p
    → (p.agent_id == agent_id) ≡ false
    → (cache_get key (bind_persona allowed agent_id granted_tools s).cache).0 ≡ none
unfolding bind_persona is_rebound cache_get get
bind_persona-get allowed granted_tools agent_id key p s e n = rw (e, n) refl

bound-cached :
    (max : ℕ) (key : String) (r : TurnResult) (others : List TurnEvent) (broken : Option String)
    (s : RuntimeState) (q : Option TurnResult × Entries)
    → q.0 ≡ some r
    → (serve_bound max key others broken s q).0 ≡ streamed (turn_result r ∷ [])
unfolding serve_bound
bound-cached max key r others broken s (some x, c) h = ground (arith, h)
bound-cached max key r others broken s (none, c) h = absurd (cc)

serve-cached :
    (max : ℕ) (key : String) (r : TurnResult) (others : List TurnEvent) (broken : Option String)
    (s : RuntimeState) (p : Bound)
    → s.persona ≡ some p
    → (cache_get key s.cache).0 ≡ some r
    → (run_turn max key others broken s).0 ≡ streamed (turn_result r ∷ [])
unfolding run_turn
serve-cached max key r others broken s p e h =
    rw (run_turn, e) (bound-cached max key r others broken s (cache_get key s.cache) h)

run_turn_bound :
    (max : ℕ) (key : String) (events : List TurnEvent) (breaks : Option String) (s : RuntimeState)
    (p : Bound)
    → s.persona ≡ some p
    → run_turn max key events breaks s ≡ serve_bound max key events breaks s (cache_get key s.cache)
unfolding run_turn
run_turn_bound max key events breaks s p e = ground (arith, e)

-- The last result among the events.
unfoldable pub last_result : List TurnEvent → Option TurnResult
last_result [] = none
last_result (turn_result r ∷ events) = elim (last_result events) [ some x ↦ some x | none ↦ some r ]
last_result (turn_error e ∷ events) = last_result events
last_result (progress t ∷ events) = last_result events

-- The server passes every event on.
pub stream_events_all :
    (max : ℕ) (key : String) (events : List TurnEvent) (breaks : Option String) (cache : Entries)
    → (stream_events max key events breaks cache).0 ≡ events ++ ending breaks
unfolding stream_events
stream_events_all max key [] breaks cache = refl
stream_events_all max key (turn_result r ∷ events) breaks cache =
    ap (λ es. turn_result r ∷ es)
      (stream_events_all max key events breaks (cache_put max key r cache))
stream_events_all max key (turn_error e ∷ events) breaks cache =
    ap (λ es. turn_error e ∷ es) (stream_events_all max key events breaks cache)
stream_events_all max key (progress t ∷ events) breaks cache =
    ap (λ es. progress t ∷ es) (stream_events_all max key events breaks cache)

-- A stream without a result leaves the cache as it is.
stream_events_kept :
    (max : ℕ) (key : String) (events : List TurnEvent) (breaks : Option String) (cache : Entries)
    → last_result events ≡ none
    → (stream_events max key events breaks cache).1 ≡ cache
unfolding stream_events last_result
stream_events_kept max key [] breaks cache h = refl
stream_events_kept max key (turn_result r ∷ events) breaks cache h =
    elim (Option-cases (last_result events)) [
      | inl n ↦ absurd (ground (arith, h, n))
      | inr (x, e) ↦ absurd (ground (arith, h, e))
    ]
stream_events_kept max key (turn_error e ∷ events) breaks cache h =
    stream_events_kept max key events breaks cache h
stream_events_kept max key (progress t ∷ events) breaks cache h =
    stream_events_kept max key events breaks cache h

-- The last result of a stream is what the cache holds after it.
stream_events-get :
    (max : ℕ) (key : String) (r : TurnResult) (events : List TurnEvent) (breaks : Option String)
    (cache : Entries)
    → 1 ≤ max
    → last_result events ≡ some r
    → (cache_get key (stream_events max key events breaks cache).1).0 ≡ some r
unfolding stream_events last_result
stream_events-get max key r [] breaks cache m h = absurd (cc)
stream_events-get max key r (turn_result x ∷ events) breaks cache m h =
    elim (Option-cases (last_result events)) [
      | inl n ↦
          ap (λ c. (cache_get key c).0)
            (stream_events_kept max key events breaks (cache_put max key x cache) n)
          ∙ cache_get-cache_put max key x cache m
          ∙ ground (arith, h, n)
      | inr (y, e) ↦
          stream_events-get max key r events breaks (cache_put max key x cache) m
            (ground (arith, h, e))
    ]
stream_events-get max key r (turn_error e ∷ events) breaks cache m h =
    stream_events-get max key r events breaks cache m h
stream_events-get max key r (progress t ∷ events) breaks cache m h =
    stream_events-get max key r events breaks cache m h

bound-fresh :
    (max : ℕ) (key : String) (events : List TurnEvent) (breaks : Option String) (s : RuntimeState)
    (q : Option TurnResult × Entries)
    → q.0 ≡ none
    → serve_bound max key events breaks s q ≡ (
      streamed (stream_events max key events breaks q.1).0,
      record s { cache = (stream_events max key events breaks q.1).1 },
    )
unfolding serve_bound
bound-fresh max key events breaks s (none, c) h = refl
bound-fresh max key events breaks s (some x, c) h = absurd (cc)

-- A bound sandbox with room in its cache, which has not served the turn yet, and a loop that yields
-- whatever events and may end in an exception: the request streams exactly these events and an error
-- for the exception. If there is a result among them, a second request for the turn streams the last
-- one alone, whatever the persona's loop would yield then.
pub run_turn-run_turn :
    (max : ℕ) (key : String) (events others : List TurnEvent) (breaks broken : Option String)
    (s : RuntimeState) (p : Bound)
    → 1 ≤ max
    → s.persona ≡ some p
    → (cache_get key s.cache).0 ≡ none
    → let first = run_turn max key events breaks s in
      (first.0 ≡ streamed (events ++ ending breaks))
      × ((r : TurnResult)
          → last_result events ≡ some r
          → (run_turn max key others broken first.1).0 ≡ streamed (turn_result r ∷ []))
run_turn-run_turn max key events others breaks broken s p m e h =
    let c = (cache_get key s.cache).1 in
    let run = stream_events max key events breaks c in
    rw
      (run_turn_bound max key events breaks s p e
        ∙ bound-fresh max key events breaks s (cache_get key s.cache) h)
      (
        ap streamed (stream_events_all max key events breaks c),
        λ r l.
            serve-cached max key r others broken (record s { cache = run.1 }) p e
              (stream_events-get max key r events breaks c m l),
      )
