-- ===== src/Orchestration/TurnCache.antt =====
-- backend/app/services/turn_cache.py, with _serialisable of backend/app/orchestration/agents.py: the
-- durable table of completed turns. The database is a parameter: whether there is a session maker,
-- whether reading works, and whether writing works.
pub mod Lookup
use meetings.Prelude.{
  ℕ, String, Bool, true, false, not, ◌&&◌, Option, none, some, List, [], ◌∷◌, map, if◌then◌else◌,
  ◌≡◌, refl,
}
use meetings.Dict.{Dict, get, put, has_key, string_eq}
use meetings.Orchestration.State.{Message, make_utterance, Update}

pub record Database : Type 0 where
  pub connected : Bool
  pub reads : Bool
  pub writes : Bool

-- An entry of `_utterances`.
pub record Spoken : Type 0 where
  pub content : String
  pub agent_id : String

-- result_json: the update without its messages, and what was said.
pub record Stored : Type 0 where
  pub rest : Update
  pub utterances : List Spoken

abbrev pub Table : Type 0
Table = Dict String Stored

-- str(additional_kwargs.get("agent_id", ""))
said_by : Message → String
said_by m = elim (get "agent_id" m.kwargs) [ none ↦ "" | some a ↦ a ]

-- _serialisable
unfoldable pub serialisable : Update → Stored
unfolding said_by
serialisable u = record {
  rest = record u { messages = [] };
  utterances = map (λ m. record { content = m.content; agent_id = said_by m }) u.messages;
}

-- _rehydrate
unfoldable pub rehydrate : Stored → Update
rehydrate stored = record stored.rest {
  messages = map (λ u. make_utterance u.content u.agent_id) stored.utterances;
}

found : Option Stored → Option Update
found none = none
found (some stored) = some (rehydrate stored)

unfoldable pub lookup : Database → String → Table → Option Update
unfolding found
lookup db turn_key table = if db.connected && db.reads then found (get turn_key table) else none

-- on_conflict_do_nothing
unfoldable pub record_turn : Database → String → Stored → Table → Table
record_turn db turn_key payload table =
    if db.connected && db.writes && not (has_key turn_key table)
    then put turn_key payload table
    else table
