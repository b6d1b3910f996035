-- ===== src/Orchestration/State.antt =====
-- backend/app/orchestration/state.py: messages, the meeting's graph state, and how a node's partial
-- update is merged into it. Roles are the columns of models/roles.py that orchestration reads.
-- Turn counts are natural numbers. An absent list or dict of an update is the empty one, which the
-- reducers treat alike.
use meetings.Prelude.{
  ℕ, String, ◌==◌, Bool, true, false, ◌&&◌, Option, none, some, List, [], ◌∷◌, ◌++◌, filter,
}
use meetings.Dict.{Dict, get, put, string_eq}

pub record Role : Type 0 where
  pub display_name : String
  pub title : String
  pub department : String
  pub default_tools : Option (List String)

-- A BaseMessage: whether it is an AIMessage, and its additional_kwargs.
pub record Message : Type 0 where
  pub is_ai : Bool
  pub content : String
  pub kwargs : Dict String String

abbrev pub utterance_kind : String
utterance_kind = "utterance"

unfoldable pub make_utterance : String → String → Message
make_utterance content agent_id = record {
  is_ai = true;
  content = content;
  kwargs = ("kind", utterance_kind) ∷ ("agent_id", agent_id) ∷ [];
}

-- AIMessage(content=content)
abbrev pub ai_message : String → Message
ai_message content = record { is_ai = true; content = content; kwargs = [] }

abbrev pub is_text : Option String → String → Bool
is_text none s = false
is_text (some t) s = t == s

unfoldable pub is_utterance : Message → Bool
is_utterance m = m.is_ai && is_text (get "kind" m.kwargs) utterance_kind

unfoldable pub public_transcript : List Message → List Message
public_transcript messages = filter is_utterance messages

-- An entry of event_log, with the keys that its type has.
pub record Event : Type 0 where
  pub type : String
  pub agent_id : String
  pub content : String
  pub reasoning : Option String
  pub private_reasoning : Option String
  pub is_conclusion : Bool
  pub sandbox : Option String
  pub tool_calls : List String

pub record Audit : Type 0 where
  pub turn_key : Option String
  pub agent_id : String
  pub tool : Option String
  pub is_ok : Bool
  pub denied_reason : Option String
  pub duration_ms : ℕ
  pub error : Option String

-- A node's return value. `reasoning` is no channel of the state: it reaches the event stream only.
pub record Update : Type 0 where
  pub next_speaker : Option String
  pub current_turn : Option ℕ
  pub reasoning : Option String
  pub messages : List Message
  pub event_log : List Event
  pub tool_audit : List Audit
  pub sandboxes : Dict String String
  pub active_agent_id : Option String
  pub final_summary : Option (Option String)

abbrev pub no_update : Update
no_update = record {
  next_speaker = none;
  current_turn = none;
  reasoning = none;
  messages = [];
  event_log = [];
  tool_audit = [];
  sandboxes = [];
  active_agent_id = none;
  final_summary = none;
}

pub record MeetingState : Type 0 where
  pub meeting_id : String
  pub brief : String
  pub agenda : String
  pub objective : String
  pub expectations : String
  pub turn_limit : ℕ
  pub current_turn : ℕ
  pub messages : List Message
  pub event_log : List Event
  pub tool_audit : List Audit
  pub sandboxes : Dict String String
  pub active_agent_id : Option String
  pub stop_requested : Bool
  pub terminated : Bool
  pub final_summary : Option String
  pub next_speaker : Option String
  pub next_speaker_reason : Option String

unfoldable pub merge_list {ℓ} : {A : Type ℓ} → List A → List A → List A
merge_list [] b = b
merge_list (x ∷ a) [] = x ∷ a
merge_list (x ∷ a) (y ∷ b) = (x ∷ a) ++ (y ∷ b)

-- {**a, **b}
unfoldable pub last_write_wins : Dict String String → Dict String String → Dict String String
last_write_wins a [] = a
last_write_wins a ((k, v) ∷ b) = last_write_wins (put k v a) b

abbrev or_keep {ℓ} : {A : Type ℓ} → Option A → A → A
or_keep none a = a
or_keep (some b) a = b

abbrev or_keep_some {ℓ} : {A : Type ℓ} → Option A → Option A → Option A
or_keep_some none a = a
or_keep_some (some b) a = some b

-- The reducers of the annotated channels; the other channels take the last value written.
unfoldable pub merge : MeetingState → Update → MeetingState
unfolding merge_list last_write_wins
merge s u = record s {
  current_turn = or_keep u.current_turn s.current_turn;
  messages = s.messages ++ u.messages;
  event_log = merge_list s.event_log u.event_log;
  tool_audit = merge_list s.tool_audit u.tool_audit;
  sandboxes = last_write_wins s.sandboxes u.sandboxes;
  active_agent_id = or_keep_some u.active_agent_id s.active_agent_id;
  final_summary = or_keep u.final_summary s.final_summary;
  next_speaker = or_keep_some u.next_speaker s.next_speaker;
}
