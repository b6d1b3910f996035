-- ===== src/Orchestration/Supervisor.antt =====
-- backend/app/orchestration/supervisor.py: the chair. One call of `supervisor_node` makes at most
-- three attempts, each a ladder of model calls (llm_call.py). The model is a parameter: what it
-- replies, by attempt, number of calls made in the attempt, and token budget. What it is asked stands
-- in Prompt.
pub mod Rulings
pub mod Fallback
pub mod Prompt
mod Tests
use Prim.Native.String.{◌++◌ as text_append}
use meetings.Prelude.{
  ℕ, zero, suc, ◌+◌, String, ◌==◌, Bool, true, false, not, ◌&&◌, ◌||◌, Option, none, some, List, [],
  ◌∷◌, ◌++◌, map, elem, leb, ltb, if◌then◌else◌,
}
use meetings.Dict.{Dict, get, string_eq}
use meetings.Text.{strip, take_text, decimal}
use meetings.Orchestration.State.{Role, Message, ai_message, Event, Update, no_update, MeetingState}
use meetings.Orchestration.LlmCall.{
  Value, Fields, ToolCall, Reply, Outcome, value_text, failure_reason, structured_call,
  default_strategies, is_some,
}
use meetings.Orchestration.Recovery.{finish, recover_speaker_id, salvage_decision}

-- The keys of the attendee dict, in order.
abbrev pub ids : Dict String Role → List String
ids attendees = map (λ e. e.0) attendees

-- str(m.additional_kwargs.get("agent_id", "")) of each message that has additional_kwargs
unfoldable pub spoken : List Message → List String
spoken [] = []
spoken (m ∷ messages) = elim m.kwargs [
  | [] ↦ spoken messages
  | _ ∷ _ ↦ elim (get "agent_id" m.kwargs) [
    | none ↦ "" ∷ spoken messages
    | some a ↦ a ∷ spoken messages
  ]
]

first_not_in : List String → List String → Option String
first_not_in heard [] = none
first_not_in heard (a ∷ rest) =
    let later = first_not_in heard rest in if elem a heard then later else some a

-- _first_unheard
unfoldable pub first_unheard : MeetingState → Dict String Role → Option String
unfolding first_not_in spoken
first_unheard s attendees = first_not_in (spoken s.messages) (ids attendees)

abbrev spoke : String → String → Bool → Event
spoke content reason conclusion = record {
  type = "supervisor_spoke";
  agent_id = "supervisor";
  content = content;
  reasoning = some reason;
  private_reasoning = some reason;
  is_conclusion = conclusion;
  sandbox = none;
  tool_calls = [];
}

-- The update of a conclusion that quotes no decision of the model.
conclude : String → List Message → String → Update
conclude content messages reason = record no_update {
  next_speaker = some finish;
  reasoning = some reason;
  messages = messages;
  event_log = spoke content reason true ∷ [];
  final_summary = some (some reason);
}

-- "1. Termination Checks"
concluded : MeetingState → Bool → Update
unfolding conclude
concluded s by_user =
    let content : String = "[Supervisor] Concluded the meeting." in
    conclude content (ai_message content ∷ []) (
      if by_user
      then "Meeting terminated by user request."
      else text_append (text_append "Meeting reached turn limit (" (decimal s.turn_limit)) ").")

degrade_note : String → String
degrade_note error =
    text_append
      (text_append "The chair could not reach a decision this turn (" (take_text 160 error))
      "); continuing with an attendee who has not spoken."

-- _degrade_to_unheard, with an attendee found
degraded : MeetingState → String → String → Update
unfolding degrade_note
degraded s error unheard =
    let content : String = "[Supervisor] Selected next speaker." in
    let note = degrade_note error in
    record no_update {
      next_speaker = some unheard;
      current_turn = some (s.current_turn + 1);
      reasoning = some note;
      messages = ai_message content ∷ [];
      event_log =
          spoke content note false
          ∷ record {
            type = "supervisor_selected_next_agent";
            agent_id = "supervisor";
            content = unheard;
            reasoning = none;
            private_reasoning = none;
            is_conclusion = false;
            sandbox = none;
            tool_calls = [];
          }
          ∷ [];
    }

-- The final fallback of the last attempt.
failed : MeetingState → Dict String Role → String → Update
unfolding degraded conclude
failed s attendees error = elim (first_unheard s attendees) [
  | some unheard ↦ degraded s error unheard
  | none ↦ conclude "[Supervisor] System Error Encountered." [] (
      text_append (text_append "Supervisor encountered a technical error: " error)
        ". Meeting concluded for safety.")
]

-- The update of a decision.
chosen : MeetingState → String → String → Update
chosen s next reason =
    let is_finish = next == finish in
    let detail =
      if is_finish then "Concluded the meeting." else text_append "Selected next speaker: " next in
    let content = text_append "[Supervisor] " detail in
    record no_update {
      next_speaker = some next;
      current_turn = some (s.current_turn + 1);
      reasoning = some reason;
      messages = ai_message content ∷ [];
      event_log = spoke content reason is_finish ∷ [];
      final_summary = some (if is_finish then some reason else none);
    }

-- An attempt ends in an update, or goes on to the next attempt.
pub data Turn : Type 0 where
  retry : Turn
  done : Update → Turn

-- `or "FINISH"`: the id of an attendee is never empty.
abbrev or_finish : Option String → String
or_finish none = finish
or_finish (some a) = a

-- What the node raises before its first attempt: building the model's client or the prompt templates,
-- which stands outside the try, may raise, and does for a brief with an unbalanced brace. What is
-- built depends on the settings, the attendees, the brief and the expectations, which no node
-- changes. A node that concludes builds nothing.
unfoldable pub unprepared : Option String → MeetingState → Option String
unprepared failure s =
    if s.stop_requested || s.terminated || leb s.turn_limit s.current_turn then none else failure

module _ (lower upper : String → String) (attendees : Dict String Role) where
  -- list(attendees.keys()) + ["FINISH"]
  abbrev pub valid_ids : List String
  valid_ids = ids attendees ++ finish ∷ []

  resolve_speaker : String → String
  resolve_speaker next = recover_speaker_id lower upper (some next) valid_ids attendees

  -- What the attempt does with a decision of the model.
  decide : MeetingState → ℕ → Fields → Turn
  unfolding resolve_speaker chosen
  decide s attempt decision =
      let next = strip (value_text (get "next_speaker" decision)) in
      let reason = value_text (get "reasoning" decision) in
      let explicit_finish = upper (strip next) == finish in
      let resolved = resolve_speaker next in
      if resolved == finish && not explicit_finish
      then (if ltb attempt 2
          then retry
          else done (chosen s (or_finish (first_unheard s attendees)) reason))
      else done (chosen s resolved reason)

  -- The `except` of an attempt.
  give_up : MeetingState → ℕ → String → Turn
  unfolding failed
  give_up s attempt error = if ltb attempt 2 then retry else done (failed s attendees error)

  try_attempt : MeetingState → ℕ → Outcome → Turn
  unfolding decide give_up
  try_attempt s attempt o = elim o.value [
    | none ↦ give_up s attempt (failure_reason o)
    | some decision ↦ decide s attempt decision
  ]

  exhausted : String
  exhausted = "Supervisor exhausted all attempts without reaching a decision."

  -- The attempts that are left, from the given one on.
  attempts : MeetingState → (ℕ → Outcome) → ℕ → ℕ → Update
  unfolding try_attempt conclude exhausted
  attempts s outcome zero attempt = conclude "[Supervisor] System Error Encountered." [] exhausted
  attempts s outcome (suc left) attempt = elim (try_attempt s attempt (outcome attempt)) [
    | retry ↦ attempts s outcome left (suc attempt)
    | done u ↦ u
  ]

  -- The node, over the outcome of each attempt's ladder, where the client and the prompt templates
  -- can be built.
  unfoldable pub supervise : (ℕ → Outcome) → MeetingState → Update
  unfolding concluded attempts
  supervise outcome s =
      let by_user = s.stop_requested || s.terminated in
      if by_user || leb s.turn_limit s.current_turn
      then concluded s by_user
      else attempts s outcome 3 0

  -- supervisor_node: `tools` and `texts` are the model's replies.
  module _ (extractors : List (String → Option Fields)) (max_tokens : ℕ)
      (tools texts : ℕ → ℕ → ℕ → Reply) where
    unfoldable pub supervisor_node : MeetingState → Update
    unfolding supervise
    supervisor_node = supervise λ attempt.
        structured_call (salvage_decision extractors) "next_speaker" (tools attempt)
          (some (texts attempt)) max_tokens default_strategies
