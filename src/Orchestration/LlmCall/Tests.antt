-- ===== src/Orchestration/LlmCall/Tests.antt =====
-- Examples of a ladder of calls (llm_call.py).
use meetings.Prelude.{ℕ, String, ◌≡◌, refl, false, Option, none, some, List, [], ◌∷◌}
use meetings.Dict.{get, string_eq}
use meetings.Text.{strip, lstrip, rstrip, is_space}
use meetings.Orchestration.LlmCall.{
  text, Fields, ToolCall, Raw, Reply, raised, envelope, mapping, outcome_ok, structured_call,
  default_strategies, climb, rung, run, settle, usable, has_field, value_text, to_mapping, rejected,
}
use meetings.Orchestration.LlmCall.Truncated.{clip, clip_text, structured_call-clip}

abbrev no_salvage : List ToolCall → String → Option Fields
no_salvage calls content = none

abbrev answer : Fields
answer = ("next_speaker", text "a") ∷ []

abbrev raw : Raw
raw = record { finish_reason = some "stop"; output_tokens = none; tool_calls = []; content = "" }

abbrev answering : ℕ → ℕ → Reply
answering n budget = envelope (mapping answer) raw

abbrev failing : ℕ → ℕ → Reply
failing n budget = raised "400"

answered :
    (structured_call no_salvage "next_speaker" answering none 512 default_strategies).value
    ≡ some answer
unfolding structured_call climb rung run settle usable has_field value_text to_mapping get strip
    lstrip rstrip is_space
answered = refl

all_failed :
    outcome_ok
      (structured_call no_salvage "next_speaker" failing (some failing) 512 default_strategies)
    ≡ false
unfolding structured_call climb rung run rejected
all_failed = refl

structured_call-clip_example :
    structured_call no_salvage "next_speaker"
      (λ n b. clip (answering n b))
      (clip_text (some answering))
      512
      default_strategies
    ≡ structured_call no_salvage "next_speaker" answering (some answering) 512 default_strategies
structured_call-clip_example =
    structured_call-clip no_salvage "next_speaker" answering (some answering) 512 default_strategies
