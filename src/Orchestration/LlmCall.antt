-- ===== src/Orchestration/LlmCall.antt =====
-- backend/app/orchestration/llm_call.py: a structured answer from a model, asked for in
-- progressively more permissive ways. The model is a parameter: what it replies to a call, given
-- how many calls this ladder has made before and the token budget.
pub mod Ladder
pub mod Truncated
pub mod Rungs
mod Tests
use meetings.Prelude.{
  ℕ, ◌+◌, ◌*◌, String, ◌==◌, Bool, true, false, not, ◌&&◌, Option, none, some, List, [], ◌∷◌, ◌++◌,
  length, map, if◌then◌else◌,
}
use meetings.Dict.{Dict, get, string_eq}
use Prim.Native.String.{◌++◌ as text_append}
use meetings.Text.{strip, take_text, decimal, join}

-- A value of a mapping, as this code reads it: a str, None, another falsy value, or another truthy
-- value with its str().
pub data Value : Type 0 where
  text : String → Value
  null falsy : Value
  other : String → Value

abbrev pub Fields : Type 0
Fields = Dict String Value

-- str(value or "")
unfoldable pub value_text : Option Value → String
value_text none = ""
value_text (some (text s)) = s
value_text (some null) = ""
value_text (some falsy) = ""
value_text (some (other s)) = s

-- A parsed schema: nothing, a mapping, an object with `model_dump`, or neither.
pub data Parsed : Type 0 where
  nothing : Parsed
  mapping : Fields → Parsed
  instance_of : Fields → Parsed
  opaque : Parsed

-- A tool call, with its `args` if the call and they are mappings.
pub record ToolCall : Type 0 where
  pub args : Option Fields

-- The raw message, as `_describe` reads it; `content` is already its str().
pub record Raw : Type 0 where
  pub finish_reason : Option String
  pub output_tokens : Option ℕ
  pub tool_calls : List ToolCall
  pub content : String

-- What one call gives: an exception with its text, the envelope of `include_raw`, or anything else,
-- which is the parsed value and the raw message at once.
pub data Reply : Type 0 where
  raised : String → Reply
  envelope : Parsed → Raw → Reply
  plain : Parsed → Raw → Reply

-- `has_tool_calls` is whether the recorded text of the tool calls is not empty.
pub record Attempt : Type 0 where
  pub strategy : String
  pub is_ok : Bool
  pub finish_reason : Option String
  pub output_tokens : Option ℕ
  pub max_tokens : ℕ
  pub has_tool_calls : Bool
  pub content : String
  pub provider_error : Option String

pub record Outcome : Type 0 where
  pub value : Option Fields
  pub strategy : Option String
  pub attempts : List Attempt

abbrev pub is_some {ℓ} : {A : Type ℓ} → Option A → Bool
is_some none = false
is_some (some _) = true

abbrev pub truncation_retry_factor : ℕ
truncation_retry_factor = 3

-- Outcome.ok
abbrev pub outcome_ok : Outcome → Bool
outcome_ok o = is_some o.value

abbrev is_length : Option String → Bool
is_length none = false
is_length (some r) = r == "length"

abbrev no_error : Option String → Option String
no_error none = none
no_error (some e) = if e == "" then none else some e

-- Attempt.reason, after the check of provider_error
call_reason : Attempt → String
call_reason a =
    if is_length a.finish_reason
    then text_append
        (text_append (text_append a.strategy ": the reply was cut off at the ")
          (decimal a.max_tokens))
        "-token cap before it was complete"
    else if not a.has_tool_calls && strip a.content == ""
    then text_append a.strategy ": the model returned an empty response"
    else if not a.has_tool_calls
    then text_append a.strategy ": the model answered in text that did not parse"
    else text_append a.strategy ": the structured fields could not be read"

-- Attempt.reason
unfoldable pub reason : Attempt → String
unfolding call_reason
reason a = elim (no_error a.provider_error) [
  | some e ↦
      text_append (text_append (text_append a.strategy ": the provider rejected the call (") e) ")"
  | none ↦ call_reason a
]

-- Outcome.failure_reason
unfoldable pub failure_reason : Outcome → String
unfolding reason
failure_reason o = elim o.attempts [
  | [] ↦ "no attempt was made"
  | a ∷ as' ↦ join "; " (map reason (a ∷ as'))
]

-- to_mapping
unfoldable pub to_mapping : Parsed → Option Fields
to_mapping nothing = none
to_mapping (mapping f) = some f
to_mapping (instance_of f) = some f
to_mapping opaque = none

-- _has_field
unfoldable pub has_field : Option Fields → String → Bool
has_field none name = false
has_field (some f) name = not (strip (value_text (get name f)) == "")

abbrev has_calls : List ToolCall → Bool
has_calls [] = false
has_calls (_ ∷ _) = true

-- _describe, for the strategy and the verdict that the attempt records
describe : String → Bool → Raw → ℕ → Attempt
describe strategy got raw budget = record {
  strategy = strategy;
  is_ok = got;
  finish_reason = raw.finish_reason;
  output_tokens = raw.output_tokens;
  max_tokens = budget;
  has_tool_calls = has_calls raw.tool_calls;
  content = take_text 300 raw.content;
  provider_error = none;
}

rejected : String → ℕ → String → Attempt
rejected strategy budget error = record {
  strategy = strategy;
  is_ok = false;
  finish_reason = none;
  output_tokens = none;
  max_tokens = budget;
  has_tool_calls = false;
  content = "";
  provider_error = some (take_text 300 error);
}

module _ (salvage : List ToolCall → String → Option Fields) (required_field : String) where
  -- The value of one reply: the parsed mapping if it has the field, or else what is salvaged.
  usable : Parsed → Raw → Option Fields
  unfolding to_mapping
  usable parsed raw =
      let value = to_mapping parsed in
      if has_field value required_field
      then value
      else salvage raw.tool_calls (take_text 300 raw.content)

  settle : String → ℕ → Raw → Option Fields → Outcome → Outcome
  unfolding describe
  settle strategy budget raw value o =
      let got = has_field value required_field in
      record {
        value = if got then value else o.value;
        strategy = if got then some strategy else o.strategy;
        attempts = o.attempts ++ describe strategy got raw budget ∷ [];
      }

  -- `run`, on the reply of the call
  run : String → ℕ → Reply → Outcome → Outcome
  unfolding usable settle rejected
  run strategy budget (raised e) o = record o {
    attempts = o.attempts ++ rejected strategy budget e ∷ [];
  }
  run strategy budget (envelope parsed raw) o = settle strategy budget raw (usable parsed raw) o
  run strategy budget (plain parsed raw) o = settle strategy budget raw (usable parsed raw) o

  abbrev last_was_cut_off : List Attempt → Bool
  last_was_cut_off [] = false
  last_was_cut_off (a ∷ []) = is_length a.finish_reason
  last_was_cut_off (a ∷ b ∷ rest) = last_was_cut_off (b ∷ rest)

  module _ (invoke_tools : ℕ → ℕ → Reply) (invoke_text : Option (ℕ → ℕ → Reply))
      (max_tokens : ℕ) where
    abbrev calls : Outcome → ℕ
    calls o = length o.attempts

    -- One rung: the outcome after it, which is unchanged where the rung does not apply.
    rung : String → Outcome → Outcome
    unfolding run
    rung strategy o =
        if strategy == "tools"
        then run "tools" max_tokens (invoke_tools (calls o) max_tokens) o
        else if strategy == "tools_retry"
        then (let budget = max_tokens * truncation_retry_factor in
            if last_was_cut_off o.attempts
            then run "tools_retry" budget (invoke_tools (calls o) budget) o
            else o)
        else if strategy == "text"
        then (let budget = max_tokens * truncation_retry_factor in
            elim invoke_text [
              | none ↦ o
              | some invoke ↦ run "text" budget (invoke (calls o) budget) o
            ])
        else o

    climb : List String → Outcome → Outcome
    unfolding rung
    climb [] o = o
    climb (strategy ∷ rest) o =
        let o' = rung strategy o in let on = climb rest o' in if outcome_ok o' then o' else on

    pub structured_call : List String → Outcome
    unfolding climb
    structured_call strategies =
        climb strategies (record { value = none; strategy = none; attempts = [] })

abbrev pub default_strategies : List String
default_strategies = "tools" ∷ "tools_retry" ∷ "text" ∷ []
