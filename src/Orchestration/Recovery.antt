-- ===== src/Orchestration/Recovery.antt =====
-- backend/app/orchestration/recovery.py (vendored into sandbox/runtime/runtime/recovery.py):
-- recover_speaker_id and salvage_decision. `lower` and `upper` are Python's case mappings, whose
-- Unicode tables are not modelled; the four extractors of salvage_decision (JSON and markup by
-- regular expressions) are a list of parameters.
pub mod Speaker
pub mod Thoughts
mod Tests
use Prim.Native.String.{count}
use meetings.Prelude.{
  ℕ, String, ◌==◌, Bool, true, false, ◌||◌, Option, none, some, List, [], ◌∷◌, elem, ltb,
  if◌then◌else◌,
}
use meetings.Dict.{Dict, get, string_eq}
use meetings.Text.{strip, contains}
use meetings.Orchestration.State.{Role}
use meetings.Orchestration.LlmCall.{Value, text, Fields, ToolCall, value_text}

abbrev pub finish : String
finish = "FINISH"

abbrev pub min_fuzzy_match_len : ℕ
min_fuzzy_match_len = 3

-- matches[0] if there is exactly one
unambiguous : List String → String
unambiguous [] = finish
unambiguous (a ∷ []) = a
unambiguous (a ∷ b ∷ rest) = finish

module _ (lower upper : String → String) where
  abbrev matches_role : String → String → Role → Bool
  matches_role needle aid a =
      contains needle (lower a.display_name)
      || (contains needle (lower a.title) || contains needle (lower aid))

  pub fuzzy_matches : String → Dict String Role → List String
  fuzzy_matches needle [] = []
  fuzzy_matches needle ((aid, a) ∷ attendees) =
      let rest = fuzzy_matches needle attendees in
      if matches_role needle aid a then aid ∷ rest else rest

  recover_candidate : String → List String → Dict String Role → String
  unfolding unambiguous fuzzy_matches
  recover_candidate candidate valid_ids attendees =
      if candidate == ""
      then finish
      else if elem candidate valid_ids
      then candidate
      else if upper candidate == finish
      then finish
      else if ltb (count (lower candidate)) min_fuzzy_match_len
      then finish
      else unambiguous (fuzzy_matches (lower candidate) attendees)

  unfoldable pub recover_speaker_id : Option String → List String → Dict String Role → String
  unfolding recover_candidate
  recover_speaker_id none valid_ids attendees = finish
  recover_speaker_id (some raw) valid_ids attendees =
      recover_candidate (strip raw) valid_ids attendees

abbrev pub decision_of : String → String → Fields
decision_of speaker reasoning = ("next_speaker", text speaker) ∷ ("reasoning", text reasoning) ∷ []

-- The decision in a mapping, if its speaker is a str that is not blank.
decision_in : Fields → Option Value → Option Fields
decision_in found (some (text speaker)) =
    if strip speaker == ""
    then none
    else some (decision_of (strip speaker) (strip (value_text (get "reasoning" found))))
decision_in found _ = none

or_next {ℓ} : {A : Type ℓ} → Option A → Option A → Option A
or_next (some a) rest = some a
or_next none rest = rest

from_mapping : Option Fields → Option Fields
unfolding decision_in
from_mapping none = none
from_mapping (some found) = decision_in found (get "next_speaker" found)

from_calls : List ToolCall → Option Fields
unfolding from_mapping or_next
from_calls [] = none
from_calls (call ∷ calls) = or_next (from_mapping call.args) (from_calls calls)

-- `if found:` skips an empty mapping, which has no speaker either.
from_text : List (String → Option Fields) → String → Option Fields
unfolding from_mapping or_next
from_text [] s = none
from_text (extract ∷ rest) s = or_next (from_mapping (extract s)) (from_text rest s)

unfoldable pub salvage_decision :
    List (String → Option Fields) → List ToolCall → String → Option Fields
unfolding from_calls from_text
salvage_decision extractors calls content =
    let body = strip content in
    or_next (from_calls calls) (if body == "" then none else from_text extractors body)
