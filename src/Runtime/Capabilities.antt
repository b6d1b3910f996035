-- ===== src/Runtime/Capabilities.antt =====
-- sandbox/runtime/runtime/capabilities.py: the tools that are granted are cut to those that the
-- sandbox's own capability file allows. The file is its lines, or none where it does not exist.
use meetings.Prelude.{
  String, ◌≡◌, ◌==◌, Bool, not, ◌&&◌, Option, none, some, List, [], ◌∷◌, map, filter, elem,
  elem-filter, arith,
}
use meetings.Prelude.Order.{sorted, sorted_set, elem-sorted, elem-sorted_set}
use meetings.Text.{strip, after_prefix}
use meetings.Orchestration.LlmCall.{is_some}

-- BASELINE_TOOLS, of this module
abbrev pub runtime_baseline : List String
runtime_baseline = "retrieve_documents" ∷ []

-- An entry: a line that is not blank and no comment.
abbrev is_entry : String → Bool
is_entry line = not (line == "") && not (is_some (after_prefix "#" line))

unfoldable pub allowed_tools : Option (List String) → List String
allowed_tools none = runtime_baseline
allowed_tools (some lines) = filter is_entry (map strip lines)

unfoldable pub resolve_grant : List String → List String → List String × List String
resolve_grant allowed requested = (
  sorted (filter (λ t. elem t allowed) requested),
  sorted_set (filter (λ t. not (elem t allowed)) requested),
)

-- Each tool asked for is active exactly if the sandbox allows it and refused exactly if it does not,
-- and no other tool is active or refused.
pub resolve_grant-elem :
    (allowed requested : List String) (t : String)
    → (elem t (resolve_grant allowed requested).0 ≡ (elem t requested && elem t allowed))
      × (elem t (resolve_grant allowed requested).1 ≡ (elem t requested && not (elem t allowed)))
unfolding resolve_grant
resolve_grant-elem allowed requested t = (
  ground (
    arith,
    elem-sorted t (filter (λ x. elem x allowed) requested),
    elem-filter t (λ x. elem x allowed) requested,
  ),
  ground (
    arith,
    elem-sorted_set t (filter (λ x. not (elem x allowed)) requested),
    elem-filter t (λ x. not (elem x allowed)) requested,
  ),
)
