-- ===== src/Runtime/Tools/Policy.antt =====
-- sandbox/runtime/runtime/tools/policy.py: a text against the rules of a pack. The packs, which are
-- files, and the search of a pattern are parameters, and so is str.upper.
use meetings.Prelude.{String, ◌==◌, Option, none, some, List, [], ◌∷◌, map, length, if◌then◌else◌}
use meetings.Dict.{Dict, get, string_eq}
use meetings.Text.{join, take_text, decimal}

pub record Rule : Type 0 where
  pub pattern : Option String
  pub id : Option String
  pub severity : Option String
  pub message : Option String
  pub remediation : Option String

pub record Finding : Type 0 where
  pub rule_id : String
  pub severity : String
  pub message : String
  pub remediation : String
  pub matched : String

abbrev or_default : Option String → String → String
or_default none d = d
or_default (some s) d = s

abbrev finding_of : Rule → String → Finding
finding_of r matched = record {
  rule_id = or_default r.id "?";
  severity = or_default r.severity "medium";
  message = or_default r.message "";
  remediation = or_default r.remediation "";
  matched = take_text 120 matched;
}

module _ (search : String → String → Option String) (upper : String → String) where
  -- What a rule finds, if it has a pattern that matches.
  fires : Rule → String → Option Finding
  unfolding take_text
  fires r text = elim r.pattern [
    | none ↦ none
    | some p ↦
        if p == ""
        then none
        else elim (search p text) [ none ↦ none | some m ↦ some (finding_of r m) ]
  ]

  -- evaluate
  unfoldable pub evaluate : String → List Rule → List Finding
  unfolding fires
  evaluate text [] = []
  evaluate text (r ∷ rules) = elim (fires r text) [
    | none ↦ evaluate text rules
    | some f ↦ f ∷ evaluate text rules
  ]

  abbrev concat : List String → String
  concat parts = join "" parts

  finding_line : Finding → String
  unfolding join
  finding_line f = concat (
      "- ["
      ∷ upper f.severity
      ∷ " "
      ∷ f.rule_id
      ∷ "] "
      ∷ f.message
      ∷ "\n    matched: \""
      ∷ f.matched
      ∷ "\"\n    fix: "
      ∷ f.remediation
      ∷ [])

  policy_report : String → List Finding → String
  unfolding finding_line decimal
  policy_report pack [] =
      concat ("No " ∷ pack ∷ " rules matched. This is a rule check, not legal advice." ∷ [])
  policy_report pack (f ∷ fs) = join "\n" (
      concat (decimal (length (f ∷ fs)) ∷ " " ∷ pack ∷ " finding(s):" ∷ [])
      ∷ map finding_line (f ∷ fs))

  -- check_policy_compliance, where the packs are sorted by their names
  unfoldable pub check_policy_compliance : Dict String (List Rule) → String → String → String
  unfolding evaluate policy_report get
  check_policy_compliance packs text pack = elim (get pack packs) [
    | none ↦
        concat
          ("Unknown pack '" ∷ pack ∷ "'. Available: " ∷ join ", " (map (λ p. p.0) packs) ∷ "." ∷ [])
    | some rules ↦ policy_report pack (evaluate text rules)
  ]
