-- ===== src/Runtime/Prompt.antt =====
-- sandbox/runtime/runtime: persona.py, the prompt of a bound persona; tool_guidance.py, the tools in
-- it; tools/__init__.py, which tools are built; and the parts of protocol.py that they read.
use Prim.Native.String.{◌++◌ as text_append}
use meetings.Prelude.{
  String, ◌==◌, Bool, true, false, not, ◌&&◌, ◌||◌, eq_iff, Option, none, some, List, [], ◌∷◌, ◌++◌,
  map, filter, elem, elem-append, elem-filter, All, ◌≡◌, refl, ap, ◌∙◌, arith, Bool-cases,
  if◌then◌else◌, any, or_text,
}
use meetings.Prelude.Order.{sorted, sorted_set, elem-sorted_set}
use meetings.Dict.{Dict, get, string_eq}
use meetings.Text.{join, contains}
use meetings.Text.Replace.{replace, replace_absent}

-- PersonaSpec (protocol.py)
pub record PersonaSpec : Type 0 where
  pub display_name : String
  pub title : String
  pub department : String
  pub guidance : Option String
  pub summary : Option String
  pub seniority : Option String
  pub responsibilities : List String
  pub kpis : List String
  pub objectives : List String
  pub priorities : List String
  pub risk_tolerance : Option String
  pub tone : List String
  pub collaboration_style : Option String
  pub challenge_style : Option String
  pub allowed_shared_library_access : Bool

-- Attendee (protocol.py)
pub record Attendee : Type 0 where
  pub id : String
  pub display_name : String
  pub title : String
  pub department : String

-- What a turn's request brings to the prompt.
pub record Scene : Type 0 where
  pub objective : String
  pub agenda : String
  pub brief : String
  pub expectations : String

bullets : List String → String
unfolding join
bullets [] = "None specified."
bullets (x ∷ xs) = join "\n" (map (text_append "- ") (x ∷ xs))

join_or : List String → String → String
unfolding join
join_or [] empty = empty
join_or (x ∷ xs) empty = join ", " (x ∷ xs)

abbrev attendee_line : Attendee → String
attendee_line a = text_append "- " (
    text_append a.display_name
      (text_append " (" (text_append a.title (text_append ", " (text_append a.department ")")))))

-- The attendees that are not excluded.
abbrev pub others : List Attendee → String → List Attendee
others attendees exclude_id = filter (λ a. not (a.id == exclude_id)) attendees

attendee_lines : List Attendee → String
unfolding join
attendee_lines [] = "No other participants."
attendee_lines (a ∷ rest) = join "\n" (map attendee_line (a ∷ rest))

unfoldable pub render_attendee_list : List Attendee → String → String
unfolding attendee_lines
render_attendee_list attendees exclude_id = attendee_lines (others attendees exclude_id)

-- The substitutions, in their order.
unfoldable pub substitutions : PersonaSpec → Scene → String → String → Dict String String
unfolding bullets join_or
substitutions p s attendee_list tools =
    ("DISPLAY_NAME", p.display_name)
    ∷ ("TITLE", p.title)
    ∷ ("DEPARTMENT", p.department)
    ∷ ("SUMMARY", or_text p.summary "")
    ∷ ("PERSONA_GUIDANCE", or_text p.guidance "")
    ∷ ("SENIORITY", or_text p.seniority "Unspecified")
    ∷ ("TONE", join_or p.tone "Neutral")
    ∷ ("COLLABORATION_STYLE", or_text p.collaboration_style "Collaborative")
    ∷ ("CHALLENGE_STYLE", or_text p.challenge_style "Constructive")
    ∷ ("RISK_TOLERANCE", or_text p.risk_tolerance "Medium")
    ∷ ("RESPONSIBILITIES", bullets p.responsibilities)
    ∷ ("KPIS", bullets p.kpis)
    ∷ ("OBJECTIVES", bullets p.objectives)
    ∷ ("PRIORITIES", bullets p.priorities)
    ∷ ("OBJECTIVE", s.objective)
    ∷ ("AGENDA", s.agenda)
    ∷ ("BRIEF", s.brief)
    ∷ ("EXPECTATIONS", s.expectations)
    ∷ ("ATTENDEE_LIST", attendee_list)
    ∷ ("TOOLS", or_text (some tools) "You have no tools available.")
    ∷ ("ATTENDEE LIST", attendee_list)
    ∷ []

-- f"{{{{{key}}}}}"
abbrev pub placeholder : String → String
placeholder key = text_append "{{" (text_append key "}}")

unfoldable pub render : Dict String String → String → String
unfolding replace
render [] rendered = rendered
render ((key, value) ∷ rest) rendered = render rest (replace (placeholder key) value rendered)

unfoldable pub build_system_prompt : String → PersonaSpec → Scene → String → String → String
unfolding render substitutions
build_system_prompt template p s attendee_list tools =
    render (substitutions p s attendee_list tools) template

-- TOOL_GUIDANCE
abbrev pub tool_guidance : Dict String String
tool_guidance =
    (
      "retrieve_documents",
      "search the company's document library for evidence -- use it before asserting any fact about company history, policy or prior decisions",
    )
    ∷ (
      "query_business_metrics",
      "run read-only SQL against the business metrics warehouse -- use it whenever a number is in question rather than estimating",
    )
    ∷ (
      "run_python_analysis",
      "write and run Python to analyse data or produce a chart -- use it when a trend or comparison would be clearer as a figure than a sentence",
    )
    ∷ (
      "check_policy_compliance",
      "check a draft against compliance rule packs -- use it before any text is circulated outside this meeting",
    )
    ∷ (
      "search_corpus",
      "search external industry literature -- use it for benchmarks, regulatory expectations and comparable cases",
    )
    ∷ (
      "draft_artifact",
      "write a document, note or table into the meeting record -- use it when something is worth keeping beyond the transcript",
    )
    ∷ ("read_artifact", "read back something produced earlier in this meeting")
    ∷ (
      "record_action_item",
      "record a commitment with an owner -- use it whenever the meeting agrees someone will do something",
    )
    ∷ []

guidance_lines : List String → List String
unfolding get
guidance_lines [] = []
guidance_lines (t ∷ ts) = elim (get t tool_guidance) [
  | none ↦ guidance_lines ts
  | some what ↦ text_append "- `" (text_append t (text_append "`: " what)) ∷ guidance_lines ts
]

guidance_text : List String → String
unfolding join
guidance_text [] = "You have no tools available. Contribute from your own expertise."
guidance_text (l ∷ ls) = join "\n" (l ∷ ls)

unfoldable pub render_tool_guidance : List String → String
unfolding guidance_lines guidance_text sorted
render_tool_guidance tools = guidance_text (guidance_lines (sorted tools))

abbrev pub single_tools : List String
single_tools =
    "retrieve_documents" ∷ "query_business_metrics" ∷ "run_python_analysis"
    ∷ "check_policy_compliance" ∷ "search_corpus" ∷ []

abbrev pub artifact_tools : List String
artifact_tools = "draft_artifact" ∷ "read_artifact" ∷ "record_action_item" ∷ []

-- The names of the tools that are built, in their order.
unfoldable pub build_tools : List String → List String
unfolding sorted_set
build_tools names =
    filter (λ t. elem t names) (sorted_set single_tools)
    ++ (if any (λ t. elem t artifact_tools) names
        then filter (λ t. elem t names) artifact_tools
        else [])

render_absent :
    (known : Dict String String) (template : String)
    → All (λ e. contains (placeholder e.0) template ≡ false) known
    → render known template ≡ template
unfolding render
render_absent [] template h = refl
render_absent ((key, value) ∷ rest) template h =
    ap (render rest) (replace_absent (placeholder key) value template h.0)
    ∙ render_absent rest template h.1

any-elem :
    (p : String → Bool) (t : String) (names : List String)
    → elem t names ≡ true
    → p t ≡ true
    → any p names ≡ true
any-elem p t [] m h = absurd (cc)
any-elem p t (x ∷ names) m h = ground (arith, m, h, any-elem p t names, eq_iff t x)

group_elem :
    (names group : List String) (t : String)
    → elem t (if any (λ x. elem x group) names then filter (λ x. elem x names) group else [])
      ≡ (elem t group && elem t names)
group_elem names group t = ground (
  arith,
  elem-filter t (λ x. elem x names) group,
  any-elem (λ x. elem x group) t names,
  Bool-cases (any (λ x. elem x group) names),
)

built_elem :
    (names known group : List String) (t : String)
    → elem t (
        filter (λ x. elem x names) known
        ++ (if any (λ x. elem x group) names then filter (λ x. elem x names) group else []))
      ≡ (elem t names && (elem t known || elem t group))
built_elem names known group t =
    elem-append t (filter (λ x. elem x names) known)
      (if any (λ x. elem x group) names then filter (λ x. elem x names) group else [])
    ∙ ground (arith, elem-filter t (λ x. elem x names) known, group_elem names group t)

-- A tool is built exactly if it is asked for and it is one that the sandbox knows.
pub build_tools-elem :
    (names : List String) (t : String)
    → elem t (build_tools names) ≡ (elem t names && (elem t single_tools || elem t artifact_tools))
unfolding build_tools
build_tools-elem names t =
    built_elem names (sorted_set single_tools) artifact_tools t
    ∙ ap (λ known. elem t names && (known || elem t artifact_tools))
        (elem-sorted_set t single_tools)

-- A template in which none of the known placeholders stands is not changed.
pub build_system_prompt_absent :
    (template : String) (p : PersonaSpec) (s : Scene) (attendee_list tools : String)
    → All (λ e. contains (placeholder e.0) template ≡ false) (substitutions p s attendee_list tools)
    → build_system_prompt template p s attendee_list tools ≡ template
unfolding build_system_prompt
build_system_prompt_absent template p s attendee_list tools h =
    render_absent (substitutions p s attendee_list tools) template h
