-- ===== src/Runtime/Tools/Metrics.antt =====
-- sandbox/runtime/runtime/tools/metrics_sql.py: which query is sent to the metrics database. The
-- characters of `\w` and the letters up to case are parameters. A keyword between two word boundaries
-- is a whole run of word characters.
use Prim.Native.String.{◌++◌ as text_append}
use meetings.Prelude.{
  ℕ, String, ◌==◌, Bool, not, Option, none, some, List, [], ◌∷◌, ◌++◌, map, any, elem, length,
  if◌then◌else◌, nat_eq,
}
use meetings.Text.{strip, contains, leading_run, runs, join}
use meetings.Text.Replace.{rstrip_semicolons}

abbrev pub max_rows : ℕ
max_rows = 500

-- _WRITE_KEYWORDS
abbrev pub write_keywords : List String
write_keywords =
    "insert" ∷ "update" ∷ "delete" ∷ "drop" ∷ "alter" ∷ "create" ∷ "truncate" ∷ "grant" ∷ "revoke"
    ∷ "copy" ∷ "call" ∷ "do" ∷ []

-- What the database comes to: no credential, no connection, a failure, or the rows, as lists of texts
-- under their headers.
pub data Metrics : Type 0 where
  no_credential : Metrics
  no_connection : String → Metrics
  query_failed : String → Metrics
  rows : List String → List (List String) → Metrics

module _ (is_word : ℕ → Bool) (fold : String → String) where
  is_query_word : String → Bool
  is_query_word word = elem word ("select" ∷ "with" ∷ [])

  refusal_reason : String → Option String
  unfolding is_query_word leading_run meetings.Text.runs_from contains
  refusal_reason stripped =
      if stripped == ""
      then some "Empty query."
      else if contains ";" stripped
      then some "Submit a single statement."
      else if not (is_query_word (leading_run is_word (fold stripped)))
      then some "Only SELECT (or WITH ... SELECT) queries are permitted."
      else if any (λ w. elem w write_keywords) (runs is_word (fold stripped))
      then some "Only read queries are permitted."
      else none

  -- _looks_read_only: the reason of a refusal_reason
  unfoldable pub looks_read_only : String → Option String
  unfolding refusal_reason strip rstrip_semicolons
  looks_read_only sql = refusal_reason (strip (rstrip_semicolons (strip sql)))

  -- The statement that is executed.
  unfoldable pub executed : String → String
  unfolding rstrip_semicolons
  executed sql = text_append "SELECT * FROM (" (text_append (rstrip_semicolons sql) ") q LIMIT 500")

  abbrev table : List String → List (List String) → List String
  table headers body =
      (join " | " headers ∷ "----------------------------------------" ∷ [])
      ++ (map (join " | ") body
          ++ (if nat_eq (length body) max_rows
              then "(truncated at 500 rows -- aggregate instead)" ∷ []
              else []))

  metrics_report : Metrics → String
  unfolding join
  metrics_report no_credential =
      "No metrics credential is mounted in this sandbox, so this persona cannot query business metrics."
  metrics_report (no_connection e) = text_append "Could not reach the metrics database: " e
  metrics_report (query_failed e) = text_append "Query failed: " e
  metrics_report (rows headers []) = "The query returned no rows."
  metrics_report (rows headers (r ∷ rs)) = join "\n" (table headers (r ∷ rs))

  -- query_business_metrics: the answer, and the statement that is sent, if one is
  unfoldable pub query_business_metrics : (String → Metrics) → String → String × Option String
  unfolding looks_read_only executed metrics_report
  query_business_metrics database sql = elim (looks_read_only sql) [
    | some reason ↦ (text_append "Query rejected: " reason, none)
    | none ↦ (metrics_report (database (executed sql)), some (executed sql))
  ]
