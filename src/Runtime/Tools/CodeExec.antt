-- ===== src/Runtime/Tools/CodeExec.antt =====
-- sandbox/runtime/runtime/tools/code_exec.py: a run of model-authored Python in a second sandbox. The
-- apiserver's answer to the claim, the job server's answer and the artifact writer are parameters, and
-- so is str.lower; the time a job took is given in milliseconds.
pub mod Denials
use Prim.Native.String.{◌++◌ as text_append}
use meetings.Prelude.{
  ℕ, String, ◌==◌, Bool, true, false, not, ◌||◌, Option, none, some, List, [], ◌∷◌, ◌++◌, map,
  if◌then◌else◌, nat_eq,
}
use meetings.Text.{strip, contains, join, decimal}
use meetings.Runtime.Turn.{denied_prefix}

-- An exception: its HTTP status, if it has one, and its text.
pub record Failure : Type 0 where
  pub status : Option ℕ
  pub message : String

-- What claiming gives: the handle's name, or an exception.
pub data Claimed : Type 0 where
  claimed : String → Claimed
  refused : Failure → Claimed

-- What the job gives: an exception, a failure with its text, or the output and the files with the
-- ids of the artifacts that they become.
pub data Job : Type 0 where
  unreachable : String → Job
  job_failed : String → Job
  done : String → List (String × String) → Job

-- The tool's answer, and the sandboxes that it released.
pub record Ran : Type 0 where
  pub answer : String
  pub released : List String

abbrev pub is_403 : Option ℕ → Bool
is_403 none = false
is_403 (some n) = nat_eq n 403

abbrev pub denial_text : String
denial_text =
    ": this persona is not permitted to execute code. The Kubernetes API server refused the sandbox claim. Continue without running analysis, or ask a colleague whose role covers it."

abbrev or_no_output : String → String
or_no_output s = if s == "" then "(no output)" else s

abbrev artifact_line : String × String → String
artifact_line (filename, id) =
    text_append "[artifact " (text_append id (text_append ": " (text_append filename "]")))

module _ (lower : String → String) where
  -- _is_forbidden
  unfoldable pub is_forbidden : Failure → Bool
  unfolding contains
  is_forbidden e =
      is_403 e.status
      || (contains "forbidden" (lower e.message)
          || (contains "cannot create resource" (lower e.message)
              || contains "403" (lower e.message)))

  job_text : ℕ → Job → String
  unfolding join strip decimal
  job_text ms (unreachable e) = text_append "Code execution is unavailable: " e
  job_text ms (job_failed e) =
      text_append "The analysis failed after " (text_append (decimal ms) (text_append "ms:\n" e))
  job_text ms (done stdout files) =
      join "\n" (or_no_output (strip stdout) ∷ map artifact_line files)

  refused_text : Failure → String
  unfolding is_forbidden
  refused_text e =
      if is_forbidden e
      then text_append denied_prefix denial_text
      else text_append "Code execution is unavailable: " e.message

  -- run_python_analysis: the sandbox that was claimed is released whatever the job comes to.
  unfoldable pub run_python_analysis : (String → Job) → ℕ → Claimed → Ran
  unfolding refused_text job_text
  run_python_analysis job ms (refused e) = record { answer = refused_text e; released = [] }
  run_python_analysis job ms (claimed handle) = record {
    answer = job_text ms (job handle);
    released = handle ∷ [];
  }
