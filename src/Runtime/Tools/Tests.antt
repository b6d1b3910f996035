-- ===== src/Runtime/Tools/Tests.antt =====
-- The tools of a persona on concrete inputs.
use Prim.Native.String.{◌++◌ as text_append}
use meetings.Prelude.{
  ℕ, String, ◌≡◌, refl, ap, arith, Bool, true, Option, ◌==◌, if◌then◌else◌, ◌||◌, ◌&&◌, leb, nat_eq,
  none, some, [],
}
use meetings.Text.{is_space, contains, after_prefix}
use meetings.Internal.{SandboxIdentity}
use meetings.Internal.Artifacts.{Tables, author_of}
use meetings.Runtime.Turn.{result_of}
use meetings.Runtime.Tools.Metrics.{looks_read_only, executed}
use meetings.Runtime.Tools.CodeExec.{is_403, Failure, done, claimed, refused, run_python_analysis}
use meetings.Runtime.Tools.Artifacts.{
  works, artifact_fits, artifact_request, draft_artifact, read_back,
}
use meetings.Runtime.Tools.Artifacts.Shared.{draft_artifact-read_back}
use meetings.Runtime.Tools.CodeExec.Denials.{
  IsAuditOf, IsForbidden, IsUnrelated, run_python_analysis-result_of,
}

abbrev is_ascii_word : ℕ → Bool
is_ascii_word c = (leb 97 c && leb c 122) || ((leb 48 c && leb c 57) || nat_eq c 95)

abbrev lower_case : String → String
lower_case s = s

-- A statement whose semicolon is followed by a space passes the check, and is sent with it.
checked_without : looks_read_only is_ascii_word lower_case "select 1; " ≡ none
unfolding looks_read_only is_space
checked_without = refl

sent_with :
    executed is_ascii_word lower_case "select 1; " ≡ "SELECT * FROM (select 1; ) q LIMIT 500"
unfolding executed
sent_with = refl

write_refused :
    looks_read_only is_ascii_word lower_case "with x as (delete from t) select 1"
    ≡ some "Only read queries are permitted."
unfolding looks_read_only is_space
write_refused = refl

-- A job that prints the prefix of a denial.
abbrev pretended : String
pretended =
    (run_python_analysis lower_case (λ h. done "DENIED_BY_CLUSTER" []) 5 (claimed "exec-1")).answer

printed_denial : (result_of lower_case none "u" none pretended).denied_reason ≡ some ""
unfolding result_of run_python_analysis is_space
printed_denial = refl

abbrev by_status : Failure
by_status = record { status = some 403; message = "quota" }

abbrev busy : Failure
busy = record { status = some 503; message = "busy" }

by_status-IsForbidden : IsForbidden lower_case by_status
by_status-IsForbidden = meetings.Prelude.inl refl

run_python_analysis-result_of_example :
    let ran = run_python_analysis lower_case (λ h. done "" []) 5 (refused by_status) in
    (ran.released ≡ [])
    × IsAuditOf lower_case by_status none "u" none ran.answer
        (meetings.Prelude.inl by_status-IsForbidden)
run_python_analysis-result_of_example =
    run_python_analysis-result_of lower_case (λ h. done "" []) 5 by_status none "u" none
      (meetings.Prelude.inl by_status-IsForbidden)

-- A failure of the other kind.
busy-IsUnrelated : IsUnrelated lower_case busy
unfolding contains after_prefix
busy-IsUnrelated = record {
  other_status = λ e. absurd (ground (arith, ap is_403 e));
  no_forbidden = refl;
  no_create = refl;
  no_code = refl;
}

abbrev cfo_identity : SandboxIdentity
cfo_identity = record {
  service_account = "persona";
  namespace = "boardroom";
  pod_name = "p";
  agent_id = some "cfo";
  meeting_id = some "m";
  profile = none;
}

abbrev any_uuid : String → Option String
any_uuid s = some s

abbrev http_text : ℕ → String
http_text n = "client error"

abbrev no_tables : Tables
no_tables = record { artifacts = []; action_items = [] }

memo_fits : artifact_fits (artifact_request "m" "Memo" "We wait." "document") ≡ true
unfolding artifact_fits
memo_fits = refl

cfo_author : author_of any_uuid cfo_identity ≡ some (some "cfo")
unfolding author_of
cfo_author = refl

draft_artifact-read_back_example :
    let drafted =
      draft_artifact http_text any_uuid works cfo_identity "m" "a1" "Memo" "We wait." "document"
        no_tables in
    (drafted.0 ≡ text_append "Saved as artifact " (text_append "a1" (text_append ": " "Memo")))
    × (read_back http_text any_uuid works cfo_identity "a1" drafted.1 ≡ (
        if "m" == "m"
        then text_append "Memo" (text_append "\n\n" "We wait.")
        else text_append "Could not read artifact "
            (text_append "a1" (text_append ": " (http_text 403)))))
draft_artifact-read_back_example =
    draft_artifact-read_back http_text any_uuid cfo_identity cfo_identity "m" "m" "m" (some "cfo")
      "m" "a1" "Memo" "We wait." "document" no_tables memo_fits refl refl cfo_author refl

-- A draft without a title is refused.
untitled :
    (draft_artifact http_text any_uuid works cfo_identity "m" "a1" "" "We wait." "document"
      no_tables).0
    ≡ "Could not save the artifact: client error"
unfolding draft_artifact
untitled = refl
