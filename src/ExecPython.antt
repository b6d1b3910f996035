-- ===== src/ExecPython.antt =====
-- sandbox/exec-python: server.py, the job server of a code-execution sandbox, and runner.py, the
-- process that it starts for each job. The directories /work/in and /work/out are dictionaries by
-- name; an input's name is taken to be a plain file name, as run_python_analysis sends none. What the
-- snippet does, JSON, Base64 and the texts of Python's own exceptions are parameters.
pub mod Artifacts
pub mod Bounded
pub mod Clean
mod Tests
use Prim.Native.String.{◌++◌ as text_append}
use meetings.Prelude.{
  ℕ, String, ◌==◌, ◌≡◌, Bool, true, false, not, ◌&&◌, Option, none, some, List, [], ◌∷◌, map,
  filter, ltb, if◌then◌else◌,
}
use meetings.Prelude.Order.{sorted}
use meetings.Dict.{Dict, get, put, string_eq}
use meetings.Text.{is_some, take_text}

pub data Entry : Type 0 where
  file : String → Entry
  folder : Entry

abbrev pub Directory : Type 0
Directory = Dict String Entry

pub record Workspace : Type 0 where
  pub input : Dict String String
  pub out : Directory

-- The content of result.json.
pub record Result : Type 0 where
  pub is_ok : Bool
  pub error : Option String
  pub stdout : String
  pub stderr : String
  pub files : List String

-- What json.loads makes of a body: an exception, a value that is no object, by its text, or a job.
pub data Body : Type 0 where
  malformed : String → Body
  no_object : String → Body
  job : String → Dict String String → Body

-- What the handler makes of result.json: an exception of json.loads, a value that is no object, or
-- a result.
pub data Loaded : Type 0 where
  unreadable : String → Loaded
  other_value : Loaded
  loaded : Result → Loaded

-- The snippet comes to its end, with the text of the exception that it raised if it did, or its
-- process is killed before it does, or it still runs when the time is over. Each leaves a directory.
pub data Ended : Type 0 where
  finished : Option String → String → String → Directory → Ended
  killed : Directory → Ended
  running : Directory → Ended

pub record Python : Type 0 where
  pub snippet : String → Dict String String → Directory → Ended
  pub dumps_job : String → Dict String String → String
  pub dumps : Result → String
  pub loads : String → Loaded
  pub b64encode : String → String
  pub missing_result : String

pub data ContentLength : Type 0 where
  not_a_number : ContentLength
  negative : ContentLength
  bytes : ℕ → ContentLength

pub record Request : Type 0 where
  pub path : String
  pub content_length : ContentLength
  pub body : Body

-- An error with its status, the failure of a job, or a result with its artifacts.
pub data Reply : Type 0 where
  error_reply : ℕ → String → Reply
  failed_reply : String → Reply
  result_reply : Result → Dict String String → Reply

abbrev pub max_body_bytes : ℕ
max_body_bytes = 524288

abbrev pub max_stdout_chars : ℕ
max_stdout_chars = 20000

abbrev pub result_name : String
result_name = "result.json"

abbrev pub is_file : Entry → Bool
is_file (file raw) = true
is_file folder = false

-- (OUT / name).read_bytes(), for a name in the directory
unfoldable pub read_file : String → Directory → Option String
read_file name out = elim (get name out) [
  | none ↦ none
  | some e ↦ elim e [ file raw ↦ some raw | folder ↦ none ]
]

abbrev pub is_product : String × Entry → Bool
is_product entry = is_file entry.1 && not (entry.0 == result_name)

-- The names of the files that a snippet left.
unfoldable pub produced : Directory → List String
unfolding sorted
produced out = sorted (map (λ e. e.0) (filter is_product out))

-- What the files stand for after the stale ones are unlinked.
unfoldable pub unlink_stale : Directory → Directory
unlink_stale out = filter (λ e. not (is_file e.1)) out

pub write_inputs : Dict String String → Dict String String → Dict String String
write_inputs [] input = input
write_inputs ((name, content) ∷ inputs) input = write_inputs inputs (put name content input)

-- RESULT.write_text, which raises where a folder has the name
write_result : String → Directory → Directory
write_result text out = elim (get result_name out) [
  | none ↦ put result_name (file text) out
  | some e ↦ elim e [ file raw ↦ put result_name (file text) out | folder ↦ out ]
]

module _ (python : Python) where
  unfoldable pub result_of : Option String → String → String → Directory → Result
  unfolding take_text produced
  result_of error stdout stderr out = record {
    is_ok = not (is_some error);
    error = error;
    stdout = take_text max_stdout_chars stdout;
    stderr = take_text max_stdout_chars stderr;
    files = produced out;
  }

  -- The end of runner.py's main: whether the time is over, and the directory.
  record_result : Ended → Bool × Directory
  unfolding write_result result_of
  record_result (finished error stdout stderr out) =
      (false, write_result (python.dumps (result_of error stdout stderr out)) out)
  record_result (killed out) = (false, out)
  record_result (running out) = (true, out)

  -- artifacts, by reading each file: none where one is missing
  unfoldable pub collect :
      List String → Directory → Dict String String → Option (Dict String String)
  unfolding read_file
  collect [] out artifacts = some artifacts
  collect (name ∷ names) out artifacts = elim (read_file name out) [
    | none ↦ none
    | some raw ↦ collect names out (put name (python.b64encode raw) artifacts)
  ]

  with_artifacts : Result → Option (Dict String String) → Option Reply
  with_artifacts result none = none
  with_artifacts result (some artifacts) = some (result_reply result artifacts)

  reply_loaded : Directory → Loaded → Option Reply
  unfolding with_artifacts collect
  reply_loaded out (unreadable e) = some (failed_reply (text_append "no result produced: " e))
  reply_loaded out other_value = none
  reply_loaded out (loaded r) = with_artifacts r (collect r.files out [])

  -- What is answered after the process; none stands for an exception of the handler, which sends no
  -- reply.
  reply_after : Bool × Directory → Option Reply
  unfolding reply_loaded read_file
  reply_after (true, out) = some (failed_reply "timed out after 90s")
  reply_after (false, out) = elim (read_file result_name out) [
    | none ↦ some (failed_reply (text_append "no result produced: " python.missing_result))
    | some text ↦ reply_loaded out (python.loads text)
  ]

  -- A job, from the clearing of the directory on.
  run_body : Body → Workspace → Option Reply × Workspace
  unfolding unlink_stale write_inputs record_result reply_after
  run_body (malformed e) w = (some (error_reply 400 (text_append "malformed job: " e)), w)
  run_body (no_object text) w =
      let out = unlink_stale w.out in
      (reply_after (false, out), record { input = put "job.json" text w.input; out = out })
  run_body (job code inputs) w =
      let input = write_inputs inputs (put "job.json" (python.dumps_job code inputs) w.input) in
      let ended = record_result (python.snippet code input (unlink_stale w.out)) in
      (reply_after ended, record { input = input; out = ended.1 })

  run_length : ContentLength → Body → Workspace → Option Reply × Workspace
  unfolding run_body
  run_length not_a_number body w = (none, w)
  run_length negative body w = run_body body w
  run_length (bytes n) body w =
      if ltb max_body_bytes n then (some (error_reply 413 "job too large"), w) else run_body body w

  unfoldable pub do_post : Request → Workspace → Option Reply × Workspace
  unfolding run_length
  do_post request w =
      if request.path == "/run"
      then run_length request.content_length request.body w
      else (some (error_reply 404 "not found"), w)
