-- ===== src/ExecPython/Tests.antt =====
-- Examples of the job server of a code-execution sandbox (sandbox/exec-python).
use meetings.Prelude.{
  String, ◌==◌, ◌≡◌, ◌≢◌, refl, sym, ap, true, none, some, [], ◌∷◌, arith, if◌then◌else◌,
}
use meetings.Dict.{Dict, get, put, has_key, string_eq, HasUniqueKeys}
use meetings.Text.{take_text}
use meetings.ExecPython.{
  file, folder, Directory, Workspace, Result, job, loaded, Python, finished, killed, Request, bytes,
  result_reply, result_name, read_file, result_of, do_post,
}
use meetings.ExecPython.Artifacts.{encoded, IsReport, do_post-finished}

abbrev drawn : Directory
drawn = ("chart.png", file "png") ∷ ("cache", folder) ∷ []

abbrev drawn_result : Result
drawn_result = record {
  is_ok = true;
  error = none;
  stdout = "ok";
  stderr = "";
  files = "chart.png" ∷ [];
}

-- A snippet that draws a chart.
abbrev drawing : Python
drawing = record {
  snippet = λ code input out. finished none "ok" "" drawn;
  dumps_job = λ code inputs. code;
  dumps = λ r. "{}";
  loads = λ t. loaded drawn_result;
  b64encode = λ t. t;
  missing_result = "missing";
}

abbrev dirty : Workspace
dirty = record {
  input = [];
  out = ("secret.txt", file "of another job") ∷ (result_name, file "{}") ∷ [];
}

abbrev fresh : Workspace
fresh = record { input = []; out = [] }

abbrev draw : Request
draw = record { path = "/run"; content_length = bytes 10; body = job "plot()" [] }

drawn_read : result_of drawing none "ok" "" drawn ≡ drawn_result
unfolding result_of take_text
drawn_read = refl

drawn-HasUniqueKeys : HasUniqueKeys drawn
unfolding has_key
drawn-HasUniqueKeys = (refl, (refl, tt))

no_folder : get result_name drawn ≢ some folder
unfolding get
no_folder = cc

do_post-finished_example :
    (r : Result) × (d : Dict String String) × ((do_post drawing draw dirty).0
      ≡ some (result_reply r d))
    × IsReport none "ok" "" drawn r
    × ((name : String)
        → get name d
          ≡ (if name == result_name then none else encoded drawing (read_file name drawn)))
do_post-finished_example =
    do_post-finished drawing 10 "plot()" [] dirty none "ok" "" drawn (omega arith)
      (sym (ap loaded drawn_read)) refl no_folder drawn-HasUniqueKeys

-- A snippet that writes the result's file itself and ends its process: what it wrote is believed.
abbrev forging : Python
forging = record drawing {
  snippet = λ code input out. killed ((result_name, file "{}") ∷ ("chart.png", file "png") ∷ []);
}

forged :
    (do_post forging draw fresh).0 ≡ some (result_reply drawn_result (("chart.png", "png") ∷ []))
unfolding do_post get put
forged = refl

-- A result whose files cannot be read has no reply.
abbrev lying : Python
lying = record drawing { snippet = λ code input out. killed ((result_name, file "{}") ∷ []) }

unanswered : (do_post lying draw fresh).0 ≡ none
unfolding do_post get put
unanswered = refl
