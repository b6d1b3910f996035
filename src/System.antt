-- ===== src/System.antt =====
-- backend/app/api/routes/system.py: the status that the setup guard polls, with check_db_ready of
-- core/database.py. What the database and an endpoint answer are parameters, and so is str.lower.
pub mod Ready
mod Tests
use Prim.Native.Char.{code}
use Prim.Native.String.{String, [], ◌∷◌, ◌++◌}
use meetings.Prelude.{
  ℕ, ◌==◌, Bool, true, false, not, ◌&&◌, ◌||◌, Option, none, some, List, elem, any, take, nat_eq,
  if◌then◌else◌,
}
use meetings.Text.{contains, is_some, take_text, join, decimal}
use meetings.Internal.{present}

-- name.split(":", 1)[0]
unfoldable pub untagged : String → String
untagged [] = []
untagged (c ∷ s) = let rest = c ∷ untagged s in if nat_eq (code c) 58 then [] else rest

-- Whether the loop of _model_is_served stops at a name.
unfoldable pub matches : String → String → Bool
unfolding untagged contains
matches wanted name =
    let tagged = contains ":" wanted in
    let same = untagged name == untagged wanted in
    ((tagged || contains ":" name) && (same && not (tagged && contains ":" name))) || same

-- _model_is_served
unfoldable pub model_is_served : String → List String → Bool
unfolding matches
model_is_served wanted available = elem wanted available || any (matches wanted) available

-- An entry of an endpoint's list: a name, an object with its id, or what has no `get`.
pub data Served : Type 0 where
  named : String → Served
  identified : Option String → Served
  opaque : String → Served

-- The JSON of an endpoint's answer: an object with its `data` and `models`, or a list.
pub data Listing : Type 0 where
  keyed : Option (List Served) → Option (List Served) → Listing
  listed : List Served → Listing

-- What a request to an endpoint comes to: an exception, a status, or the JSON of status 200.
pub data Fetched : Type 0 where
  raised : String → Fetched
  refused : ℕ → Fetched
  fetched : Listing → Fetched

-- `x or y`, for lists that may be missing.
abbrev or_list : Option (List Served) → List Served → List Served
or_list none other = other
or_list (some List.[]) other = other
or_list (some (List.◌∷◌ x xs)) other = List.◌∷◌ x xs

models_in : Listing → List Served
models_in (keyed d m) = or_list d (or_list m List.[])
models_in (listed l) = l

abbrev or_blank : Option String → String
or_blank none = ""
or_blank (some s) = s

-- The names, or the exception of `m.get`.
pub data Names : Type 0 where
  no_get : String → Names
  names : List String → Names

push_name : String → Names → Names
push_name n (no_get e) = no_get e
push_name n (names ns) = names (List.◌∷◌ n ns)

names_of : List Served → Names
unfolding push_name
names_of List.[] = names List.[]
names_of (List.◌∷◌ (named n) l) = push_name n (names_of l)
names_of (List.◌∷◌ (identified id) l) = push_name (or_blank id) (names_of l)
names_of (List.◌∷◌ (opaque e) l) = no_get e

abbrev connection_failed : String → Bool × String
connection_failed e = (false, "Connection failed: " ++ take_text 60 e)

judged : String → Names → Bool × String
judged model (no_get e) = connection_failed e
judged model (names ns) =
    if model_is_served model ns
    then (true, "Verified")
    else (false, "Model '" ++ (model ++ ("' not served. Available: " ++ join ", " (take 3 ns))))

verified : String → Fetched → Bool × String
unfolding judged names_of models_in
verified model (raised e) = connection_failed e
verified model (refused n) = (false, "HTTP " ++ decimal n)
verified model (fetched l) = judged model (names_of (models_in l))

-- _verify_endpoint
unfoldable pub verify_endpoint : Option String → Option String → Fetched → Bool × String
unfolding verified
verify_endpoint endpoint model_name answer = elim (present endpoint) [
  | none ↦ (false, "Not configured")
  | some e ↦ elim (present model_name) [
    | none ↦ (false, "Not configured")
    | some model ↦ verified model answer
  ]
]

-- The database: no engine, an exception of the count, or the number of personas.
pub data Probe : Type 0 where
  no_engine : Probe
  failed : String → Probe
  personas : ℕ → Probe

-- check_db_ready
unfoldable pub check_db_ready : (String → String) → Probe → String
check_db_ready lower no_engine = "not_configured"
check_db_ready lower (failed e) =
    if contains "does not exist" (lower e)
      || (contains "undefinedtableerror" (lower e) || contains "42p01" (lower e))
    then "no_tables"
    else "error"
check_db_ready lower (personas n) = if nat_eq n 0 then "no_data" else "ready"

-- An endpoint of the settings, and what it answers.
pub record Endpoint : Type 0 where
  pub url : Option String
  pub model_name : Option String
  pub answer : Fetched

pub record Environment : Type 0 where
  pub database_url : Option String
  pub probe : Probe
  pub inference : Endpoint
  pub embedding : Endpoint

pub record Status : Type 0 where
  pub db_configured : Bool
  pub inference_configured : Bool
  pub inference_verified : Bool
  pub inference_status : String
  pub embedding_configured : Bool
  pub embedding_verified : Bool
  pub embedding_status : String
  pub configured : Bool
  pub ready : Bool
  pub reasons : List String
  pub remediation : Option String

abbrev pub remediation_text : String
remediation_text =
    "kubectl -n meetings create secret generic meetings-runtime --from-literal=DATABASE_URL=... --from-literal=INFERENCE_ENDPOINT=... --from-literal=INFERENCE_API_KEY=... --from-literal=INFERENCE_MODEL_NAME=... --from-literal=EMBEDDING_ENDPOINT=... --from-literal=EMBEDDING_API_KEY=... --from-literal=EMBEDDING_MODEL_NAME=... --dry-run=client -o yaml | kubectl apply -f -"

-- _remediation
unfoldable pub remediation_of : List String → Option String
remediation_of List.[] = none
remediation_of (List.◌∷◌ r rs) = some remediation_text

-- inference_configured and embedding_configured of the settings
unfoldable pub endpoint_configured : Endpoint → Bool
endpoint_configured e = is_some (present e.url) && is_some (present e.model_name)

-- Whether the database is ready, and the reason if it is not.
unfoldable pub database_part : (String → String) → Environment → Bool × List String
unfolding check_db_ready
database_part lower env = elim (present env.database_url) [
  | none ↦ (false, List.◌∷◌ "DATABASE_URL is not set" List.[])
  | some url ↦
      if check_db_ready lower env.probe == "ready"
      then (true, List.[])
      else (false, List.◌∷◌ ("Database: " ++ check_db_ready lower env.probe) List.[])
]

-- Whether an endpoint is verified, its status, and the reason if it is not.
unfoldable pub endpoint_part : String → String → Endpoint → Bool × String × List String
unfolding endpoint_configured verify_endpoint
endpoint_part label missing e =
    let (is_verified, status) = verify_endpoint e.url e.model_name e.answer in
    if endpoint_configured e
    then (
      is_verified,
      status,
      (if is_verified then List.[] else List.◌∷◌ (label ++ (": " ++ status)) List.[]),
    )
    else (false, "Not configured", List.◌∷◌ missing List.[])

append : List String → List String → List String
append List.[] ts = ts
append (List.◌∷◌ x xs) ts = List.◌∷◌ x (append xs ts)

-- system_status
unfoldable pub system_status : (String → String) → Environment → Status
unfolding database_part endpoint_part remediation_of append
system_status lower env =
    let (is_ready, db_reasons) = database_part lower env in
    let (inference_ok, inference_status, inference_reasons) =
      endpoint_part "Inference" "INFERENCE_ENDPOINT / INFERENCE_MODEL_NAME are not set"
        env.inference in
    let (embedding_ok, embedding_status, embedding_reasons) =
      endpoint_part "Embedding" "EMBEDDING_ENDPOINT / EMBEDDING_MODEL_NAME are not set"
        env.embedding in
    let reasons = append db_reasons (append inference_reasons embedding_reasons) in
    let configured =
      is_some (present env.database_url)
      && (endpoint_configured env.inference && endpoint_configured env.embedding) in
    record {
      db_configured = is_ready;
      inference_configured = endpoint_configured env.inference;
      inference_verified = inference_ok;
      inference_status = inference_status;
      embedding_configured = endpoint_configured env.embedding;
      embedding_verified = embedding_ok;
      embedding_status = embedding_status;
      configured = configured;
      ready = configured && (is_ready && (inference_ok && embedding_ok));
      reasons = reasons;
      remediation = remediation_of reasons;
    }
