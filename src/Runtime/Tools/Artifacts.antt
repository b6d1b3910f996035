-- ===== src/Runtime/Tools/Artifacts.antt =====
-- sandbox/runtime/runtime/tools/artifacts.py: drafting and reading artifacts and recording action
-- items, over the backend's internal API (backend/app/api/routes/internal.py), whose handlers check the
-- limits of the request's fields first. The network is a parameter, and so is httpx's text for a status.
pub mod Shared
use Prim.Native.String.{count, ◌++◌ as text_append}
use meetings.Prelude.{ℕ, String, ◌==◌, Bool, ◌&&◌, Option, none, some, leb, if◌then◌else◌}
use meetings.Internal.{SandboxIdentity, Answer, error, success, http_error}
use meetings.Internal.Artifacts.{
  Tables, ArtifactCreate, ActionItemCreate, ArtifactView, create_artifact, create_action_item,
  read_artifact,
}

-- A request reaches the backend and its answer comes back, it does not reach it, or the answer is lost.
pub data Network : Type 0 where
  works : Network
  down : String → Network
  answer_lost : String → Network

-- The limits of ArtifactCreate and of ActionItemCreate.
unfoldable pub artifact_fits : ArtifactCreate → Bool
artifact_fits a =
    leb (count a.kind) 32
    && ((leb 1 (count a.title) && leb (count a.title) 255)
        && (leb (count a.mime_type) 128 && leb (count a.body) 8000000))

unfoldable pub item_fits : ActionItemCreate → Bool
item_fits a = leb 1 (count a.text) && leb (count a.text) 4000

abbrev pub artifact_request : String → String → String → String → ArtifactCreate
artifact_request meeting_id title markdown kind = record {
  meeting_id = meeting_id;
  kind = kind;
  title = title;
  mime_type = "text/markdown";
  body = markdown;
}

abbrev given : String → Option String
given s = if s == "" then none else some s

abbrev item_request : String → String → String → String → ActionItemCreate
item_request meeting_id text owner due = record {
  meeting_id = meeting_id;
  text = text;
  owner = given owner;
  due = given due;
}

-- What the tool has of a request: an exception's text, or the data.
pub data Got {ℓ} (A : Type ℓ) : Type ℓ where
  failed : String → Got A
  got : A → Got A

module _ (status_error : ℕ → String) where
  -- raise_for_status and the data of the answer
  received {ℓ} : {A : Type ℓ} → Network → Answer A → Got A
  received works (error e) = failed (status_error e.status_code)
  received works (success a) = got a
  received (down e) answer = failed e
  received (answer_lost e) answer = failed e

  -- The tables after a request that would leave the second.
  reached : Network → Tables → Tables → Tables
  reached works before after = after
  reached (down e) before after = before
  reached (answer_lost e) before after = after

  told_draft : String → Got String → String
  told_draft title (failed e) = text_append "Could not save the artifact: " e
  told_draft title (got id) =
      text_append "Saved as artifact " (text_append id (text_append ": " title))

  told_read : String → Got ArtifactView → String
  told_read id (failed e) =
      text_append "Could not read artifact " (text_append id (text_append ": " e))
  told_read id (got a) = text_append a.title (text_append "\n\n" a.body)

  told_item : String → String → Got String → String
  told_item text owner (failed e) = text_append "Could not record the action: " e
  told_item text owner (got id) =
      text_append (text_append "Recorded: " text)
        (if owner == "" then "" else text_append " (owner: " (text_append owner ")"))

  module _ (uuid : String → Option String) (network : Network) (identity : SandboxIdentity) where
    post_artifact : String → ArtifactCreate → Tables → Answer String × Tables
    unfolding artifact_fits
    post_artifact id a t =
        if artifact_fits a
        then create_artifact uuid id a identity t
        else (http_error 422 "Unprocessable Entity", t)

    -- draft_artifact, where the row's id is `id`
    unfoldable pub draft_artifact :
        String → String → String → String → String → Tables → String × Tables
    unfolding post_artifact received reached told_draft
    draft_artifact meeting_id id title markdown kind t =
        let posted = post_artifact id (artifact_request meeting_id title markdown kind) t in
        (told_draft title (received network posted.0), reached network t posted.1)

    -- The tool read_artifact.
    unfoldable pub read_back : String → Tables → String
    unfolding received told_read
    read_back id t = told_read id (received network (read_artifact id identity t))

    post_item : String → ActionItemCreate → Tables → Answer String × Tables
    unfolding item_fits
    post_item id a t =
        if item_fits a
        then create_action_item uuid id a identity t
        else (http_error 422 "Unprocessable Entity", t)

    -- record_action_item
    unfoldable pub record_action_item :
        String → String → String → String → String → Tables → String × Tables
    unfolding post_item received reached told_item
    record_action_item meeting_id id text owner due t =
        let posted = post_item id (item_request meeting_id text owner due) t in
        (told_item text owner (received network posted.0), reached network t posted.1)
