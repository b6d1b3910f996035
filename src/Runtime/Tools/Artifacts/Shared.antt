-- ===== src/Runtime/Tools/Artifacts/Shared.antt =====
-- An artifact that one persona drafts with its tool (tools/artifacts.py) and another one reads.
use Prim.Native.String.{◌++◌ as text_append}
use meetings.Prelude.{
  ℕ, String, ◌==◌, ◌≡◌, refl, ap, Bool, true, false, Option, some, if◌then◌else◌,
}
use meetings.Internal.{SandboxIdentity, success, http_error, present}
use meetings.Internal.Artifacts.{
  Tables, ArtifactCreate, ArtifactView, author_of, create_artifact, create_success, read_artifact,
  create_artifact-read_artifact,
}
use meetings.Runtime.Tools.Artifacts.{
  works, artifact_fits, artifact_request, draft_artifact, read_back, post_artifact, received,
  reached, told_draft, told_read,
}

-- What the tool tells of a draft that the backend took, and the tables that it leaves.
abbrev told :
    (ℕ → String)
    → (String → Option String)
    → SandboxIdentity
    → ArtifactCreate
    → String
    → String
    → Tables
    → String × Tables
told status_error uuid identity payload id title t = (
  told_draft status_error title
      (received status_error works (create_artifact uuid id payload identity t).0),
  (create_artifact uuid id payload identity t).1,
)

module _ (status_error : ℕ → String) (uuid : String → Option String) where
  -- A draft whose fields fit is handed to the backend.
  draft_posted :
      (identity : SandboxIdentity) (meeting_id id title markdown kind : String) (t : Tables)
      → artifact_fits (artifact_request meeting_id title markdown kind) ≡ true
      → draft_artifact status_error uuid works identity meeting_id id title markdown kind t
        ≡ told status_error uuid identity
            (artifact_request meeting_id title markdown kind)
            id
            title
            t
  unfolding draft_artifact post_artifact reached
  draft_posted identity meeting_id id title markdown kind t fits = rw fits refl

  read_answer :
      (reader : SandboxIdentity) (id title markdown : String) (t : Tables) (a : ArtifactView)
      (own : Bool)
      → a.title ≡ title
      → a.body ≡ markdown
      → read_artifact id reader t
        ≡ (if own then success a else http_error 403 "Artifact belongs to another meeting")
      → read_back status_error uuid works reader id t ≡ (
          if own
          then text_append title (text_append "\n\n" markdown)
          else text_append "Could not read artifact "
              (text_append id (text_append ": " (status_error 403))))
  unfolding read_back received told_read
  read_answer reader id title markdown t a true p q e = rw (e, p, q) refl
  read_answer reader id title markdown t a false p q e = rw e refl

  -- A persona's sandbox, whose labels name its agent and its meeting, drafts an artifact whose fields
  -- are within the limits, whatever meeting its tool was built for; the network works. The tool tells
  -- the artifact's id and title, and any persona's tool that then reads the id tells the title and the
  -- text if its sandbox is of the same meeting, and a refusal if it is of another one.
  pub draft_artifact-read_back :
      (identity reader : SandboxIdentity) (own read_as m : String) (author : Option String)
      (meeting_id id title markdown kind : String) (t : Tables)
      → artifact_fits (artifact_request meeting_id title markdown kind) ≡ true
      → present identity.meeting_id ≡ some own
      → uuid own ≡ some m
      → author_of uuid identity ≡ some author
      → present reader.meeting_id ≡ some read_as
      → let drafted =
          draft_artifact status_error uuid works identity meeting_id id title markdown kind t in
        (drafted.0 ≡ text_append "Saved as artifact " (text_append id (text_append ": " title)))
        × (read_back status_error uuid works reader id drafted.1 ≡ (
            if m == read_as
            then text_append title (text_append "\n\n" markdown)
            else text_append "Could not read artifact "
                (text_append id (text_append ": " (status_error 403)))))
  unfolding told_draft received
  draft_artifact-read_back identity reader own read_as m author meeting_id id title markdown kind t
        fits a b c d =
      let payload = artifact_request meeting_id title markdown kind in
      rw (draft_posted identity meeting_id id title markdown kind t fits) (
        ap (λ x. told_draft status_error title (received status_error works x))
            (create_success uuid id own m author payload identity t a b c),
        read_answer reader id title markdown (create_artifact uuid id payload identity t).1
            (record {
              id = id;
              kind = kind;
              title = title;
              mime_type = "text/markdown";
              body = markdown;
            })
            (m == read_as) refl refl
            (create_artifact-read_artifact uuid id own m author payload identity reader read_as t a
              b c d),
      )
