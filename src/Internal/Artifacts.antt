-- ===== src/Internal/Artifacts.antt =====
-- backend/app/api/routes/internal.py: the artifacts and the action items of a meeting. uuid.UUID is a
-- parameter: the canonical text of what it accepts. A new row's id is drawn by the database layer.
use meetings.Prelude.{
  String, ◌≡◌, ◌==◌, eq_refl, Bool, false, not, Option, none, some, List, [], ◌∷◌, ◌++◌,
  if◌then◌else◌, arith, ap, ◌∙◌,
}
use meetings.Dict.{Dict, get, put, string_eq, get-put}
use meetings.Internal.{SandboxIdentity, Answer, success, http_error, present}

-- Artifact (models/artifacts.py)
pub record Artifact : Type 0 where
  pub meeting_id : String
  pub agent_id : Option String
  pub kind : String
  pub title : String
  pub mime_type : String
  pub body : String
  pub profile : Option String

-- ActionItem (models/artifacts.py)
pub record ActionItem : Type 0 where
  pub meeting_id : String
  pub raised_by_agent_id : Option String
  pub owner_agent_id : Option String
  pub text : String
  pub due : Option String

pub record Tables : Type 0 where
  pub artifacts : Dict String Artifact
  pub action_items : List ActionItem

pub record ArtifactCreate : Type 0 where
  pub meeting_id : String
  pub kind : String
  pub title : String
  pub mime_type : String
  pub body : String

pub record ActionItemCreate : Type 0 where
  pub meeting_id : String
  pub text : String
  pub owner : Option String
  pub due : Option String

-- The data of read_artifact's answer.
pub record ArtifactView : Type 0 where
  pub id : String
  pub kind : String
  pub title : String
  pub mime_type : String
  pub body : String

abbrev or_claimed : Option String → String → String
or_claimed none claimed = claimed
or_claimed (some m) claimed = m

abbrev view_of : String → Artifact → ArtifactView
view_of id a = record {
  id = id;
  kind = a.kind;
  title = a.title;
  mime_type = a.mime_type;
  body = a.body;
}

abbrev is_other : Option String → String → Bool
is_other none m = false
is_other (some own) m = not (m == own)

abbrev artifact_of : String → Option String → ArtifactCreate → SandboxIdentity → Artifact
artifact_of m author payload identity = record {
  meeting_id = m;
  agent_id = author;
  kind = payload.kind;
  title = payload.title;
  mime_type = payload.mime_type;
  body = payload.body;
  profile = identity.profile;
}

module _ (uuid : String → Option String) where
  -- _meeting_uuid
  unfoldable pub meeting_uuid : SandboxIdentity → String → Option String
  meeting_uuid identity claimed = uuid (or_claimed (present identity.meeting_id) claimed)

  -- uuid.UUID(identity.agent_id) if identity.agent_id else None, with whether it raises
  unfoldable pub author_of : SandboxIdentity → Option (Option String)
  author_of identity = elim (present identity.agent_id) [
    | none ↦ some none
    | some a ↦ elim (uuid a) [ none ↦ none | some u ↦ some (some u) ]
  ]

  stored :
      String
      → ArtifactCreate
      → SandboxIdentity
      → Option String
      → Option (Option String)
      → Tables
      → Answer String × Tables
  stored id payload identity none author t = (http_error 400 "Malformed meeting id", t)
  stored id payload identity (some m) none t = (http_error 500 "Internal Server Error", t)
  stored id payload identity (some m) (some author) t = (
    success id,
    record t { artifacts = put id (artifact_of m author payload identity) t.artifacts },
  )

  -- create_artifact, where the row's id is `id`
  unfoldable pub create_artifact :
      String → ArtifactCreate → SandboxIdentity → Tables → Answer String × Tables
  unfolding stored meeting_uuid author_of
  create_artifact id payload identity t =
      stored id payload identity (meeting_uuid identity payload.meeting_id) (author_of identity) t

  recorded :
      String
      → ActionItemCreate
      → Option String
      → Option (Option String)
      → Tables
      → Answer String × Tables
  recorded id payload none author t = (http_error 400 "Malformed meeting id", t)
  recorded id payload (some m) none t = (http_error 500 "Internal Server Error", t)
  recorded id payload (some m) (some author) t = (
    success id,
    record t {
      action_items =
          t.action_items
          ++ record {
            meeting_id = m;
            raised_by_agent_id = author;
            owner_agent_id = none;
            text = payload.text;
            due = payload.due;
          }
            ∷ [];
    },
  )

  -- create_action_item
  unfoldable pub create_action_item :
      String → ActionItemCreate → SandboxIdentity → Tables → Answer String × Tables
  unfolding recorded meeting_uuid author_of
  create_action_item id payload identity t =
      recorded id payload (meeting_uuid identity payload.meeting_id) (author_of identity) t

unfoldable pub read_artifact : String → SandboxIdentity → Tables → Answer ArtifactView
read_artifact id identity t = elim (get id t.artifacts) [
  | none ↦ http_error 404 "Artifact not found"
  | some a ↦
      if is_other (present identity.meeting_id) a.meeting_id
      then http_error 403 "Artifact belongs to another meeting"
      else success (view_of id a)
]

read_found :
    (id : String) (reader : SandboxIdentity) (read_as : String) (t : Tables) (a : Artifact)
    → get id t.artifacts ≡ some a
    → present reader.meeting_id ≡ some read_as
    → read_artifact id reader t ≡ (
        if a.meeting_id == read_as
        then success (view_of id a)
        else http_error 403 "Artifact belongs to another meeting")
unfolding read_artifact
read_found id reader read_as t a e d = ground (arith, e, d)

create_stored :
    (uuid : String → Option String) (id own m : String) (author : Option String)
    (payload : ArtifactCreate) (i : SandboxIdentity) (t : Tables)
    → present i.meeting_id ≡ some own
    → uuid own ≡ some m
    → author_of uuid i ≡ some author
    → create_artifact uuid id payload i t ≡ stored uuid id payload i (some m) (some author) t
unfolding create_artifact meeting_uuid
create_stored uuid id own m author payload i t a b c =
    ap (λ o. stored uuid id payload i (uuid (or_claimed o payload.meeting_id)) (author_of uuid i) t)
      a
    ∙ (ap (λ o. stored uuid id payload i o (author_of uuid i) t) b
        ∙ ap (λ o. stored uuid id payload i (some m) o t) c)

pub create_success :
    (uuid : String → Option String) (id own m : String) (author : Option String)
    (payload : ArtifactCreate) (i : SandboxIdentity) (t : Tables)
    → present i.meeting_id ≡ some own
    → uuid own ≡ some m
    → author_of uuid i ≡ some author
    → (create_artifact uuid id payload i t).0 ≡ success id
unfolding stored
create_success uuid id own m author payload i t a b c =
    ap (λ r. r.0) (create_stored uuid id own m author payload i t a b c)

-- A sandbox whose labels name a meeting and an agent stores an artifact, whatever meeting the body
-- claims; then any sandbox reads it. One of the same meeting gets what was stored, one of another
-- meeting gets status 403.
pub create_artifact-read_artifact :
    (uuid : String → Option String) (id own m : String) (author : Option String)
    (payload : ArtifactCreate) (i : SandboxIdentity) (reader : SandboxIdentity) (read_as : String)
    (t : Tables)
    → present i.meeting_id ≡ some own
    → uuid own ≡ some m
    → author_of uuid i ≡ some author
    → present reader.meeting_id ≡ some read_as
    → read_artifact id reader (create_artifact uuid id payload i t).1 ≡ (
        if m == read_as
        then success (record {
          id = id;
          kind = payload.kind;
          title = payload.title;
          mime_type = payload.mime_type;
          body = payload.body;
        })
        else http_error 403 "Artifact belongs to another meeting")
unfolding stored
create_artifact-read_artifact uuid id own m author payload i reader read_as t a b c d =
    ap (λ r. read_artifact id reader r.1) (create_stored uuid id own m author payload i t a b c)
    ∙ read_found id reader read_as (stored uuid id payload i (some m) (some author) t).1
        (artifact_of m author payload i)
        (get-put id id (artifact_of m author payload i) t.artifacts
          ∙ ap (λ b. if b then some (artifact_of m author payload i) else get id t.artifacts)
              (eq_refl id))
        d
