-- ===== src/Meetings/Documents.antt =====
-- backend/app/api/routes/meetings.py: create_meeting with the documents of its template, and
-- add_existing_document_to_meeting. The ids of new rows are drawn by the database layer: `fresh`
-- gives the n-th of a request.
pub mod Clones
use meetings.Prelude.{
  ℕ, zero, suc, String, ◌==◌, Bool, true, false, not, Option, none, some, List, [], ◌∷◌, ◌++◌, map,
  filter, find?, any, elem, if◌then◌else◌,
}
use meetings.Dict.{Dict, get, put, string_eq}
use meetings.Internal.{Answer, error, success, http_error}
use meetings.Internal.Search.{Document, DocumentChunk, Library}
use meetings.Meetings.{Meeting}

-- A meeting's row, with the documents of its brief.
pub record Brief : Type 0 where
  pub meeting : Meeting
  pub uploaded_brief_docs : List String

pub record Store : Type 0 where
  pub meetings : Dict String Brief
  pub library : Library

-- The chunks of a document.
abbrev pub chunks_of : String → Library → List DocumentChunk
chunks_of id l = filter (λ c. c.document_id == id) l.chunks

abbrev pub find_document : String → Library → Option Document
find_document id l = find? (λ d. d.id == id) l.documents

abbrev pub belonging_to : String → DocumentChunk → DocumentChunk
belonging_to id c = record c { document_id = id }

-- A copy of the document and of its chunks.
unfoldable pub clone_document :
    String → String → Option String → String → Document → Library → Library
clone_document new_id scope owner meeting_id doc l = record {
  documents =
      l.documents
      ++ record {
        id = new_id;
        document_name = doc.document_name;
        library_scope = scope;
        owner_agent_id = owner;
        meeting_id = some meeting_id;
        file_type = doc.file_type;
        metadata_json = doc.metadata_json;
      }
        ∷ [];
  chunks = l.chunks ++ map (belonging_to new_id) (chunks_of doc.id l);
}

-- add_existing_document_to_meeting
unfoldable pub add_existing_document :
    String → String → String → String → Option String → Store → Answer String × Store
unfolding clone_document
add_existing_document new_id meeting_id document_id scope owner s =
    elim (get meeting_id s.meetings) [
      | none ↦ (http_error 404 "Meeting not found", s)
      | some b ↦ elim (find_document document_id s.library) [
        | none ↦ (http_error 404 "Document not found", s)
        | some doc ↦ (
          success new_id,
          record {
            meetings =
                put meeting_id
                  (record b { uploaded_brief_docs = b.uploaded_brief_docs ++ new_id ∷ [] })
                  s.meetings;
            library = clone_document new_id scope owner meeting_id doc s.library;
          },
        )
      ]
    ]

-- A template's document becomes a document of the meeting, unless it is not the company's.
abbrev pub cloned_scope : String → String
cloned_scope scope = if scope == "company" then "meeting" else scope

module _ (fresh : ℕ → String) (meeting_id : String) where
  -- The documents of the template that exist, cloned; their ids are added to the brief's.
  unfoldable pub clone_defaults : ℕ → List String → List String → Library → List String × Library
  unfolding clone_document
  clone_defaults n [] docs l = (docs, l)
  clone_defaults n (id ∷ ids) docs l = elim (find_document id l) [
    | none ↦ clone_defaults n ids docs l
    | some doc ↦ clone_defaults (suc n) ids (docs ++ fresh n ∷ []) (
        clone_document (fresh n) (cloned_scope doc.library_scope) doc.owner_agent_id meeting_id doc
          l)
  ]

  abbrev is_busy : String × Brief → Bool
  is_busy row = elem row.1.meeting.status ("running" ∷ "queued" ∷ [])

  abbrev pub new_meeting : Meeting
  new_meeting = record {
    status = "draft";
    terminated = false;
    meeting_log = [];
    final_summary = none;
  }

  -- create_meeting, where `defaults` are the documents of its template
  unfoldable pub create_meeting : List String → List String → Store → Answer String × Store
  unfolding clone_defaults
  create_meeting uploaded defaults s =
      let (docs, library) = clone_defaults 0 defaults uploaded s.library in
      if any is_busy s.meetings
      then (http_error 400 "Cannot start a new meeting. Another meeting is currently active.", s)
      else (
        success meeting_id,
        record {
          meetings =
              put meeting_id (record { meeting = new_meeting; uploaded_brief_docs = docs })
                s.meetings;
          library = library;
        },
      )
