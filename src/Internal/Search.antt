-- ===== src/Internal/Search.antt =====
-- backend/app/services/vector_search.py and the retrieval of api/routes/internal.py. The embedding of a
-- query, or the exception of asking for it, is a parameter; so is the distance of a chunk's embedding
-- to the query's, a natural number. Chunks at the same distance stay in their order. A limit below 0
-- is refused like 0. So is uuid.UUID: the canonical text of what it accepts; the text of its
-- exception is left out of an error.
pub mod Scoped
use Prim.Native.String.{count}
use meetings.Prelude.{
  ℕ, zero, suc, ◌≤◌, min, String, ◌≡◌, refl, ◌==◌, eq_iff, Bool, true, false, not, ◌&&◌, ◌||◌,
  Option, none, some, List, [], ◌∷◌, ◌++◌, map, filter, take, any, elem, length, All, arith,
  if◌then◌else◌, leb,
}
use meetings.Internal.{SandboxIdentity, HttpError, Answer, error, success, http_error, present}

-- Document (models/documents.py)
pub record Document : Type 0 where
  pub id : String
  pub document_name : String
  pub library_scope : String
  pub owner_agent_id : Option String
  pub meeting_id : Option String
  pub file_type : Option String
  pub metadata_json : String

-- DocumentChunk
pub record DocumentChunk : Type 0 where
  pub document_id : String
  pub chunk_index : ℕ
  pub page_number : Option String
  pub text : String
  pub normalized_text : Option String
  pub embedding : Option String

pub record Library : Type 0 where
  pub documents : List Document
  pub chunks : List DocumentChunk

abbrev pub Hit : Type 0
Hit = DocumentChunk × Document

-- The join of the chunks with their documents.
chunk_hits : List Document → DocumentChunk → List Hit
chunk_hits documents chunk =
    map (λ d. (chunk, d)) (filter (λ d. chunk.document_id == d.id) documents)

unfoldable pub joined : List Document → List DocumentChunk → List Hit
unfolding chunk_hits
joined documents [] = []
joined documents (c ∷ cs) = chunk_hits documents c ++ joined documents cs

abbrev pub is_the : Option String → String → Bool
is_the none s = false
is_the (some t) s = t == s

abbrev pub agent_filter : Option String → List (Document → Bool)
agent_filter none = []
agent_filter (some a) = (λ d. d.library_scope == "agent" && is_the d.owner_agent_id a) ∷ []

abbrev pub meeting_filter : Option String → List (Document → Bool)
meeting_filter none = []
meeting_filter (some m) = (λ d. d.library_scope == "meeting" && is_the d.meeting_id m) ∷ []

-- The filters of the scopes that are asked for.
unfoldable pub scope_filters : List String → Option String → Option String → List (Document → Bool)
scope_filters scopes meeting_id owner_agent_id =
    (if elem "company" scopes then (λ d. d.library_scope == "company") ∷ [] else [])
    ++ ((if elem "agent" scopes then agent_filter owner_agent_id else [])
        ++ (if elem "meeting" scopes then meeting_filter meeting_id else []))

-- query.where(or_(*filters)), if there are filters
unfoldable pub where_any : List (Document → Bool) → List Hit → List Hit
where_any [] hits = hits
where_any (f ∷ fs) hits = filter (λ h. any (λ g. g h.1) (f ∷ fs)) hits

module _ (distance : DocumentChunk → ℕ) where
  insert_hit : Hit → List Hit → List Hit
  insert_hit h [] = h ∷ []
  insert_hit h (k ∷ ks) =
      let rest = k ∷ insert_hit h ks in
      if leb (distance h.0) (distance k.0) then h ∷ k ∷ ks else rest

  -- ORDER BY the distance
  unfoldable pub order_by : List Hit → List Hit
  unfolding insert_hit
  order_by [] = []
  order_by (h ∷ hs) = insert_hit h (order_by hs)

  unfoldable pub semantic_search :
      List String → ℕ → Library → Option String → Option String → List Hit
  unfolding order_by where_any scope_filters joined
  semantic_search scopes limit l meeting_id owner_agent_id = take limit (
      order_by
        (where_any (scope_filters scopes meeting_id owner_agent_id) (joined l.documents l.chunks)))

-- An entry of the evidence.
pub record Evidence : Type 0 where
  pub document_name : String
  pub document_id : String
  pub library_scope : String
  pub page_number : Option String
  pub text : String

unfoldable pub evidence_of : Hit → Evidence
evidence_of (chunk, doc) = record {
  document_name = doc.document_name;
  document_id = doc.id;
  library_scope = doc.library_scope;
  page_number = chunk.page_number;
  text = chunk.text;
}

abbrev pub max_retrieval_limit : ℕ
max_retrieval_limit = 20

abbrev pub allowed_scopes : List String
allowed_scopes = "company" ∷ "meeting" ∷ "agent" ∷ []

-- uuid.UUID(x) if x else None
pub data Parsed : Type 0 where
  malformed : Parsed
  parsed : Option String → Parsed

unfoldable pub parse_id : (String → Option String) → Option String → Parsed
parse_id uuid label = elim (present label) [
  | none ↦ parsed none
  | some s ↦ elim (uuid s) [ none ↦ malformed | some u ↦ parsed (some u) ]
]

abbrev pub malformed_identity : Answer (List Evidence)
malformed_identity = http_error 400 "Malformed identity"

-- RetrievalRequest: the fields that are read
pub record RetrievalRequest : Type 0 where
  pub query : String
  pub scopes : List String
  pub limit : ℕ

-- The bounds of its fields.
unfoldable pub request_fits : RetrievalRequest → Bool
request_fits r =
    leb 1 (count r.query)
    && leb (count r.query) 2000
    && leb 1 r.limit
    && leb r.limit max_retrieval_limit

-- generate_embedding: an exception that no handler of the route takes, or the embedding.
pub data Embedded : Type 0 where
  failed : String → Embedded
  embedding : String → Embedded

module _ (embed : String → Embedded) (distance : String → DocumentChunk → ℕ)
    (uuid : String → Option String) where
  -- semantic_search, from its call of generate_embedding on
  search_embedded :
      List String → ℕ → Library → Option String → Option String → Embedded → Answer (List Evidence)
  unfolding semantic_search evidence_of
  search_embedded scopes limit l meeting agent (failed e) = http_error 500 "Internal Server Error"
  search_embedded scopes limit l meeting agent (embedding v) = success (
      map evidence_of
        (semantic_search (distance v) scopes (min limit max_retrieval_limit) l meeting agent))

  search_as : String → List String → ℕ → Library → Parsed → Parsed → Answer (List Evidence)
  unfolding search_embedded
  search_as query scopes limit l (parsed meeting) (parsed agent) =
      search_embedded scopes limit l meeting agent (embed query)
  search_as query scopes limit l malformed _ = malformed_identity
  search_as query scopes limit l (parsed m) malformed = malformed_identity

  scoped : String → List String → ℕ → Library → SandboxIdentity → Answer (List Evidence)
  unfolding search_as parse_id
  scoped query [] limit l identity = http_error 400 "No valid library scopes requested"
  scoped query (s ∷ scopes) limit l identity =
      search_as query (s ∷ scopes) limit l (parse_id uuid identity.meeting_id)
        (parse_id uuid identity.agent_id)

  -- retrieval_search: the ids in the body are not read.
  unfoldable pub retrieval_search :
      RetrievalRequest → Library → SandboxIdentity → Answer (List Evidence)
  unfolding scoped request_fits
  retrieval_search r l identity =
      if request_fits r
      then scoped r.query (filter (λ s. elem s allowed_scopes) r.scopes) r.limit l identity
      else http_error 422 "Unprocessable Entity"
