-- ===== src/Internal/Search/Scoped.antt =====
-- retrieval_search (api/routes/internal.py) and semantic_search (services/vector_search.py): a persona
-- of a meeting finds only what it may read.
use Prim.Native.String.{count}
use meetings.Prelude.{
  ◌<◌, ◌≤◌, String, ◌≡◌, ◌==◌, Bool, true, ◌&&◌, ◌||◌, List, [], map, filter, elem, length, All,
}
use meetings.Internal.{error, Answer, success}
use meetings.Internal.Search.{
  Document, Hit, Evidence, is_the, evidence_of, allowed_scopes, RetrievalRequest, Embedded, failed,
}

-- What a persona of a meeting may read: the company's documents, its own, and its meeting's.
abbrev pub is_readable : String → String → Document → Bool
is_readable agent meeting d =
    d.library_scope == "company"
    || ((d.library_scope == "agent" && is_the d.owner_agent_id agent)
        || (d.library_scope == "meeting" && is_the d.meeting_id meeting))

-- Every document that the filter lets through is readable.
abbrev LetsReadable : String → String → (Document → Bool) → Type 0
LetsReadable agent meeting f = (d : Document) → f d ≡ true → is_readable agent meeting d ≡ true

-- A hit whose document is readable.
abbrev pub IsReadableHit : String → String → Hit → Type 0
IsReadableHit agent meeting h = is_readable agent meeting h.1 ≡ true

-- The scopes that are known, in the order in which they are asked for.
abbrev pub known_scopes : List String → List String
known_scopes scopes = filter (λ s. elem s allowed_scopes) scopes

-- Why a request is refused: a query or a limit out of bounds, no known scope, or no embedding of the
-- query.
pub data IsRefused (embed : String → Embedded) (r : RetrievalRequest) : Type 0 where
  no_query : count r.query ≡ 0 → IsRefused embed r
  long_query : 2000 < count r.query → IsRefused embed r
  no_limit : r.limit ≡ 0 → IsRefused embed r
  high_limit : 20 < r.limit → IsRefused embed r
  no_scope : known_scopes r.scopes ≡ [] → IsRefused embed r
  no_embedding : (e : String) → embed r.query ≡ failed e → IsRefused embed r

-- The evidence of readable hits, at most as many as are asked for, or a refusal with a reason.
pub IsScoped :
    (String → Embedded) → RetrievalRequest → String → String → Answer (List Evidence) → Type 0
IsScoped embed r agent meeting (error e) = IsRefused embed r
IsScoped embed r agent meeting (success es) =
    (hits : List Hit) × (es ≡ map evidence_of hits)
    × All (IsReadableHit agent meeting) hits
    × (length hits ≤ r.limit)
    × (length hits ≤ 20)
