-- ===== src/Meetings/Documents/Clones.antt =====
-- The copies of documents that a meeting gets.
use meetings.Prelude.{String, ◌≡◌, ◌==◌, false, All}
use meetings.Internal.Search.{Library}

-- No chunk belongs to a document of this id.
abbrev pub IsUnused : String → Library → Type 0
IsUnused id l = All (λ c. (c.document_id == id) ≡ false) l.chunks
