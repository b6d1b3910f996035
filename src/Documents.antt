-- ===== src/Documents.antt =====
-- backend/app/services/document_processing.py: a file's chunks. The pages' texts, which come of a PDF
-- reader or a decoder, the text splitter and str.lower are parameters.
mod Tests
use meetings.Prelude.{
  ℕ, zero, suc, ◌+◌, String, ◌≡◌, refl, ap, ◌∙◌, ◌==◌, Bool, true, false, Option, none, some, List,
  [], ◌∷◌, ◌++◌, map, length, if◌then◌else◌, if_cases, arith,
}
use meetings.Text.{strip}
use meetings.Internal.Search.{DocumentChunk}

module _ (split : String → List String) (lower : String → String) (document_id : String) where
  chunk_of : ℕ → String → String → DocumentChunk
  chunk_of index page text = record {
    document_id = document_id;
    chunk_index = index;
    page_number = some page;
    text = text;
    normalized_text = some (lower text);
    embedding = none;
  }

  -- The chunks of one page, then what `next` gives from the index after them.
  page_chunks : ℕ → String → List String → (ℕ → List DocumentChunk) → List DocumentChunk
  unfolding chunk_of
  page_chunks index page [] next = next index
  page_chunks index page (t ∷ texts) next =
      chunk_of index page t ∷ page_chunks (suc index) page texts next

  chunks_from : ℕ → List (String × String) → List DocumentChunk
  unfolding page_chunks strip
  chunks_from index [] = []
  chunks_from index ((page, text) ∷ pages) =
      page_chunks index page (if strip text == "" then [] else split text)
        (λ n. chunks_from n pages)

  -- process_file_content, after the pages are extracted
  unfoldable pub process_pages : List (String × String) → List DocumentChunk
  unfolding chunks_from
  process_pages pages = chunks_from 0 pages

-- zip(chunks, embeddings, strict=True): no rows if the lengths differ, which raises.
unfoldable pub with_embeddings : List DocumentChunk → List String → Option (List DocumentChunk)
with_embeddings [] [] = some []
with_embeddings [] (e ∷ es) = none
with_embeddings (c ∷ cs) [] = none
with_embeddings (c ∷ cs) (e ∷ es) = elim (with_embeddings cs es) [
  | none ↦ none
  | some rows ↦ some (record c { embedding = some e } ∷ rows)
]

-- process_document_background: the rows that are added; an exception is logged and adds none.
unfoldable pub process_document :
    (List String → Option (List String)) → List DocumentChunk → List DocumentChunk
unfolding with_embeddings
process_document embed [] = []
process_document embed (c ∷ cs) = elim (embed (map (λ d. d.text) (c ∷ cs))) [
  | none ↦ []
  | some embeddings ↦ elim (with_embeddings (c ∷ cs) embeddings) [ none ↦ [] | some rows ↦ rows ]
]

-- n, n + 1, ... for `count` numbers
abbrev pub count_from : ℕ → ℕ → List ℕ
count_from n zero = []
count_from n (suc k) = n ∷ count_from (suc n) k

abbrev pub indices : List DocumentChunk → List ℕ
indices cs = map (λ c. c.chunk_index) cs

module _ (split : String → List String) (lower : String → String) (document_id : String) where
  page_indices :
      (index : ℕ) (page : String) (texts : List String) (next : ℕ → List DocumentChunk)
      → ((n : ℕ) → indices (next n) ≡ count_from n (length (next n)))
      → indices (page_chunks split lower document_id index page texts next)
        ≡ count_from index (length (page_chunks split lower document_id index page texts next))
  unfolding page_chunks chunk_of
  page_indices index page [] next h = h index
  page_indices index page (t ∷ texts) next h =
      ap (λ xs. index ∷ xs) (page_indices (suc index) page texts next h)

  chunks_indices :
      (index : ℕ) (pages : List (String × String))
      → indices (chunks_from split lower document_id index pages)
        ≡ count_from index (length (chunks_from split lower document_id index pages))
  unfolding chunks_from
  chunks_indices index [] = refl
  chunks_indices index ((page, text) ∷ pages) =
      page_indices index page (if strip text == "" then [] else split text)
        (λ n. chunks_from split lower document_id n pages) (λ n. chunks_indices n pages)

-- The indices of a document's chunks, over all its pages, count from zero without a gap, whatever the
-- splitter makes of a page.
pub process_pages-indices :
    (split : String → List String) (lower : String → String) (document_id : String)
    (pages : List (String × String))
    → indices (process_pages split lower document_id pages)
      ≡ count_from 0 (length (process_pages split lower document_id pages))
unfolding process_pages
process_pages-indices split lower document_id pages = chunks_indices split lower document_id 0 pages
