-- ===== src/Runtime/Tools/Retrieval.antt =====
-- sandbox/runtime/runtime/tools/retrieval.py: the scopes of a search, and how its results are told.
-- The backend is a parameter: the results of the request, or an exception. So is str.isdigit.
use Prim.Native.String.{◌++◌ as text_append}
use meetings.Prelude.{String, Bool, ◌&&◌, Option, List, [], ◌∷◌, ◌++◌, map, if◌then◌else◌, or_text}
use meetings.Text.{join}
use meetings.Internal.Search.{Evidence}

-- What the backend answers.
pub data SearchReply : Type 0 where
  unavailable : String → SearchReply
  results : List Evidence → SearchReply

unfoldable pub search_scopes : Bool → Bool → Bool → List String
search_scopes company private library_access =
    (if company && library_access then "company" ∷ "meeting" ∷ [] else [])
    ++ (if private then "agent" ∷ [] else [])

module _ (isdigit : String → Bool) where
  location : Option String → String
  location page =
      let told = or_text page "?" in if isdigit told then text_append "p." told else told

  excerpt_of : Evidence → String
  unfolding location join
  excerpt_of e = join "" (
      "Source: "
      ∷ e.document_name
      ∷ " "
      ∷ location e.page_number
      ∷ "\nExcerpt: \""
      ∷ e.text
      ∷ "\"\nScope: "
      ∷ e.library_scope
      ∷ [])

  told_results : SearchReply → String
  unfolding excerpt_of
  told_results (unavailable e) = text_append "Retrieval is unavailable: " e
  told_results (results []) = "No matching documents found."
  told_results (results (e ∷ es)) = join "\n\n---\n\n" (map excerpt_of (e ∷ es))

  searched_in : (List String → SearchReply) → List String → String
  unfolding told_results
  searched_in backend [] = "No libraries are available to you."
  searched_in backend (s ∷ scopes) = told_results (backend (s ∷ scopes))

  -- retrieve_documents
  unfoldable pub retrieve_documents : (List String → SearchReply) → Bool → Bool → Bool → String
  unfolding searched_in search_scopes
  retrieve_documents backend library_access company private =
      searched_in backend (search_scopes company private library_access)
