-- ===== src/Corpus.antt =====
-- sandbox/corpus/server.py: a search of the fixed corpus. str.lower is a parameter, and a character of
-- `[a-z0-9]` is one of its codes.
pub mod Ranked
mod Tests
use meetings.Prelude.{
  ℕ, zero, suc, String, ◌==◌, Bool, true, false, not, ◌&&◌, ◌||◌, Option, none, some, List, [], ◌∷◌,
  filter, map, take, elem, length, leb, ltb, min, if◌then◌else◌, nat_eq,
}
use meetings.Prelude.Order.{sorted_set}
use Prim.Native.String.{count, ◌++◌ as text_append}
use meetings.Text.{runs, take_text}

abbrev pub stopwords : List String
stopwords =
    "a" ∷ "an" ∷ "and" ∷ "are" ∷ "as" ∷ "at" ∷ "be" ∷ "by" ∷ "for" ∷ "from" ∷ "has" ∷ "how" ∷ "in"
    ∷ "is" ∷ "it" ∷ "its" ∷ "of" ∷ "on" ∷ "or" ∷ "that" ∷ "the" ∷ "to" ∷ "was" ∷ "were" ∷ "what"
    ∷ "when" ∷ "where" ∷ "which" ∷ "who" ∷ "will" ∷ "with" ∷ []

pub record Article : Type 0 where
  pub id : String
  pub title : String
  pub source : String
  pub date : String
  pub text : String

-- A result of the search.
pub record Result : Type 0 where
  pub id : String
  pub title : String
  pub source : String
  pub date : String
  pub excerpt : String
  pub score : ℕ

is_term_character : ℕ → Bool
is_term_character c = (leb 97 c && leb c 122) || (leb 48 c && leb c 57)

is_term : String → Bool
is_term t = not (elem t stopwords) && ltb 2 (count t)

module _ (lower : String → String) where
  -- _terms, each once
  unfoldable pub terms : String → List String
  unfolding is_term_character is_term meetings.Text.runs_from sorted_set
  terms text = sorted_set (filter is_term (runs is_term_character (lower text)))

  unfoldable pub shared_terms : List String → Article → ℕ
  unfolding terms
  shared_terms wanted doc =
      let haystack = terms (text_append doc.title (text_append " " doc.text)) in
      length (filter (λ t. elem t haystack) wanted)

  -- The documents that share a term, with how many they share.
  unfoldable pub scored : List String → List Article → List (ℕ × Article)
  unfolding shared_terms
  scored wanted [] = []
  scored wanted (d ∷ ds) =
      let rest = scored wanted ds in
      if nat_eq (shared_terms wanted d) 0 then rest else (shared_terms wanted d, d) ∷ rest

  insert_scored : ℕ × Article → List (ℕ × Article) → List (ℕ × Article)
  insert_scored p [] = p ∷ []
  insert_scored p (q ∷ qs) =
      let rest = q ∷ insert_scored p qs in if leb q.0 p.0 then p ∷ q ∷ qs else rest

  -- scored.sort(key=score, reverse=True), which keeps the order of equal scores
  unfoldable pub sort_scored : List (ℕ × Article) → List (ℕ × Article)
  unfolding insert_scored
  sort_scored [] = []
  sort_scored (p ∷ ps) = insert_scored p (sort_scored ps)

  article_result : ℕ × Article → Result
  unfolding take_text
  article_result (score, d) = record {
    id = d.id;
    title = d.title;
    source = d.source;
    date = d.date;
    excerpt = take_text 600 d.text;
    score = score;
  }

  ranked : ℕ → List String → List Article → List Result
  unfolding article_result sort_scored scored
  ranked top_k [] corpus = []
  ranked top_k (w ∷ wanted) corpus =
      map article_result (take top_k (sort_scored (scored (w ∷ wanted) corpus)))

  -- search, for a top_k that is not negative
  unfoldable pub search : List Article → String → ℕ → List Result
  unfolding ranked terms
  search corpus query top_k = ranked top_k (terms query) corpus
