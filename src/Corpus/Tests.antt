-- ===== src/Corpus/Tests.antt =====
-- A search of a corpus of two articles.
use meetings.Prelude.{String, ◌≡◌, refl, List, [], ◌∷◌, map}
use meetings.Corpus.{Article, search}

abbrev lower_case : String → String
lower_case s = s

abbrev two_articles : List Article
two_articles =
    record { id = "a"; title = "cloud costs"; source = "s"; date = "d"; text = "cloud spend" }
    ∷ record { id = "b"; title = "cloud risk"; source = "s"; date = "d"; text = "audit of risk" }
    ∷ []

best_first : map (λ r. r.id) (search lower_case two_articles "the cloud risk" 3) ≡ "b" ∷ "a" ∷ []
unfolding search
best_first = refl
