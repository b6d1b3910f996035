-- ===== src/Documents/Tests.antt =====
-- The chunks of a small file.
use meetings.Prelude.{String, ◌≡◌, refl, List, [], ◌∷◌}
use meetings.Text.{is_space}
use meetings.Documents.{process_pages, indices}

abbrev halves : String → List String
halves s = s ∷ s ∷ []

abbrev same : String → String
same s = s

abbrev three_pages : List (String × String)
three_pages = ("1", "one") ∷ ("2", " ") ∷ ("3", "three") ∷ []

three_pages-indices : indices (process_pages halves same "d" three_pages) ≡ 0 ∷ 1 ∷ 2 ∷ 3 ∷ []
unfolding process_pages is_space
three_pages-indices = refl
