-- ===== src/Corpus/Ranked.antt =====
-- The order and the number of the corpus's results.
use meetings.Prelude.{
  ℕ, zero, suc, ◌≤◌, ◌≡◌, refl, String, List, [], ◌∷◌, map, take, All, All-take, length,
  length-take-le, leb, leb→le, leb→lt, arith, if_cases,
}
use meetings.Corpus.{
  Article, Result, terms, scored, insert_scored, sort_scored, article_result, ranked, search,
}

-- No result has a higher score than one before it.
pub IsDescending : List Result → Type 0
IsDescending [] = Unit
IsDescending (r ∷ rs) = All (λ s. s.score ≤ r.score) rs × IsDescending rs

abbrev IsSorted : List (ℕ × Article) → Type 0
IsSorted [] = Unit
IsSorted (p ∷ ps) = All (λ q. q.0 ≤ p.0) ps × IsSorted ps

module _ (lower : String → String) where
  insert_scored-All :
      (P : ℕ × Article → Type 0) (p : ℕ × Article) (ps : List (ℕ × Article))
      → P p
      → All P ps
      → All P (insert_scored lower p ps)
  unfolding insert_scored
  insert_scored-All P p [] h hs = (h, tt)
  insert_scored-All P p (q ∷ qs) h hs =
      if_cases (All P) (leb q.0 p.0) (λ _. (h, hs)) (λ _. (hs.0, insert_scored-All P p qs h hs.1))

  below :
      (n m : ℕ) (ps : List (ℕ × Article)) → n ≤ m → All (λ q. q.0 ≤ n) ps → All (λ q. q.0 ≤ m) ps
  below n m [] l h = tt
  below n m (p ∷ ps) l h = (omega (arith, l, h.0), below n m ps l h.1)

  insert_scored-IsSorted :
      (p : ℕ × Article) (ps : List (ℕ × Article))
      → IsSorted ps
      → IsSorted (insert_scored lower p ps)
  unfolding insert_scored
  insert_scored-IsSorted p [] h = (tt, tt)
  insert_scored-IsSorted p (q ∷ qs) h =
      if_cases IsSorted (leb q.0 p.0)
        (λ y. ((leb→le q.0 p.0 y, below q.0 p.0 qs (leb→le q.0 p.0 y) h.0), h))
        (λ n. (
          insert_scored-All (λ r. r.0 ≤ q.0) p qs (omega (arith, leb→lt q.0 p.0 n)) h.0,
          insert_scored-IsSorted p qs h.1,
        ))

  sort_scored-IsSorted : (ps : List (ℕ × Article)) → IsSorted (sort_scored lower ps)
  unfolding sort_scored
  sort_scored-IsSorted [] = tt
  sort_scored-IsSorted (p ∷ ps) =
      insert_scored-IsSorted p (sort_scored lower ps) (sort_scored-IsSorted ps)

  take-IsSorted : (n : ℕ) (ps : List (ℕ × Article)) → IsSorted ps → IsSorted (take n ps)
  take-IsSorted zero ps h = tt
  take-IsSorted (suc n) [] h = tt
  take-IsSorted (suc n) (p ∷ ps) h = (All-take (λ q. q.0 ≤ p.0) n ps h.0, take-IsSorted n ps h.1)

  results_below :
      (n : ℕ) (ps : List (ℕ × Article))
      → All (λ q. q.0 ≤ n) ps
      → All (λ s. s.score ≤ n) (map (article_result lower) ps)
  unfolding article_result
  results_below n [] h = tt
  results_below n (p ∷ ps) h = (h.0, results_below n ps h.1)

  results-IsDescending :
      (ps : List (ℕ × Article)) → IsSorted ps → IsDescending (map (article_result lower) ps)
  unfolding IsDescending article_result
  results-IsDescending [] h = tt
  results-IsDescending (p ∷ ps) h = (results_below p.0 ps h.0, results-IsDescending ps h.1)

  length-map : (ps : List (ℕ × Article)) → length (map (article_result lower) ps) ≡ length ps
  length-map [] = refl
  length-map (p ∷ ps) = omega (arith, length-map ps)

  ranked-IsDescending :
      (top_k : ℕ) (wanted : List String) (corpus : List Article)
      → IsDescending (ranked lower top_k wanted corpus)
        × length (ranked lower top_k wanted corpus) ≤ top_k
  unfolding ranked IsDescending
  ranked-IsDescending top_k [] corpus = (tt, omega arith)
  ranked-IsDescending top_k (w ∷ wanted) corpus =
      let found = sort_scored lower (scored lower (w ∷ wanted) corpus) in
      (
        results-IsDescending (take top_k found)
            (take-IsSorted top_k found (sort_scored-IsSorted (scored lower (w ∷ wanted) corpus))),
        omega (arith, length-map (take top_k found), length-take-le top_k found),
      )

  -- Whatever the corpus and the query, the results come in the order of their scores, the highest
  -- first, and there are at most as many as are asked for.
  pub search-IsDescending :
      (corpus : List Article) (query : String) (top_k : ℕ)
      → IsDescending (search lower corpus query top_k)
        × length (search lower corpus query top_k) ≤ top_k
  unfolding search
  search-IsDescending corpus query top_k = ranked-IsDescending top_k (terms lower query) corpus
