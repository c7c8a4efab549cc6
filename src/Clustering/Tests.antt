-- ===== src/Clustering/Tests.antt =====
-- Runs of backend/app/clustering/engine.py on a small archive, and its theorems there.
use newsintel.Clustering.Assign.Valid.{IsValid}
use newsintel.Clustering.Assign.Covers.{place-reindex}
use newsintel.Clustering.Scoring.Bounds.{score_articles_bounds}
use newsintel.Clustering.Wording.Stems.{stem_bounds}
use newsintel.Clustering.Ranking.{rank_candidates, is_eligible, shares_source}
use newsintel.Clustering.Ranking.Order.{
  IsMatch, rank_candidates-IsMatch, rank_candidates-IsSorted, rank_candidates_complete,
  ranks_at_least,
}
use newsintel.Prelude.Sort.{IsSorted}
use newsintel.Clustering.Scoring.{score_articles, term_weights}
use newsintel.Prelude.Text.{codes}
use newsintel.Prelude.{
  ℕ, ◌+◌, ◌*◌, ◌≤◌, ◌≡◌, refl, true, Option, none, some, List, [], ◌∷◌, arith, ◌==◌, ==_iff,
  Bool-cases, inl, inr, All, any, member, length, map, if◌then◌else◌, ◌&&◌, leb,
}
use newsintel.Clustering.Features.{ArticleFeatures, ScoredCandidate}
use newsintel.Clustering.Wording.{Unicode, stem, title_tokens, lede_terms}
use newsintel.Clustering.Store.{Store, StoryCluster, StoryClusterMember, member_ids, store_terms}
use newsintel.Clustering.Assign.{
  place, assign, Assignment, ranked_matches, join, leave, settle, choose_base, merge, finish,
  put_member, put_rows, summary_of, absorb_all, refresh_all, leave_row, found_cluster,
}
use newsintel.Clustering.Fixed.{fixed, fixed-IsRounded}

-- ASCII capitals fold, and ASCII letters are the letters.
abbrev ascii : Unicode
ascii = record {
  casefold = map (λ c. if leb b'A' c && leb c b'Z' then c + 32 else c);
  is_letter = λ c. leb b'a' c && leb c b'z';
}

abbrev hour : ℕ
hour = 3_600_000_000

abbrev article : ℕ → ℕ → List ℕ → List ℕ → ArticleFeatures
article id at entities feeds = record {
  article_id = id;
  title = codes "Harbour strike ends";
  normalized_title_hash = 5;
  effective_date = at;
  entity_ids = entities;
  feed_ids = feeds;
  terms = [];
}

abbrev first : ArticleFeatures
first = article 1 (10 * hour) (71 ∷ 72 ∷ []) (91 ∷ [])

abbrev second_article : ArticleFeatures
second_article = article 2 (11 * hour) (71 ∷ 72 ∷ []) (92 ∷ [])

abbrev third : ArticleFeatures
third = article 3 (12 * hour) (72 ∷ 71 ∷ []) (93 ∷ [])

abbrev row : ℕ → ℕ → StoryClusterMember ℕ
row a c = record { article_id = a; cluster_id = c; score = 0; algorithm_version = "rule-2" }

abbrev cluster : StoryCluster
cluster = record {
  id = 10;
  algorithm_version = "rule-2";
  article_count = 2;
  source_count = 2;
  first_published_at = some (10 * hour);
  last_published_at = some (11 * hour);
  representative_article_id = some 1;
  created_at = 0;
}

abbrev store : Store ℕ
store = record {
  articles = first ∷ second_article ∷ third ∷ [];
  clusters = cluster ∷ [];
  members = row 1 10 ∷ row 2 10 ∷ [];
  terms = [];
}

abbrev matches : List (ScoredCandidate ℕ)
matches = record { features = second_article; score = 9_000 } ∷ []

stems :
    (stem (codes "votes") ≡ codes "vot")
    × (stem (codes "voted") ≡ codes "vot")
    × (stem (codes "voting") ≡ codes "vot")
    × (stem (codes "planned") ≡ codes "plan")
    × (stem (codes "called") ≡ codes "call")
    × (stem (codes "cities") ≡ codes "city")
unfolding stem
stems = (refl, refl, refl, refl, refl, refl)

title_tokens-ascii :
    title_tokens ascii (codes "The A-4 Strike") (codes "the" ∷ [])
    ≡ codes "a" ∷ codes "4" ∷ codes "strike" ∷ []
unfolding title_tokens
title_tokens-ascii = refl

-- The whole of `assign`: article 3 matches both members and joins their cluster.
abbrev assigned : Option (Assignment ℕ × Store ℕ)
assigned =
    assign fixed ascii (record { stop_words = []; document = λ _. codes "Harbour strike ends" })
      store 3 77 0

abbrev reindexed : Option (Assignment ℕ × Store ℕ) → List ℕ
reindexed none = []
reindexed (some (a, _)) = a.reindex_article_ids

abbrev placed_in : Option (Assignment ℕ × Store ℕ) → Option ℕ
placed_in none = none
placed_in (some (a, _)) = a.cluster_id

assign-third : (placed_in assigned ≡ some 10) × (reindexed assigned ≡ 1 ∷ 2 ∷ 3 ∷ [])
unfolding assign lede_terms store_terms ranked_matches place join leave settle choose_base merge
    finish put_member put_rows shares_source score_articles term_weights summary_of absorb_all
    refresh_all leave_row found_cluster title_tokens
assign-third = (refl, refl)

stem_bounds_example : (2 ≤ length (stem (codes "voting"))) × (length (stem (codes "voting")) ≤ 6)
stem_bounds_example = stem_bounds (codes "voting") (omega arith)

score_articles_bounds_example :
    let score =
      score_articles fixed ascii first third [] (term_weights fixed ((codes "strike", 2) ∷ []) 3) in
    (leb 0 score ≡ true) × (leb score 10_000 ≡ true)
score_articles_bounds_example =
    score_articles_bounds fixed fixed-IsRounded ascii first third [] ((codes "strike", 2) ∷ []) 3

rank_candidates-IsSorted_example :
    IsSorted
      (ranks_at_least fixed fixed-IsRounded.ordered third)
      (rank_candidates fixed ascii third (first ∷ second_article ∷ []) [] [] 4_500)
rank_candidates-IsSorted_example =
    rank_candidates-IsSorted fixed fixed-IsRounded.ordered third ascii (first ∷ second_article ∷ [])
      [] [] 4_500

rank_candidates-IsMatch_example :
    All
      (IsMatch fixed ascii third [] [] 4_500)
      (rank_candidates fixed ascii third (first ∷ second_article ∷ []) [] [] 4_500)
rank_candidates-IsMatch_example =
    rank_candidates-IsMatch fixed ascii third [] [] 4_500 (first ∷ second_article ∷ [])

rank_candidates_complete_example :
    any
      (λ item. item.features.article_id == 2)
      (rank_candidates fixed ascii third (first ∷ second_article ∷ []) [] [] 4_500)
    ≡ any
        (λ c.
          c.article_id == 2
          && (is_eligible third c && leb 4_500 (score_articles fixed ascii third c [] [])))
        (first ∷ second_article ∷ [])
rank_candidates_complete_example =
    rank_candidates_complete fixed ascii third [] [] 4_500 2 (first ∷ second_article ∷ [])

store-IsValid : IsValid store
unfolding member_ids
store-IsValid = record {
  unique = (refl, (refl, tt));
  known = λ a c. ground arith;
  sized = λ c. elim (Bool-cases (10 == c)) [
    | inl e ↦ rw (← ((==_iff 10 c).0 e)) (omega arith, refl)
    | inr e ↦ rw e tt
  ];
}

-- Article 3 moves into cluster 10, which is refreshed.
abbrev placed : Option (Assignment ℕ × Store ℕ)
placed = place 0 store 3 matches 77 0

-- The new row of article 3 and the refreshed cluster.
abbrev placed_store : Store ℕ
placed_store = record store {
  members =
      row 1 10
      ∷ row 2 10
      ∷ record { article_id = 3; cluster_id = 10; score = 9_000; algorithm_version = "rule-2" }
      ∷ [];
  clusters =
      record cluster { article_count = 3; source_count = 3; last_published_at = some (12 * hour) }
      ∷ [];
}

abbrev assignment : Assignment ℕ
assignment = record {
  article_id = 3;
  cluster_id = some 10;
  score = 9_000;
  version = "rule-2";
  reindex_article_ids = 1 ∷ 2 ∷ 3 ∷ [];
  merged_cluster_ids = [];
}

place-third : place 0 store 3 matches 77 0 ≡ some (assignment, placed_store)
unfolding place join leave settle choose_base merge finish put_member put_rows summary_of absorb_all
    refresh_all leave_row found_cluster title_tokens
place-third = refl

place-reindex_example : member 3 assignment.reindex_article_ids ≡ true
place-reindex_example =
    place-reindex 0 store 3 matches 77 0 assignment placed_store 3 10 store-IsValid
      ((λ e. absurd (omega arith)), tt) place-third (λ e. cc)
