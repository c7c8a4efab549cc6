-- ===== src/Clustering/Ranking.antt =====
-- backend/app/clustering/engine.py: which candidates an article is compared with and in what order,
-- which cluster survives a merge, and the facts of a cluster.
pub mod Order
pub mod Facts
use newsintel.Prelude.{
  ℕ, Bool, not, ◌&&◌, ◌||◌, Option, none, some, List, [], ◌∷◌, map, leb, ltb, ◌==◌, length, keep,
}
use newsintel.Prelude.Sets.{nat_eq, word_eq, inter, union}
use newsintel.Prelude.Sort.{sort_by}
use newsintel.Clustering.Numbers.{Floats}
use newsintel.Clustering.Features.{
  Word, ArticleFeatures, ScoredCandidate, ClusterSummary, ClusterStatistics,
}
use newsintel.Clustering.Wording.{Unicode}
use newsintel.Clustering.Scoring.{gap, Weights, score_articles}

-- `bool(target.feed_ids & candidate.feed_ids)`
unfoldable pub shares_source : ArticleFeatures → ArticleFeatures → Bool
shares_source target candidate = not (length (inter target.feed_ids candidate.feed_ids) == 0)

-- `a < b or (a == b and then)`: one place of a comparison of tuples.
abbrev pub lex : ℕ → ℕ → Bool → Bool
lex a b rest = ltb a b || (a == b && rest)

-- The candidates that are other articles of other outlets.
abbrev pub is_eligible : ArticleFeatures → ArticleFeatures → Bool
is_eligible target candidate =
    not (candidate.article_id == target.article_id) && not (shares_source target candidate)

module _ (fl : Floats) where
  -- The order of the key (-score, distance in time, article id).
  unfoldable pub candidate_le : ArticleFeatures → ScoredCandidate fl.F → ScoredCandidate fl.F → Bool
  unfolding gap
  candidate_le target a b =
      not (fl.le a.score b.score)
      || (fl.le b.score a.score
          && lex (gap a.features.effective_date target.effective_date)
              (gap b.features.effective_date target.effective_date)
              (leb a.features.article_id b.features.article_id))

  unfoldable pub score_candidate :
      Unicode → ArticleFeatures → List Word → Weights fl → ArticleFeatures → ScoredCandidate fl.F
  score_candidate u target stop_words weights c = record {
    features = c;
    score = score_articles fl u target c stop_words weights;
  }

  -- The eligible candidates that reach the threshold, in the order in which they are read.
  abbrev pub scored_candidates :
      Unicode
      → ArticleFeatures
      → List ArticleFeatures
      → List Word
      → Weights fl
      → fl.F
      → List (ScoredCandidate fl.F)
  scored_candidates u target candidates stop_words weights threshold =
      keep (λ item. fl.le threshold item.score)
        (map (score_candidate u target stop_words weights) (keep (is_eligible target) candidates))

  -- `threshold` is an argument, CLUSTER_SCORE_THRESHOLD = 0.45 by default.
  unfoldable pub rank_candidates :
      Unicode
      → ArticleFeatures
      → List ArticleFeatures
      → List Word
      → Weights fl
      → fl.F
      → List (ScoredCandidate fl.F)
  unfolding candidate_le score_candidate
  rank_candidates u target candidates stop_words weights threshold =
      sort_by (candidate_le target)
        (scored_candidates u target candidates stop_words weights threshold)

-- The order of the key (-article_count, created_at, id).
unfoldable pub summary_le : ClusterSummary → ClusterSummary → Bool
summary_le a b = lex b.article_count a.article_count (lex a.created_at b.created_at (leb a.id b.id))

abbrev pub head? {ℓ} : {A : Type ℓ} → List A → Option A
head? [] = none
head? (x ∷ _) = some x

abbrev pub last_of : ArticleFeatures → List ArticleFeatures → ArticleFeatures
last_of x [] = x
last_of x (y ∷ ys) = last_of y ys

-- `sorted(…)[0]`; `none` stands for the IndexError on no cluster.
unfoldable pub select_survivor : List ClusterSummary → Option ClusterSummary
unfolding summary_le
select_survivor clusters = head? (sort_by summary_le clusters)

-- The order of the key (effective_date, article_id).
unfoldable pub row_le : ArticleFeatures → ArticleFeatures → Bool
row_le a b = lex a.effective_date b.effective_date (leb a.article_id b.article_id)

-- `for row in rows: sources |= row.feed_ids`
abbrev pub sources_of : List ℕ → List ArticleFeatures → List ℕ
sources_of sources [] = sources
sources_of sources (row ∷ rows) = sources_of (union sources row.feed_ids) rows

abbrev statistics_of : List ArticleFeatures → ClusterStatistics
statistics_of [] = record {
  article_count = 0;
  source_count = 0;
  first_published_at = none;
  last_published_at = none;
  representative_article_id = none;
}
statistics_of (row ∷ rows) = record {
  article_count = length (row ∷ rows);
  source_count = length (sources_of [] (row ∷ rows));
  first_published_at = some row.effective_date;
  last_published_at = some (last_of row rows).effective_date;
  representative_article_id = some row.article_id;
}

unfoldable pub cluster_statistics : List ArticleFeatures → ClusterStatistics
unfolding row_le
cluster_statistics members = statistics_of (sort_by row_le members)
