-- ===== src/Clustering/Features.antt =====
-- The records of backend/app/clustering/engine.py. Identifiers (UUIDs) are numbers: the code only
-- compares them. A text is the list of its code points. Times are microseconds, as in Jobs/Leasing.
use newsintel.Prelude.{ℕ, ◌*◌, Option, List}

abbrev pub Word : Type 0
Word = List ℕ

pub record ArticleFeatures : Type 0 where
  pub article_id : ℕ
  pub title : List ℕ
  pub normalized_title_hash : ℕ
  pub effective_date : ℕ
  pub entity_ids : List ℕ
  pub feed_ids : List ℕ
  pub terms : List Word

pub record ScoredCandidate (F : Type 0) : Type 0 where
  pub features : ArticleFeatures
  pub score : F

pub record ClusterSummary : Type 0 where
  pub id : ℕ
  pub created_at : ℕ
  pub article_count : ℕ

pub record ClusterStatistics : Type 0 where
  pub article_count : ℕ
  pub source_count : ℕ
  pub first_published_at : Option ℕ
  pub last_published_at : Option ℕ
  pub representative_article_id : Option ℕ

-- `CLUSTER_TIME_WINDOW = timedelta(hours=48)`
abbrev pub cluster_time_window : ℕ
cluster_time_window = 48 * 3600 * 1_000_000

abbrev pub cluster_candidate_limit : ℕ
cluster_candidate_limit = 200

abbrev pub cluster_minimum_shared_entities : ℕ
cluster_minimum_shared_entities = 2

abbrev pub cluster_minimum_shared_terms : ℕ
cluster_minimum_shared_terms = 4

abbrev pub cluster_term_candidate_limit : ℕ
cluster_term_candidate_limit = 100

abbrev pub term_overlap_floor : ℕ
term_overlap_floor = 12

abbrev pub term_overlap_ceiling : ℕ
term_overlap_ceiling = 25

abbrev pub term_weight_minimum_window : ℕ
term_weight_minimum_window = 100

abbrev pub lede_word_limit : ℕ
lede_word_limit = 80

abbrev pub term_minimum_length : ℕ
term_minimum_length = 3

abbrev pub term_maximum_length : ℕ
term_maximum_length = 64
