-- ===== src/Clustering/Assign/Valid.antt =====
-- What the tables of clusters and members satisfy between assignments
-- (backend/app/clustering/engine.py, models.py).
use newsintel.Prelude.{ℕ, ◌≤◌, ◌≡◌, true, not, ◌||◌, Option, none, some, List, map, length, is_some}
use newsintel.Prelude.Sets.{nat_eq, Distinct}
use newsintel.Clustering.Features.{ArticleFeatures}
use newsintel.Clustering.Store.{Store, StoryCluster, member_ids, load_features, find_cluster}
use newsintel.Clustering.Assign.Rows.{has}

-- A cluster holds two articles or more, and its cached size is what `cluster_statistics` counts.
abbrev pub Fits : List ArticleFeatures → List ℕ → Option StoryCluster → Type 0
Fits articles ids none = Unit
Fits articles ids (some c) =
    (2 ≤ length ids) × (c.article_count ≡ length (load_features articles ids))

module _ {F : Type 0} where
  pub record IsValid (store : Store F) : Type 0 where
    -- `story_cluster_members.article_id` is the key.
    pub unique : Distinct (map (λ m. m.article_id) store.members)
    -- Every member's cluster exists.
    pub known : (a c : ℕ) → (not (has store.members a c) || is_some (find_cluster store c)) ≡ true
    pub sized : (c : ℕ) → Fits store.articles (member_ids store c) (find_cluster store c)
