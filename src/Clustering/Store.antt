-- ===== src/Clustering/Store.antt =====
-- The tables that backend/app/clustering/engine.py reads and writes (clustering/models.py), its
-- queries, and the refresh of one cluster. `F` is the type of scores.
use newsintel.Prelude.{
  ℕ, ◌+◌, Bool, true, false, not, ◌&&◌, ◌||◌, Option, none, some, List, [], ◌∷◌, ◌++◌, map, leb,
  ltb, ◌==◌, if◌then◌else◌, length, keep, find, take, update_where, member,
}
use Prim.Native.String.{String}
use newsintel.Prelude.Sets.{nat_eq, word_eq, contains, inter}
use newsintel.Prelude.Sort.{sort_by}
use newsintel.Clustering.Features.{
  Word, ArticleFeatures, ClusterStatistics, cluster_time_window, cluster_candidate_limit,
  cluster_minimum_shared_entities, cluster_minimum_shared_terms, cluster_term_candidate_limit,
}
use newsintel.Clustering.Scoring.{gap}
use newsintel.Clustering.Ranking.{lex, cluster_statistics}

-- A row of `story_clusters`.
pub record StoryCluster : Type 0 where
  pub id : ℕ
  pub algorithm_version : String
  pub article_count : ℕ
  pub source_count : ℕ
  pub first_published_at : Option ℕ
  pub last_published_at : Option ℕ
  pub representative_article_id : Option ℕ
  pub created_at : ℕ

-- A row of `story_cluster_members`.
pub record StoryClusterMember (F : Type 0) : Type 0 where
  pub article_id : ℕ
  pub cluster_id : ℕ
  pub score : F
  pub algorithm_version : String

-- A row of `article_cluster_terms`.
pub record ArticleClusterTerm : Type 0 where
  pub article_id : ℕ
  pub term : Word
  pub effective_at : ℕ

-- `articles` holds, for each article, what `load_features` reads of it: its row joined with its
-- feeds and its current, visible entities of the clustering kinds.
pub record Store (F : Type 0) : Type 0 where
  pub articles : List ArticleFeatures
  pub clusters : List StoryCluster
  pub members : List (StoryClusterMember F)
  pub terms : List ArticleClusterTerm

-- `CLUSTER_ALGORITHM_VERSION`
abbrev pub algorithm_version : String
algorithm_version = "rule-2"

abbrev pub load_features : List ArticleFeatures → List ℕ → List ArticleFeatures
load_features articles ids = keep (λ a. member a.article_id ids) articles

-- `effective >= target - WINDOW and effective <= target + WINDOW`
abbrev pub in_window : ℕ → ℕ → Bool
in_window effective target =
    leb target (effective + cluster_time_window) && leb effective (target + cluster_time_window)

abbrev pub nearer : ArticleFeatures → ArticleFeatures → ArticleFeatures → Bool
nearer target a b =
    lex (gap a.effective_date target.effective_date) (gap b.effective_date target.effective_date)
      (leb a.article_id b.article_id)

-- The articles in the window with the same title hash, or with two or more of the target's
-- entities; the nearest 200.
unfoldable pub candidate_ids : List ArticleFeatures → ArticleFeatures → List ℕ
unfolding gap
candidate_ids articles target =
    map (λ a. a.article_id)
      (take cluster_candidate_limit (
        sort_by (nearer target) (
          keep
            (λ a.
              not (a.article_id == target.article_id)
              && (in_window a.effective_date target.effective_date
                  && (a.normalized_title_hash == target.normalized_title_hash
                      || (not (length target.entity_ids == 0)
                          && leb cluster_minimum_shared_entities
                              (length (inter target.entity_ids a.entity_ids))))))
            articles)))

abbrev pub set_facts : ClusterStatistics → StoryCluster → StoryCluster
set_facts facts c = record c {
  algorithm_version = algorithm_version;
  article_count = facts.article_count;
  source_count = facts.source_count;
  first_published_at = facts.first_published_at;
  last_published_at = facts.last_published_at;
  representative_article_id = facts.representative_article_id;
}

module _ {F : Type 0} where
  -- Replaces the article's indexed wording.
  unfoldable pub store_terms : Store F → ArticleFeatures → List Word → Store F
  store_terms store target terms = record store {
    terms =
        keep (λ row. not (row.article_id == target.article_id)) store.terms
        ++ map
            (λ term.
              let row : ArticleClusterTerm = record {
                article_id = target.article_id;
                term = term;
                effective_at = target.effective_date;
              } in
              row)
            terms;
  }

  unfoldable pub load_terms : Store F → ℕ → List Word
  load_terms store id = map (λ row. row.term) (keep (λ row. row.article_id == id) store.terms)

  -- How many rows of the window's index hold one of the target's terms for the article.
  abbrev pub shared_terms : Store F → ArticleFeatures → ℕ → ℕ
  shared_terms store target id = length (
      keep
        (λ row.
          row.article_id == id
          && (contains target.terms row.term && in_window row.effective_at target.effective_date))
        store.terms)

  -- The articles that share four or more indexed terms with the target; those that share most
  -- first, at most 100.
  unfoldable pub wording_candidate_ids : Store F → ArticleFeatures → List ℕ
  wording_candidate_ids store target =
      if ltb (length target.terms) cluster_minimum_shared_terms
      then []
      else take cluster_term_candidate_limit (
          sort_by (λ a b. lex (shared_terms store target b) (shared_terms store target a) (leb a b))
            (keep
              (λ id.
                not (id == target.article_id)
                && leb cluster_minimum_shared_terms (shared_terms store target id))
              (map (λ a. a.article_id) store.articles)))

  -- For each of the target's terms, how many articles of the window use it.
  unfoldable pub term_frequencies : Store F → ArticleFeatures → List (Word × ℕ)
  term_frequencies store target =
      map
        (λ term.
          let found = length (
            keep
              (λ row.
                contains (term ∷ []) row.term && in_window row.effective_at target.effective_date)
              store.terms) in
          (term, if found == 0 then 1 else found))
        target.terms

  unfoldable pub window_articles : Store F → ArticleFeatures → ℕ
  window_articles store target =
      length (keep (λ a. in_window a.effective_date target.effective_date) store.articles)

  unfoldable pub member_ids : Store F → ℕ → List ℕ
  member_ids store cluster_id =
      map (λ m. m.article_id) (keep (λ m. m.cluster_id == cluster_id) store.members)

  abbrev pub find_member : Store F → ℕ → Option (StoryClusterMember F)
  find_member store article_id = find (λ m. m.article_id == article_id) store.members

  abbrev pub find_cluster : Store F → ℕ → Option StoryCluster
  find_cluster store cluster_id = find (λ c. c.id == cluster_id) store.clusters

  -- Takes the cluster and its members out of the tables.
  abbrev pub dissolve : Store F → ℕ → Store F
  dissolve store cluster_id = record store {
    members = keep (λ m. not (m.cluster_id == cluster_id)) store.members;
    clusters = keep (λ c. not (c.id == cluster_id)) store.clusters;
  }

  -- `_refresh_cluster`: the new tables, and whether the cluster is still there.
  unfoldable pub refresh_cluster : Store F → ℕ → Store F × Bool
  unfolding member_ids cluster_statistics
  refresh_cluster store cluster_id =
      let members = member_ids store cluster_id in
      if ltb (length members) 2
      then (dissolve store cluster_id, false)
      else elim (find_cluster store cluster_id) [
        | none ↦ (store, false)
        | some _ ↦ (
          record store {
            clusters =
                update_where (λ c. c.id == cluster_id)
                  (set_facts (cluster_statistics (load_features store.articles members)))
                  store.clusters;
          },
          true,
        )
      ]
