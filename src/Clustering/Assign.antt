-- ===== src/Clustering/Assign.antt =====
-- `RuleClusterer.assign` of backend/app/clustering/engine.py, with `_merge` and `_finish`: an
-- article is put into the cluster of its best match, the clusters of all its matches are merged,
-- and the clusters that lost or won members are refreshed. The ids and the time that the database
-- draws for a new cluster are arguments. The advisory lock makes assignments run one at a time.
pub mod Rows
pub mod Untouched
pub mod Steps
pub mod Valid
pub mod Covers
pub mod Moves
pub mod Idle
pub mod Quiet
use newsintel.Prelude.{
  ℕ, Bool, not, ◌&&◌, ◌||◌, Option, none, some, List, [], ◌∷◌, ◌++◌, map, leb, ◌==◌, if◌then◌else◌,
  length, keep, find, update_where, member, is_some, eq_opt, false, true,
}
use newsintel.Prelude.Sort.{sort_by}
use newsintel.Prelude.Sets.{nat_eq, dedupe}
use Prim.Native.String.{String}
use newsintel.Clustering.Numbers.{Floats}
use newsintel.Clustering.Features.{Word, ArticleFeatures, ScoredCandidate, ClusterSummary}
use newsintel.Clustering.Wording.{Unicode, lede_terms}
use newsintel.Clustering.Scoring.{term_weights}
use newsintel.Clustering.Ranking.{rank_candidates, select_survivor}
use newsintel.Clustering.Store.{
  Store, StoryCluster, StoryClusterMember, algorithm_version, load_features, candidate_ids,
  store_terms, load_terms, wording_candidate_ids, term_frequencies, window_articles, member_ids,
  find_member, refresh_cluster,
}

pub record Assignment (F : Type 0) : Type 0 where
  pub article_id : ℕ
  pub cluster_id : Option ℕ
  pub score : F
  pub version : String
  pub reindex_article_ids : List ℕ
  pub merged_cluster_ids : List ℕ

-- `sorted(set_of_ids)`
abbrev pub sorted_ids : List ℕ → List ℕ
sorted_ids ids = sort_by leb (dedupe ids)

-- `touched` as a list, in which an id may stand more than once.
pub record Merge (F : Type 0) : Type 0 where
  pub store : Store F
  pub touched : List ℕ
  pub merged : List ℕ

unfoldable pub summary_of : StoryCluster → ClusterSummary
summary_of c = record { id = c.id; created_at = c.created_at; article_count = c.article_count }

-- The state of the loop of `_finish`.
pub record Finish (F : Type 0) : Type 0 where
  pub store : Store F
  pub touched : List ℕ
  pub surviving : Option ℕ

-- What `assign` hands to `_finish`.
pub record Outcome (F : Type 0) : Type 0 where
  pub store : Store F
  pub cluster_id : Option ℕ
  pub score : F
  pub touched : List ℕ
  pub stale : List ℕ
  pub merged : List ℕ
  pub changed : Bool

-- The tables, the base cluster and the touched articles before the merge.
abbrev pub Base : Type 0 → Type 0
Base F = Store F × ℕ × List ℕ

-- The clusters that lost or won a member: the survivor, and the previous one if it is still there.
abbrev pub stale_ids : ℕ → Option ℕ → List ℕ → List ℕ
stale_ids survivor none merged = survivor ∷ []
stale_ids survivor (some p) merged = survivor ∷ (if member p merged then [] else p ∷ [])

module _ {F : Type 0} where
  -- One round of the loop of `_merge`: the cluster's members move to the survivor.
  unfoldable pub absorb : ℕ → ℕ → Merge F → Merge F
  unfolding member_ids
  absorb survivor id m = record {
    store = record (m.store) {
      members =
          update_where (λ row. row.cluster_id == id)
            (λ row. record row { cluster_id = survivor; algorithm_version = algorithm_version })
            m.store.members;
      clusters = keep (λ c. not (c.id == id)) m.store.clusters;
    };
    touched = m.touched ++ member_ids m.store id;
    merged = m.merged ++ id ∷ [];
  }

  -- The survivor itself is passed over.
  unfoldable pub absorb_other : ℕ → ClusterSummary → Merge F → Merge F
  unfolding absorb
  absorb_other survivor s m = if s.id == survivor then m else absorb survivor s.id m

  unfoldable pub absorb_all : ℕ → List ClusterSummary → Merge F → Merge F
  unfolding absorb_other
  absorb_all survivor [] m = m
  absorb_all survivor (s ∷ summaries) m = absorb_all survivor summaries (absorb_other survivor s m)

  abbrev pub summaries_of : Store F → List ℕ → List ClusterSummary
  summaries_of store ids =
      sort_by (λ a b. leb a.id b.id) (map summary_of (keep (λ c. member c.id ids) store.clusters))

  -- `_merge`: `none` when none of the ids is a cluster (an IndexError in `select_survivor`).
  unfoldable pub merge : Store F → List ℕ → List ℕ → Option (ℕ × Merge F)
  unfolding select_survivor absorb_all
  merge store ids touched =
      let summaries = summaries_of store ids in
      elim (select_survivor summaries) [
        | none ↦ none
        | some survivor ↦ some (
          survivor.id,
          absorb_all survivor.id summaries
              (record { store = store; touched = touched; merged = [] }),
        )
      ]

  unfoldable pub refresh_stale : Option ℕ → ℕ → Finish F → Finish F
  unfolding member_ids refresh_cluster
  refresh_stale cluster_id stale f =
      let (store, survives) = refresh_cluster f.store stale in
      record {
        store = store;
        touched = f.touched ++ member_ids f.store stale;
        surviving = if not survives && eq_opt (some stale) cluster_id then none else f.surviving;
      }

  unfoldable pub refresh_all : Option ℕ → List ℕ → Finish F → Finish F
  unfolding refresh_stale
  refresh_all cluster_id [] f = f
  refresh_all cluster_id (stale ∷ ids) f =
      refresh_all cluster_id ids (refresh_stale cluster_id stale f)

  unfoldable pub finish : ℕ → Outcome F → Assignment F × Store F
  finish article_id o =
      let f =
        refresh_all o.cluster_id (sorted_ids o.stale)
          (record { store = o.store; touched = o.touched; surviving = o.cluster_id }) in
      (
        record {
          article_id = article_id;
          cluster_id = f.surviving;
          score = o.score;
          version = algorithm_version;
          reindex_article_ids = if o.changed then sorted_ids f.touched else [];
          merged_cluster_ids = o.merged;
        },
        f.store,
      )

  -- No match: the article leaves its cluster, if it had one.
  unfoldable pub leave_row : Option (StoryClusterMember F) → F → Store F → ℕ → Outcome F
  leave_row none zero_score store article_id = record {
    store = store;
    cluster_id = none;
    score = zero_score;
    touched = article_id ∷ [];
    stale = [];
    merged = [];
    changed = false;
  }
  leave_row (some m) zero_score store article_id = record {
    store = record store { members = keep (λ m. not (m.article_id == article_id)) store.members };
    cluster_id = none;
    score = zero_score;
    touched = article_id ∷ [];
    stale = m.cluster_id ∷ [];
    merged = [];
    changed = true;
  }

  unfoldable pub leave : F → Store F → ℕ → Outcome F
  leave zero_score store article_id =
      leave_row (find_member store article_id) zero_score store article_id

  abbrev pub member_row : ℕ → ℕ → F → StoryClusterMember F
  member_row article_id cluster_id score = record {
    article_id = article_id;
    cluster_id = cluster_id;
    score = score;
    algorithm_version = algorithm_version;
  }

  -- A new cluster with the best match as its first member.
  unfoldable pub found_cluster : Store F → ScoredCandidate F → ℕ → ℕ → Store F
  found_cluster store best new_id now = record store {
    clusters =
        store.clusters
        ++ record {
          id = new_id;
          algorithm_version = algorithm_version;
          article_count = 0;
          source_count = 0;
          first_published_at = none;
          last_published_at = none;
          representative_article_id = none;
          created_at = now;
        }
          ∷ [];
    members = store.members ++ member_row best.features.article_id new_id best.score ∷ [];
  }

  -- The article's own row: inserted where there is none, else moved to the cluster.
  unfoldable pub put_rows :
      Option (StoryClusterMember F)
      → List (StoryClusterMember F)
      → ℕ
      → ℕ
      → F
      → List (StoryClusterMember F)
  put_rows none rows article_id cluster_id score =
      rows ++ member_row article_id cluster_id score ∷ []
  put_rows (some _) rows article_id cluster_id score =
      update_where (λ m. m.article_id == article_id)
        (λ m. record m {
          cluster_id = cluster_id;
          score = score;
          algorithm_version = algorithm_version;
        })
        rows

  unfoldable pub put_member : Store F → ℕ → ℕ → F → Store F
  put_member store article_id cluster_id score = record store {
    members = put_rows (find_member store article_id) store.members article_id cluster_id score;
  }

  -- The rows of the matches, read before a cluster is made.
  abbrev pub matched_rows : Store F → List (ScoredCandidate F) → List (StoryClusterMember F)
  matched_rows store ranked =
      keep (λ m. member m.article_id (map (λ item. item.features.article_id) ranked)) store.members

  -- `matched_clusters.get(best.features.article_id)`
  abbrev pub base_cluster : Store F → List (ScoredCandidate F) → ScoredCandidate F → Option ℕ
  base_cluster store ranked best =
      elim (find (λ m. m.article_id == best.features.article_id) (matched_rows store ranked)) [
        | none ↦ none
        | some m ↦ some m.cluster_id
      ]

  unfoldable pub choose_base : Store F → ℕ → ScoredCandidate F → Option ℕ → ℕ → ℕ → Base F
  choose_base store article_id best none new_id now =
      (found_cluster store best new_id now, new_id, article_id ∷ best.features.article_id ∷ [])
  choose_base store article_id best (some base) new_id now = (store, base, article_id ∷ [])

  -- The cluster of the article's row before the assignment.
  abbrev pub previous_cluster : Store F → ℕ → Option ℕ
  previous_cluster store article_id = elim (find_member store article_id) [
    | none ↦ none
    | some p ↦ some p.cluster_id
  ]

  -- The row of the article is written, after the merge left `survivor` and `m`.
  unfoldable pub settle :
      Store F → ℕ → ScoredCandidate F → List (ScoredCandidate F) → ℕ → Merge F → Outcome F
  settle store article_id best rest survivor m = record {
    store = put_member m.store article_id survivor best.score;
    cluster_id = some survivor;
    score = best.score;
    touched = m.touched;
    stale = stale_ids survivor (previous_cluster store article_id) m.merged;
    merged = m.merged;
    changed =
        not (is_some (find_member m.store article_id))
        || (not (is_some (base_cluster store (best ∷ rest) best))
            || (not (length m.merged == 0)
                || not (eq_opt (previous_cluster store article_id) (some survivor))));
  }

  -- The clusters of the base and of every match.
  abbrev pub involved_clusters : Store F → ScoredCandidate F → List (ScoredCandidate F) → ℕ → List ℕ
  involved_clusters store best rest base =
      base ∷ map (λ m. m.cluster_id) (matched_rows store (best ∷ rest))

  -- The article joins the cluster that survives the merge of its matches' clusters.
  unfoldable pub join :
      Store F → ℕ → ScoredCandidate F → List (ScoredCandidate F) → ℕ → ℕ → Option (Outcome F)
  join store article_id best rest new_id now =
      let (founded, base, touched) =
        choose_base store article_id best (base_cluster store (best ∷ rest) best) new_id now in
      elim (merge founded (involved_clusters store best rest base) touched) [
        | none ↦ none
        | some (survivor, m) ↦ some (settle store article_id best rest survivor m)
      ]

  -- The writes of `assign`, once the candidates are ranked.
  unfoldable pub place :
      F → Store F → ℕ → List (ScoredCandidate F) → ℕ → ℕ → Option (Assignment F × Store F)
  place zero_score store article_id [] new_id now =
      some (finish article_id (leave zero_score store article_id))
  place zero_score store article_id (best ∷ rest) new_id now =
      elim (join store article_id best rest new_id now) [
        | none ↦ none
        | some o ↦ some (finish article_id o)
      ]

-- What `assign` reads outside its own tables: the stop words of every language, and the text of an
-- article's title and body.
pub record Archive : Type 0 where
  pub stop_words : List Word
  pub document : ℕ → List ℕ

abbrev with_terms : {F : Type 0} → Store F → ArticleFeatures → ArticleFeatures
with_terms store a = record a { terms = load_terms store a.article_id }

module _ (fl : Floats) (u : Unicode) (archive : Archive) where
  -- The target with its terms, and the candidates with theirs, ranked.
  unfoldable pub ranked_matches : Store fl.F → ArticleFeatures → List (ScoredCandidate fl.F)
  unfolding candidate_ids wording_candidate_ids load_terms rank_candidates term_weights
      term_frequencies window_articles
  ranked_matches store target =
      let found = candidate_ids store.articles target ++ wording_candidate_ids store target in
      rank_candidates fl u target (map (with_terms store) (load_features store.articles found))
        archive.stop_words
        (term_weights fl (term_frequencies store target) (window_articles store target))
        (fl.hundredths 45)

  -- `none` stands for the LookupError of an article that is not there.
  unfoldable pub assign : Store fl.F → ℕ → ℕ → ℕ → Option (Assignment fl.F × Store fl.F)
  assign store article_id new_id now =
      elim (find (λ a. a.article_id == article_id) store.articles) [
        | none ↦ none
        | some found ↦
            let terms = lede_terms u (archive.document article_id) archive.stop_words in
            let target : ArticleFeatures = record found { terms = terms } in
            let stored = store_terms store target terms in
            place (fl.hundredths 0) stored article_id (ranked_matches stored target) new_id now
      ]
