-- ===== src/Clustering/Assign/Steps.antt =====
-- The parts of a successful `merge` and `join`, and what each write leaves of the membership
-- (backend/app/clustering/engine.py).
use newsintel.Prelude.Sort.{any-sort_by}
use newsintel.Clustering.Ranking.{select_survivor}
use newsintel.Clustering.Assign.Rows.{has, has-append, has-move}
use newsintel.Prelude.{
  ℕ, ◌≡◌, refl, false, List, [], ◌∷◌, arith, ◌==◌, member, some, Option-cases, inl, inr, ==_iff,
  Option, none, true, any, find, is_some, not, keep, map, Bool-cases, leb, ◌∙◌,
}
use newsintel.Clustering.Features.{ClusterSummary, ScoredCandidate}
use newsintel.Clustering.Store.{
  Store, find_member, algorithm_version, StoryClusterMember, StoryCluster, find_cluster,
}
use newsintel.Clustering.Assign.{
  Merge, absorb_all, Outcome, put_member, found_cluster, choose_base, merge, join, settle,
  involved_clusters, summaries_of, base_cluster, member_row, put_rows, summary_of, matched_rows,
}

any-exists :
    (id : ℕ) (ids : List ℕ) (clusters : List StoryCluster)
    → member id ids ≡ true
    → is_some (find (λ c. c.id == id) clusters) ≡ true
    → any (λ y. y.id == id) (map summary_of (keep (λ c. member c.id ids) clusters)) ≡ true
unfolding summary_of
any-exists id ids [] h e = absurd (ground arith)
any-exists id ids (c ∷ clusters) h e = elim (Bool-cases (c.id == id)) [
  | inl same ↦
      let p : c.id ≡ id = (==_iff c.id id).0 same in
      let h' : member c.id ids ≡ true = rw p h in rw h' (ground arith)
  | inr other ↦ ground (arith, any-exists id ids clusters h)
]

pub any_alone :
    (id v : ℕ) (ys : List ClusterSummary)
    → any (λ y. y.id == id) ys ≡ true
    → any (λ y. not (y.id == v)) ys ≡ false
    → id ≡ v
any_alone id v [] h k = cc
any_alone id v (y ∷ ys) h k = ground (arith, any_alone id v ys)

module _ {F : Type 0} where
  pub merge-eq-some :
      (store : Store F) (ids touched : List ℕ) (s : ℕ) (m : Merge F)
      → merge store ids touched ≡ some (s, m)
      → (v : ClusterSummary) × (select_survivor (summaries_of store ids) ≡ some v)
        × (s ≡ v.id)
        × (m
            ≡ absorb_all v.id
                (summaries_of store ids)
                (record { store = store; touched = touched; merged = [] }))
  unfolding merge
  merge-eq-some store ids touched s m h =
      elim (Option-cases (select_survivor (summaries_of store ids))) [
        | inl gone ↦ absurd (ground arith)
        | inr (v, e) ↦ (v, e, ground arith, ground arith)
      ]

  pub join-eq-some :
      (store : Store F) (x : ℕ) (best : ScoredCandidate F) (rest : List (ScoredCandidate F))
      (new_id now : ℕ) (o : Outcome F)
      → join store x best rest new_id now ≡ some o
      → (s : ℕ) × (m : Merge F) × (let b =
            choose_base store x best (base_cluster store (best ∷ rest) best) new_id now in
          merge b.0 (involved_clusters store best rest b.1) b.2 ≡ some (s, m))
        × (o ≡ settle store x best rest s m)
  unfolding join
  join-eq-some store x best rest new_id now o h =
      let b = choose_base store x best (base_cluster store (best ∷ rest) best) new_id now in
      elim (Option-cases (merge b.0 (involved_clusters store best rest b.1) b.2)) [
        | inl gone ↦ absurd (ground arith)
        | inr (sm, e) ↦ (sm.0, sm.1, e, ground arith)
      ]

  -- Choosing the base writes the best match's row at most, and lists it.
  pub choose_base-same :
      (store : Store F) (x : ℕ) (best : ScoredCandidate F) (base : Option ℕ) (new_id now a c : ℕ)
      → member a (choose_base store x best base new_id now).2 ≡ false
      → ((a == x) ≡ false)
        × (has (choose_base store x best base new_id now).0.members a c ≡ has store.members a c)
  unfolding choose_base found_cluster
  choose_base-same store x best none new_id now a c h = ground (
    arith,
    has-append (member_row best.features.article_id new_id best.score) a c store.members,
    ==_iff a best.features.article_id,
    ==_iff best.features.article_id a,
  )
  choose_base-same store x best (some base) new_id now a c h = ground arith

  put_rows-same :
      (found : Option (StoryClusterMember F)) (rows : List (StoryClusterMember F)) (x s : ℕ)
      (score : F) (a c : ℕ)
      → (a == x) ≡ false
      → has (put_rows found rows x s score) a c ≡ has rows a c
  unfolding put_rows
  put_rows-same none rows x s score a c h =
      ground (arith, has-append (member_row x s score) a c rows, ==_iff a x, ==_iff x a)
  put_rows-same (some p) rows x s score a c h = ground (
    arith,
    has-move
        (λ m. record m { cluster_id = s; score = score; algorithm_version = algorithm_version }) x s
        a c rows (λ m. (refl, refl)),
  )

  -- Writing the article's row changes the membership of no other article.
  pub put_member-same :
      (store : Store F) (x s : ℕ) (score : F) (a c : ℕ)
      → (a == x) ≡ false
      → has (put_member store x s score).members a c ≡ has store.members a c
  unfolding put_member
  put_member-same store x s score a c h =
      put_rows-same (find_member store x) store.members x s score a c h

  -- A cluster that exists is among the summaries of a merge that names it.
  pub any-summaries_of :
      (store : Store F) (id : ℕ) (ids : List ℕ)
      → member id ids ≡ true
      → is_some (find_cluster store id) ≡ true
      → any (λ y. y.id == id) (summaries_of store ids) ≡ true
  any-summaries_of store id ids h e =
      any-sort_by (λ a b. leb a.id b.id) (λ y. y.id == id)
        (map summary_of (keep (λ c. member c.id ids) store.clusters))
      ∙ any-exists id ids store.clusters h e

  find-has :
      (a : ℕ) (ids : List ℕ) (rows : List (StoryClusterMember F)) (r : StoryClusterMember F)
      → find (λ m. m.article_id == a) (keep (λ m. member m.article_id ids) rows) ≡ some r
      → has rows a r.cluster_id ≡ true
  find-has a ids [] r h = cc
  find-has a ids (m ∷ rows) r h = elim (Bool-cases (member m.article_id ids)) [
    | inl listed ↦
        let h' : find (λ n. n.article_id == a) (m ∷ keep (λ n. member n.article_id ids) rows)
            ≡ some r =
          rw listed at h in
        elim (Bool-cases (m.article_id == a)) [
          | inl same ↦ let p : m ≡ r = ground arith in rw (← p) (ground arith)
          | inr other ↦ ground (arith, find-has a ids rows r (ground arith))
        ]
    | inr unlisted ↦
        let h' : find (λ n. n.article_id == a) (keep (λ n. member n.article_id ids) rows) ≡ some r =
          rw unlisted at h in
        ground (arith, find-has a ids rows r h')
  ]

  -- The best match stands in its base cluster.
  pub base_cluster-has :
      (store : Store F) (ranked : List (ScoredCandidate F)) (best : ScoredCandidate F) (base : ℕ)
      → base_cluster store ranked best ≡ some base
      → has store.members best.features.article_id base ≡ true
  base_cluster-has store ranked best base h =
      elim (Option-cases
        (find (λ m. m.article_id == best.features.article_id) (matched_rows store ranked))) [
          | inl gone ↦ absurd (ground arith)
          | inr (r, e) ↦
              let p : r.cluster_id ≡ base = ground arith in
              rw (← p) (
                find-has best.features.article_id (map (λ item. item.features.article_id) ranked)
                  store.members r e)
        ]
