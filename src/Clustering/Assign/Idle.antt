-- ===== src/Clustering/Assign/Idle.antt =====
-- An assignment that reports no change: the article was in the survivor, and nothing was merged
-- (backend/app/clustering/engine.py).
use newsintel.Clustering.Assign.Valid.{IsValid}
use newsintel.Clustering.Assign.Quiet.{unique-has, absorb_all-none}
use newsintel.Prelude.Sets.{Distinct, nat_eq}
use newsintel.Clustering.Assign.Steps.{merge-eq-some, base_cluster-has, any_alone, any-summaries_of}
use newsintel.Prelude.{
  ℕ, ◌≡◌, refl, sym, ap, ◌∙◌, true, false, List, [], ◌∷◌, arith, length, Bool-cases, inl, inr,
  Option, some, Option-cases, map, find, ◌==◌, is_some, ==_iff, subst,
}
use newsintel.Clustering.Features.{ScoredCandidate}
use newsintel.Clustering.Store.{
  Store, find_member, StoryClusterMember, algorithm_version, find_cluster,
}
use newsintel.Clustering.Assign.{
  settle, base_cluster, choose_base, involved_clusters, Merge, summaries_of, put_rows, merge,
}
use newsintel.Clustering.Assign.Rows.{has, lives, lives-find, has-move}

module _ {F : Type 0} where
  -- Without a change: the article was in the survivor, and no cluster was made or merged.
  pub record Quiet (store : Store F) (x : ℕ) (best : ScoredCandidate F)
      (rest : List (ScoredCandidate F)) (s : ℕ) (m : Merge F) : Type 0 where
    pub row : StoryClusterMember F
    pub found : find_member store x ≡ some row
    pub stays : row.cluster_id ≡ s
    pub base : ℕ
    pub based : base_cluster store (best ∷ rest) best ≡ some base
    pub alone : length m.merged ≡ 0

  pub settle-Quiet :
      (store : Store F) (x : ℕ) (best : ScoredCandidate F) (rest : List (ScoredCandidate F)) (s : ℕ)
      (m : Merge F)
      → (settle store x best rest s m).changed ≡ false
      → Quiet store x best rest s m
  unfolding settle
  settle-Quiet store x best rest s m h = elim (Option-cases (find_member store x)) [
    | inl gone ↦ absurd (ground arith)
    | inr (row, here) ↦ elim (Option-cases (base_cluster store (best ∷ rest) best)) [
      | inl fresh ↦ absurd (ground arith)
      | inr (base, based) ↦ record {
        row = row;
        found = here;
        stays = ground arith;
        base = base;
        based = based;
        alone = ground arith;
      }
    ]
  ]

  pub put_rows_quiet :
      (rows : List (StoryClusterMember F)) (row : StoryClusterMember F) (x s : ℕ) (score : F)
      (a c : ℕ)
      → Distinct (map (λ m. m.article_id) rows)
      → find (λ m. m.article_id == x) rows ≡ some row
      → row.cluster_id ≡ s
      → has (put_rows (some row) rows x s score) a c ≡ has rows a c
  unfolding put_rows
  put_rows_quiet rows row x s score a c d found stays =
      let alive : lives rows x ≡ true =
        sym (lives-find x rows) ∙ ap (λ (o : Option (StoryClusterMember F)). is_some o) found in
      let moved =
        has-move
          (λ m. record m { cluster_id = s; score = score; algorithm_version = algorithm_version }) x
          s a c rows (λ m. (refl, refl)) in
      elim (Bool-cases (a == x)) [
        | inl same ↦
            let p : a ≡ x = (==_iff a x).0 same in
            ground (arith, moved, alive, unique-has x c rows row d found, ==_iff c s)
        | inr other ↦ ground (arith, moved)
      ]

  -- A quiet assignment ends with the survivor unmerged, so the member rows were not written by the
  -- merge, and the article stays with its best match.
  pub record Settled (store : Store F) (x : ℕ) (best : ScoredCandidate F) (s : ℕ) (m : Merge F)
      : Type 0 where
    pub same : m.store ≡ store
    pub paired : has store.members best.features.article_id s ≡ true

  pub Quiet-Settled :
      (store : Store F) (x : ℕ) (best : ScoredCandidate F) (rest : List (ScoredCandidate F))
      (new_id now s : ℕ) (m : Merge F)
      → IsValid store
      → Quiet store x best rest s m
      → (let b = choose_base store x best (base_cluster store (best ∷ rest) best) new_id now in
          merge b.0 (involved_clusters store best rest b.1) b.2 ≡ some (s, m))
      → Settled store x best s m
  unfolding choose_base
  Quiet-Settled store x best rest new_id now s m valid q merged =
      let merged' : merge store (involved_clusters store best rest q.base) (x ∷ []) ≡ some (s, m) =
        subst
          (λ (o : Option ℕ).
            let b = choose_base store x best o new_id now in
            merge b.0 (involved_clusters store best rest b.1) b.2 ≡ some (s, m))
          q.based merged in
      let ids = involved_clusters store best rest q.base in
      let (v, chosen, named, absorbed) = merge-eq-some store ids (x ∷ []) s m merged' in
      let start : Merge F = record { store = store; touched = x ∷ []; merged = [] } in
      let (kept, alone) =
        absorb_all-none v.id (summaries_of store ids) start
          (ap (λ (r : Merge F). length r.merged) (sym absorbed) ∙ q.alone) in
      let paired = base_cluster-has store (best ∷ rest) best q.base q.based in
      let exists : is_some (find_cluster store q.base) ≡ true =
        ground (arith, valid.known best.features.article_id q.base) in
      let e : q.base ≡ v.id =
        any_alone q.base v.id (summaries_of store ids)
          (any-summaries_of store q.base ids (ground arith) exists) alone in
      record {
        same = ap (λ (r : Merge F). r.store) absorbed ∙ kept;
        paired =
            subst (λ k. has store.members best.features.article_id k ≡ true) (e ∙ sym named) paired;
      }
