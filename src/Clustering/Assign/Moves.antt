-- ===== src/Clustering/Assign/Moves.antt =====
-- What leaving, joining and finishing move, in terms of what they list as touched
-- (backend/app/clustering/engine.py).
use newsintel.Prelude.Sets.{nat_eq}
use newsintel.Clustering.Assign.Untouched.{refresh_all-same, absorb_all-same}
use newsintel.Clustering.Assign.Steps.{
  join-eq-some, merge-eq-some, choose_base-same, put_member-same,
}
use newsintel.Prelude.{
  ℕ, ◌≡◌, refl, sym, ap, ◌∙◌, true, false, List, [], ◌∷◌, arith, member, Bool-cases, inl, inr,
  Option, none, some,
}
use newsintel.Clustering.Features.{ScoredCandidate}
use newsintel.Clustering.Store.{Store, find_member, StoryClusterMember}
use newsintel.Clustering.Assign.{
  Outcome, finish, leave, join, Finish, refresh_all, settle, sorted_ids, base_cluster, choose_base,
  involved_clusters, Merge, summaries_of, leave_row,
}
use newsintel.Clustering.Assign.Rows.{has, has-delete, member-sorted_ids}

module _ {F : Type 0} where
  -- An article that is missing from a reindexing list that reports a change was not touched.
  pub finish-same :
      (x a c : ℕ) (o : Outcome F)
      → o.changed ≡ true
      → member a (finish x o).0.reindex_article_ids ≡ false
      → (member a o.touched ≡ false) × (has (finish x o).1.members a c ≡ has o.store.members a c)
  unfolding finish
  finish-same x a c o changed h =
      let start : Finish F = record {
        store = o.store;
        touched = o.touched;
        surviving = o.cluster_id;
      } in
      let f = refresh_all o.cluster_id (sorted_ids o.stale) start in
      let h' : member a (sorted_ids f.touched) ≡ false = rw changed at h in
      refresh_all-same a o.cluster_id c (sorted_ids o.stale) start
        (sym (member-sorted_ids a f.touched) ∙ h')

  leave-same :
      (found : Option (StoryClusterMember F)) (zero_score : F) (store : Store F) (x a c : ℕ)
      → member a (leave_row found zero_score store x).touched ≡ false
      → has (leave_row found zero_score store x).store.members a c ≡ has store.members a c
  unfolding leave_row
  leave-same none zero_score store x a c h = refl
  leave-same (some m) zero_score store x a c h = ground (arith, has-delete x a c store.members)

  leave_quiet :
      (found : Option (StoryClusterMember F)) (zero_score : F) (store : Store F) (x : ℕ)
      → (leave_row found zero_score store x).changed ≡ false
      → (finish x (leave_row found zero_score store x)).1.members ≡ store.members
  unfolding leave_row finish refresh_all
  leave_quiet none zero_score store x h = refl
  leave_quiet (some m) zero_score store x h = cc

  pub leave_covers :
      (zero_score : F) (store : Store F) (x a c : ℕ)
      → member a (finish x (leave zero_score store x)).0.reindex_article_ids ≡ false
      → has (finish x (leave zero_score store x)).1.members a c ≡ has store.members a c
  unfolding leave
  leave_covers zero_score store x a c h =
      let found = find_member store x in
      let o = leave_row found zero_score store x in
      elim (Bool-cases o.changed) [
        | inl changed ↦
            let (t, e) = finish-same x a c o changed h in
            e ∙ leave-same found zero_score store x a c t
        | inr quiet ↦ ap (λ rows. has rows a c) (leave_quiet found zero_score store x quiet)
      ]

  -- With a change: nothing but what is touched moves.
  pub join-same :
      (store : Store F) (x : ℕ) (best : ScoredCandidate F) (rest : List (ScoredCandidate F))
      (new_id now : ℕ) (o : Outcome F) (a c : ℕ)
      → join store x best rest new_id now ≡ some o
      → member a o.touched ≡ false
      → has o.store.members a c ≡ has store.members a c
  unfolding settle
  join-same store x best rest new_id now o a c joined h =
      let (s, m, merged, settled) = join-eq-some store x best rest new_id now o joined in
      let base = base_cluster store (best ∷ rest) best in
      let b = choose_base store x best base new_id now in
      let (v, chosen, named, absorbed) =
        merge-eq-some b.0 (involved_clusters store best rest b.1) b.2 s m merged in
      let start : Merge F = record { store = b.0; touched = b.2; merged = [] } in
      let summaries = summaries_of b.0 (involved_clusters store best rest b.1) in
      let touched : member a m.touched ≡ false =
        ap (λ (r : Outcome F). member a r.touched) (sym settled) ∙ h in
      let all =
        absorb_all-same a v.id c summaries start
          (ap (λ (r : Merge F). member a r.touched) (sym absorbed) ∙ touched) in
      let first = choose_base-same store x best base new_id now a c all.0 in
      ap (λ (r : Outcome F). has r.store.members a c) settled
      ∙ put_member-same m.store x s best.score a c first.0
      ∙ ap (λ (r : Merge F). has r.store.members a c) absorbed
      ∙ all.1
      ∙ first.1
