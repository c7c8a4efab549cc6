-- ===== src/Clustering/Assign/Untouched.antt =====
-- An article that an assignment does not list as touched keeps its membership, step by step
-- (backend/app/clustering/engine.py).
use newsintel.Prelude.{
  ℕ, ◌≡◌, refl, ◌∙◌, false, ◌||◌, List, [], ◌∷◌, arith, ==_iff, length, member, Bool-cases, inl,
  inr, Option, ltb, sym, Option-cases, ap,
}
use newsintel.Clustering.Features.{ClusterSummary}
use newsintel.Clustering.Store.{Store, member_ids, refresh_cluster, algorithm_version, find_cluster}
use newsintel.Clustering.Assign.{
  absorb_other, Merge, absorb, absorb_all, Finish, refresh_stale, refresh_all,
}
use newsintel.Clustering.Assign.Rows.{
  has, member-append, member-member_ids, has-absorb, has-dissolve,
}

module _ {F : Type 0} (a : ℕ) where
  absorb-same :
      (s id c : ℕ) (m : Merge F)
      → member a (absorb s id m).touched ≡ false
      → (member a m.touched ≡ false)
        × (has (absorb s id m).store.members a c ≡ has m.store.members a c)
  unfolding absorb
  absorb-same s id c m h = ground (
    arith,
    member-append a m.touched (member_ids m.store id),
    member-member_ids m.store a id,
    ==_iff c id,
    has-absorb (λ row. record row { cluster_id = s; algorithm_version = algorithm_version }) id s a
        c m.store.members (λ row. (refl, refl)),
  )

  absorb_other-same :
      (s c : ℕ) (x : ClusterSummary) (m : Merge F)
      → member a (absorb_other s x m).touched ≡ false
      → (member a m.touched ≡ false)
        × (has (absorb_other s x m).store.members a c ≡ has m.store.members a c)
  unfolding absorb_other
  absorb_other-same s c x m h = ground (arith, absorb-same s x.id c m)

  pub absorb_all-same :
      (s c : ℕ) (summaries : List ClusterSummary) (m : Merge F)
      → member a (absorb_all s summaries m).touched ≡ false
      → (member a m.touched ≡ false)
        × (has (absorb_all s summaries m).store.members a c ≡ has m.store.members a c)
  unfolding absorb_all
  absorb_all-same s c [] m h = (h, refl)
  absorb_all-same s c (x ∷ summaries) m h =
      let later = absorb_all-same s c summaries (absorb_other s x m) h in
      let now = absorb_other-same s c x m later.0 in (now.0, later.1 ∙ now.1)

  refresh_cluster-same :
      (store : Store F) (stale c : ℕ)
      → has store.members a stale ≡ false
      → has (refresh_cluster store stale).0.members a c ≡ has store.members a c
  unfolding refresh_cluster
  refresh_cluster-same store stale c h =
      elim (Bool-cases (ltb (length (member_ids store stale)) 2)) [
        | inl small ↦
            rw small (ground (arith, has-dissolve stale a c store.members, ==_iff c stale))
        | inr large ↦ rw large (elim (Option-cases (find_cluster store stale)) [
          | inl gone ↦ rw gone
          | inr (row, here) ↦ rw here
        ])
      ]

  refresh_stale-same :
      (cluster_id : Option ℕ) (stale c : ℕ) (f : Finish F)
      → member a (refresh_stale cluster_id stale f).touched ≡ false
      → (member a f.touched ≡ false)
        × (has (refresh_stale cluster_id stale f).store.members a c ≡ has f.store.members a c)
  unfolding refresh_stale
  refresh_stale-same cluster_id stale c f h =
      let split : (member a f.touched || has f.store.members a stale) ≡ false =
        sym (
          member-append a f.touched (member_ids f.store stale)
          ∙ ap (λ b. member a f.touched || b) (member-member_ids f.store a stale))
        ∙ h in
      (ground arith, refresh_cluster-same f.store stale c (ground arith))

  pub refresh_all-same :
      (cluster_id : Option ℕ) (c : ℕ) (ids : List ℕ) (f : Finish F)
      → member a (refresh_all cluster_id ids f).touched ≡ false
      → (member a f.touched ≡ false)
        × (has (refresh_all cluster_id ids f).store.members a c ≡ has f.store.members a c)
  unfolding refresh_all
  refresh_all-same cluster_id c [] f h = (h, refl)
  refresh_all-same cluster_id c (x ∷ ids) f h =
      let later = refresh_all-same cluster_id c ids (refresh_stale cluster_id x f) h in
      let now = refresh_stale-same cluster_id x c f later.0 in (now.0, later.1 ∙ now.1)
