-- ===== src/Clustering/Assign/Covers.antt =====
-- The articles that an assignment hands to the search index are all those whose cluster it changed
-- (backend/app/clustering/engine.py).
use newsintel.Clustering.Assign.Moves.{finish-same, join-same, leave_covers}
use newsintel.Clustering.Assign.Idle.{settle-Quiet, Quiet-Settled, put_rows_quiet}
use mathlib.Core.Option.{some-injective}
use newsintel.Clustering.Assign.Idle.{Quiet}
use newsintel.Clustering.Assign.Valid.{IsValid}
use newsintel.Clustering.Assign.Quiet.{
  unique-has, two_members, refresh_all-large, sorted_stale_ids-eq,
}
use newsintel.Prelude.Sets.{nat_eq}
use newsintel.Clustering.Assign.Steps.{join-eq-some}
use newsintel.Prelude.{
  ℕ, ◌≡◌, sym, ap, ◌∙◌, true, false, List, [], ◌∷◌, arith, member, Bool-cases, inl, inr, Option,
  none, some, Option-cases, ◌==◌, ==_iff, ◌≢◌, All, subst,
}
use newsintel.Clustering.Features.{ScoredCandidate}
use newsintel.Clustering.Store.{Store, find_member, StoryClusterMember}
use newsintel.Clustering.Assign.{
  Outcome, finish, leave, join, Finish, settle, sorted_ids, Merge, put_rows, put_member, place,
  Assignment, previous_cluster,
}
use newsintel.Clustering.Assign.Rows.{has}

module _ {F : Type 0} where
  -- The members' rows after a quiet assignment.
  settle-Quiet-has :
      (store : Store F) (x : ℕ) (best : ScoredCandidate F) (rest : List (ScoredCandidate F)) (s : ℕ)
      (m : Merge F) (a c : ℕ)
      → IsValid store
      → Quiet store x best rest s m
      → m.store ≡ store
      → has (settle store x best rest s m).store.members a c ≡ has store.members a c
  unfolding settle put_member
  settle-Quiet-has store x best rest s m a c valid q same =
      ap (λ (t : Store F). has (put_rows (find_member t x) t.members x s best.score) a c) same
      ∙ ap
          (λ (o : Option (StoryClusterMember F)). has (put_rows o store.members x s best.score) a c)
          q.found
      ∙ put_rows_quiet store.members q.row x s best.score a c valid.unique q.found q.stays

  settle-Quiet-stale :
      (store : Store F) (x : ℕ) (best : ScoredCandidate F) (rest : List (ScoredCandidate F)) (s : ℕ)
      (m : Merge F)
      → Quiet store x best rest s m
      → All (λ y. y ≡ s) (sorted_ids (settle store x best rest s m).stale)
  unfolding settle
  settle-Quiet-stale store x best rest s m q =
      let p : previous_cluster store x ≡ some s = ground arith in
      rw p (sorted_stale_ids-eq s m.merged)

  join_quiet :
      (store : Store F) (x : ℕ) (best : ScoredCandidate F) (rest : List (ScoredCandidate F))
      (new_id now : ℕ) (o : Outcome F) (a c : ℕ)
      → IsValid store
      → best.features.article_id ≢ x
      → join store x best rest new_id now ≡ some o
      → o.changed ≡ false
      → has (finish x o).1.members a c ≡ has store.members a c
  unfolding finish
  join_quiet store x best rest new_id now o a c valid other joined quiet =
      let (s, m, merged, settled) = join-eq-some store x best rest new_id now o joined in
      let q =
        settle-Quiet store x best rest s m
          (ap (λ (r : Outcome F). r.changed) (sym settled) ∙ quiet) in
      let e = Quiet-Settled store x best rest new_id now s m valid q merged in
      let keeps : (b d : ℕ) → has o.store.members b d ≡ has store.members b d = λ b d.
        ap (λ (r : Outcome F). has r.store.members b d) settled
        ∙ settle-Quiet-has store x best rest s m b d valid q e.same in
      let start : Finish F = record {
        store = o.store;
        touched = o.touched;
        surviving = o.cluster_id;
      } in
      let apart : (x == best.features.article_id) ≡ false = ground arith in
      let two =
        two_members x best.features.article_id s o.store.members apart
          (keeps x s
            ∙ unique-has x s store.members q.row valid.unique q.found
            ∙ (==_iff q.row.cluster_id s).1 q.stays)
          (keeps best.features.article_id s ∙ e.paired) in
      ap (λ rows. has rows a c)
        (refresh_all-large o.cluster_id s (sorted_ids o.stale) start
          (subst (λ (r : Outcome F). All (λ y. y ≡ s) (sorted_ids r.stale)) (sym settled)
            (settle-Quiet-stale store x best rest s m q))
          two)
      ∙ keeps a c

  join_covers :
      (store : Store F) (x : ℕ) (best : ScoredCandidate F) (rest : List (ScoredCandidate F))
      (new_id now : ℕ) (o : Outcome F) (a c : ℕ)
      → IsValid store
      → best.features.article_id ≢ x
      → join store x best rest new_id now ≡ some o
      → member a (finish x o).0.reindex_article_ids ≡ false
      → has (finish x o).1.members a c ≡ has store.members a c
  join_covers store x best rest new_id now o a c valid other joined h =
      elim (Bool-cases o.changed) [
        | inl changed ↦
            let (t, e) = finish-same x a c o changed h in
            e ∙ join-same store x best rest new_id now o a c joined t
        | inr quiet ↦ join_quiet store x best rest new_id now o a c valid other joined quiet
      ]

  -- The result of `finish` is what `place` returns.
  same_result :
      (a c : ℕ) (r : Assignment F × Store F) (assignment : Assignment F) (store store' : Store F)
      → some r ≡ some (assignment, store')
      → member a assignment.reindex_article_ids ≡ false
      → (member a r.0.reindex_article_ids ≡ false → has r.1.members a c ≡ has store.members a c)
      → has store'.members a c ≡ has store.members a c
  same_result a c r assignment store store' e missing covers =
      let p : r ≡ (assignment, store') = some-injective _ _ e in
      ap (λ (t : Assignment F × Store F). has t.1.members a c) (sym p)
      ∙ covers (ap (λ (t : Assignment F × Store F). member a t.0.reindex_article_ids) p ∙ missing)

  -- In a valid store, whenever the assignment of article `x` puts an article into a cluster or takes
  -- one out of it, that article is among those that it hands over to be reindexed. The matches are
  -- other articles than `x`, as `rank_candidates` gives them.
  pub place-reindex :
      (zero_score : F) (store : Store F) (x : ℕ) (ranked : List (ScoredCandidate F))
      (new_id now : ℕ) (assignment : Assignment F) (store' : Store F) (a c : ℕ)
      → IsValid store
      → All (λ item. item.features.article_id ≢ x) ranked
      → place zero_score store x ranked new_id now ≡ some (assignment, store')
      → has store'.members a c ≢ has store.members a c
      → member a assignment.reindex_article_ids ≡ true
  unfolding place
  place-reindex zero_score store x [] new_id now assignment store' a c valid others placed moved =
      elim (Bool-cases (member a assignment.reindex_article_ids)) [
        | inl listed ↦ listed
        | inr missing ↦ absurd (
            moved (
              same_result a c (finish x (leave zero_score store x)) assignment store store' placed
                missing (leave_covers zero_score store x a c)))
      ]
  place-reindex zero_score store x (best ∷ rest) new_id now assignment store' a c valid others
        placed moved =
      elim (Bool-cases (member a assignment.reindex_article_ids)) [
        | inl listed ↦ listed
        | inr missing ↦ elim (Option-cases (join store x best rest new_id now)) [
          | inl failed ↦ absurd (ground arith)
          | inr (o, joined) ↦ absurd (
              moved (
                same_result a c (finish x o) assignment store store'
                  (ap
                      (λ (r : Option (Outcome F)). elim r [
                        | none ↦ none
                        | some w ↦ some (finish x w)
                      ])
                      (sym joined)
                    ∙ placed)
                  missing (join_covers store x best rest new_id now o a c valid others.0 joined)))
        ]
      ]
