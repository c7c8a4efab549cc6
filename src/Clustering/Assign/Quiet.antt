-- ===== src/Clustering/Assign/Quiet.antt =====
-- An assignment that reports no change leaves every membership as it was
-- (backend/app/clustering/engine.py).
use newsintel.Clustering.Assign.Rows.{lives, has, has-lives}
use newsintel.Clustering.Assign.{
  stale_ids, sorted_ids, absorb_other, absorb_all, refresh_stale, refresh_all, Merge, Finish,
}
use newsintel.Prelude.{
  ℕ, suc, ◌≤◌, ◌≡◌, refl, sym, ap, ◌∙◌, true, false, not, List, [], ◌∷◌, ◌++◌, map, arith, ◌==◌,
  ==_iff, length, keep, any, member, Bool-cases, inl, inr, Option, some, find, All, ltb, leb,
  Option-cases, ◌⊎◌, subst,
}
use newsintel.Clustering.Features.{ClusterSummary}
use newsintel.Clustering.Store.{
  Store, StoryClusterMember, member_ids, refresh_cluster, find_cluster,
}
use newsintel.Prelude.Sets.{nat_eq, dedupe, contains, Distinct}
use newsintel.Prelude.Sort.{All-sort_by}

All-dedupe : (s : ℕ) (ys : List ℕ) → All (λ y. y ≡ s) ys → All (λ y. y ≡ s) (dedupe ys)
All-dedupe s [] h = tt
All-dedupe s (y ∷ ys) h = elim (Bool-cases (contains (dedupe ys) y)) [
  | inl old ↦ rw old (All-dedupe s ys h.1)
  | inr new ↦ rw new (h.0, All-dedupe s ys h.1)
]

stale_ids-eq : (s : ℕ) (merged : List ℕ) → All (λ y. y ≡ s) (stale_ids s (some s) merged)
stale_ids-eq s merged = elim (Bool-cases (member s merged)) [
  | inl h ↦ rw h (refl, tt)
  | inr h ↦ rw h (refl, (refl, tt))
]

pub sorted_stale_ids-eq :
    (s : ℕ) (merged : List ℕ) → All (λ y. y ≡ s) (sorted_ids (stale_ids s (some s) merged))
sorted_stale_ids-eq s merged =
    All-sort_by leb (λ y. y ≡ s) (dedupe (stale_ids s (some s) merged))
      (All-dedupe s (stale_ids s (some s) merged) (stale_ids-eq s merged))

length-snoc : (xs : List ℕ) (y : ℕ) → length (xs ++ y ∷ []) ≡ suc (length xs)
length-snoc [] y = refl
length-snoc (x ∷ xs) y = ap suc (length-snoc xs y)

module _ {F : Type 0} where
  absorb_other-merged :
      (s : ℕ) (x : ClusterSummary) (m : Merge F)
      → ((x.id == s) ≡ true) × (absorb_other s x m ≡ m)
        ⊎ ((x.id == s) ≡ false) × (length (absorb_other s x m).merged ≡ suc (length m.merged))
  unfolding absorb_other
  absorb_other-merged s x m = elim (Bool-cases (x.id == s)) [
    | inl e ↦ inl (e, rw e)
    | inr e ↦ inr (e, rw e (length-snoc m.merged x.id))
  ]

  absorb_all-grows :
      (s : ℕ) (xs : List ClusterSummary) (m : Merge F)
      → length m.merged ≤ length (absorb_all s xs m).merged
  unfolding absorb_all
  absorb_all-grows s [] m = omega arith
  absorb_all-grows s (x ∷ xs) m = elim (absorb_other-merged s x m) [
    | inl (e, same) ↦
        subst (λ n. length m.merged ≤ length (absorb_all s xs n).merged) (sym same)
          (absorb_all-grows s xs m)
    | inr (e, more) ↦ omega (arith, absorb_all-grows s xs (absorb_other s x m))
  ]

  -- A merge that merged nothing met the survivor alone, and wrote nothing.
  pub absorb_all-none :
      (s : ℕ) (xs : List ClusterSummary) (m : Merge F)
      → length (absorb_all s xs m).merged ≡ 0
      → ((absorb_all s xs m).store ≡ m.store) × (any (λ y. not (y.id == s)) xs ≡ false)
  unfolding absorb_all
  absorb_all-none s [] m h = (refl, refl)
  absorb_all-none s (x ∷ xs) m h = elim (absorb_other-merged s x m) [
    | inl (e, same) ↦
        let h' : length (absorb_all s xs m).merged ≡ 0 =
          subst (λ n. length (absorb_all s xs n).merged ≡ 0) same h in
        let (l, r) = absorb_all-none s xs m h' in
        (ap (λ n. (absorb_all s xs n).store) same ∙ l, ground arith)
    | inr (e, more) ↦ absurd (omega (arith, absorb_all-grows s xs (absorb_other s x m)))
  ]

  lives-contains :
      (a : ℕ) (rows : List (StoryClusterMember F))
      → contains (map (λ m. m.article_id) rows) a ≡ lives rows a
  lives-contains a [] = refl
  lives-contains a (m ∷ rows) =
      ground (arith, lives-contains a rows, ==_iff a m.article_id, ==_iff m.article_id a)

  absent-has :
      (a c : ℕ) (rows : List (StoryClusterMember F)) → lives rows a ≡ false → has rows a c ≡ false
  absent-has a c rows h = ground (arith, has-lives a c rows)

  -- With one row for each article, the row that is found says it all.
  pub unique-has :
      (x c : ℕ) (rows : List (StoryClusterMember F)) (p : StoryClusterMember F)
      → Distinct (map (λ m. m.article_id) rows)
      → find (λ m. m.article_id == x) rows ≡ some p
      → has rows x c ≡ (p.cluster_id == c)
  unique-has x c [] p d e = absurd (ground arith)
  unique-has x c (m ∷ rows) p d e = elim (Bool-cases (m.article_id == x)) [
    | inl h ↦
        let q : m ≡ p = ground arith in
        let gone : lives rows m.article_id ≡ false = sym (lives-contains m.article_id rows) ∙ d.0 in
        let none_left = absent-has m.article_id c rows gone in
        ground (
          arith,
          ap (λ (r : StoryClusterMember F). r.cluster_id) q,
          ==_iff m.article_id x,
          none_left,
        )
    | inr h ↦ ground (arith, unique-has x c rows p d.1)
  ]

  one_member :
      (a c : ℕ) (rows : List (StoryClusterMember F))
      → has rows a c ≡ true
      → 1 ≤ length (keep (λ m. m.cluster_id == c) rows)
  one_member a c [] h = cc
  one_member a c (m ∷ rows) h = ground (arith, one_member a c rows)

  -- Two articles in a cluster are two rows.
  pub two_members :
      (a b c : ℕ) (rows : List (StoryClusterMember F))
      → (a == b) ≡ false
      → has rows a c ≡ true
      → has rows b c ≡ true
      → 2 ≤ length (keep (λ m. m.cluster_id == c) rows)
  two_members a b c [] ne ha hb = cc
  two_members a b c (m ∷ rows) ne ha hb =
      ground (arith, two_members a b c rows ne, one_member a c rows, one_member b c rows)

  length-map' :
      (rows : List (StoryClusterMember F)) → length (map (λ m. m.article_id) rows) ≡ length rows
  length-map' [] = refl
  length-map' (m ∷ rows) = ap suc (length-map' rows)

  pub length-member_ids :
      (store : Store F) (c : ℕ)
      → length (member_ids store c) ≡ length (keep (λ m. m.cluster_id == c) store.members)
  unfolding member_ids
  length-member_ids store c = length-map' (keep (λ m. m.cluster_id == c) store.members)

  refresh_cluster-large :
      (store : Store F) (s : ℕ)
      → 2 ≤ length (keep (λ m. m.cluster_id == s) store.members)
      → (refresh_cluster store s).0.members ≡ store.members
  unfolding refresh_cluster
  refresh_cluster-large store s h =
      let large : ltb (length (member_ids store s)) 2 ≡ false =
        ground (arith, length-member_ids store s) in
      rw large (elim (Option-cases (find_cluster store s)) [
        | inl gone ↦ rw gone
        | inr (row, here) ↦ rw here
      ])

  refresh_stale-large :
      (cluster_id : Option ℕ) (s : ℕ) (f : Finish F)
      → 2 ≤ length (keep (λ m. m.cluster_id == s) f.store.members)
      → (refresh_stale cluster_id s f).store.members ≡ f.store.members
  unfolding refresh_stale
  refresh_stale-large cluster_id s f h = refresh_cluster-large f.store s h

  -- Refreshing one cluster of two members or more, however often, writes no member row.
  pub refresh_all-large :
      (cluster_id : Option ℕ) (s : ℕ) (ids : List ℕ) (f : Finish F)
      → All (λ y. y ≡ s) ids
      → 2 ≤ length (keep (λ m. m.cluster_id == s) f.store.members)
      → (refresh_all cluster_id ids f).store.members ≡ f.store.members
  unfolding refresh_all
  refresh_all-large cluster_id s [] f same h = refl
  refresh_all-large cluster_id s (y ∷ ids) f same h =
      let h' : 2 ≤ length (keep (λ m. m.cluster_id == y) f.store.members) = rw same.0 h in
      let e = refresh_stale-large cluster_id y f h' in
      refresh_all-large cluster_id s ids (refresh_stale cluster_id y f) same.1 (rw e h) ∙ e
