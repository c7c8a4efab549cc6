-- ===== src/Clustering/Assign/Rows.antt =====
-- Which article stands in which cluster, as a Boolean relation, and what each kind of write to
-- `story_cluster_members` does to it (backend/app/clustering/engine.py).
use newsintel.Prelude.{
  ℕ, ◌≡◌, refl, Bool, true, not, ◌&&◌, ◌||◌, List, [], ◌∷◌, ◌++◌, map, arith, ◌==◌, ==_iff, keep,
  any, update_where, member, Bool-cases, inl, inr, find, is_some, ◌∙◌, leb, sym,
}
use newsintel.Prelude.Sets.{nat_eq, dedupe, contains}
use newsintel.Prelude.Sort.{any-sort_by}
use newsintel.Clustering.Store.{Store, StoryClusterMember, member_ids}
use newsintel.Clustering.Assign.{sorted_ids}

member-any : (x : ℕ) (ys : List ℕ) → member x ys ≡ any (λ y. x == y) ys
member-any x [] = refl
member-any x (y ∷ ys) = ground (arith, member-any x ys)

contains-member : (x : ℕ) (ys : List ℕ) → contains ys x ≡ member x ys
contains-member x [] = refl
contains-member x (y ∷ ys) = ground (arith, contains-member x ys)

member-dedupe : (x : ℕ) (ys : List ℕ) → member x (dedupe ys) ≡ member x ys
member-dedupe x [] = refl
member-dedupe x (y ∷ ys) = elim (Bool-cases (contains (dedupe ys) y)) [
  | inl old ↦ rw old (ground (arith, member-dedupe x ys, contains-member y (dedupe ys), ==_iff x y))
  | inr new ↦ rw new (ground (arith, member-dedupe x ys))
]

-- A set that is sorted holds what it held.
pub member-sorted_ids : (x : ℕ) (ys : List ℕ) → member x (sorted_ids ys) ≡ member x ys
member-sorted_ids x ys =
    member-any x (sorted_ids ys)
    ∙ any-sort_by leb (λ y. x == y) (dedupe ys)
    ∙ sym (member-any x (dedupe ys))
    ∙ member-dedupe x ys

pub member-append : (x : ℕ) (ys zs : List ℕ) → member x (ys ++ zs) ≡ (member x ys || member x zs)
member-append x [] zs = refl
member-append x (y ∷ ys) zs = ground (arith, member-append x ys zs)

module _ {F : Type 0} where
  -- Some row puts article `a` into cluster `c`.
  abbrev pub has : List (StoryClusterMember F) → ℕ → ℕ → Bool
  has rows a c = any (λ m. (m.article_id == a) && (m.cluster_id == c)) rows

  abbrev pub lives : List (StoryClusterMember F) → ℕ → Bool
  lives rows a = any (λ m. m.article_id == a) rows

  pub member-member_ids :
      (store : Store F) (a c : ℕ) → member a (member_ids store c) ≡ has store.members a c
  unfolding member_ids
  member-member_ids store a c = go store.members
    where
      go :
          (rows : List (StoryClusterMember F))
          → member a (map (λ m. m.article_id) (keep (λ m. m.cluster_id == c) rows)) ≡ has rows a c
      go [] = refl
      go (m ∷ rows) = ground (arith, go rows)

  pub has-absorb :
      (f : StoryClusterMember F → StoryClusterMember F) (id s a c : ℕ)
      (rows : List (StoryClusterMember F))
      → ((m : StoryClusterMember F) → ((f m).article_id ≡ m.article_id) × ((f m).cluster_id ≡ s))
      → has (update_where (λ m. m.cluster_id == id) f rows) a c
        ≡ ((has rows a c && not (c == id)) || (c == s && has rows a id))
  has-absorb f id s a c [] h = ground arith
  has-absorb f id s a c (m ∷ rows) h = ground (arith, h m, has-absorb f id s a c rows h)

  pub has-dissolve :
      (id a c : ℕ) (rows : List (StoryClusterMember F))
      → has (keep (λ m. not (m.cluster_id == id)) rows) a c ≡ (has rows a c && not (c == id))
  has-dissolve id a c [] = refl
  has-dissolve id a c (m ∷ rows) = ground (arith, has-dissolve id a c rows)

  pub has-delete :
      (x a c : ℕ) (rows : List (StoryClusterMember F))
      → has (keep (λ m. not (m.article_id == x)) rows) a c ≡ (has rows a c && not (a == x))
  has-delete x a c [] = refl
  has-delete x a c (m ∷ rows) = ground (arith, has-delete x a c rows)

  pub has-append :
      (r : StoryClusterMember F) (a c : ℕ) (rows : List (StoryClusterMember F))
      → has (rows ++ r ∷ []) a c ≡ (has rows a c || ((r.article_id == a) && (r.cluster_id == c)))
  has-append r a c [] = ground arith
  has-append r a c (m ∷ rows) = ground (arith, has-append r a c rows)

  pub has-move :
      (f : StoryClusterMember F → StoryClusterMember F) (x s a c : ℕ)
      (rows : List (StoryClusterMember F))
      → ((m : StoryClusterMember F) → ((f m).article_id ≡ m.article_id) × ((f m).cluster_id ≡ s))
      → has (update_where (λ m. m.article_id == x) f rows) a c
        ≡ ((has rows a c && not (a == x)) || ((a == x) && ((c == s) && lives rows x)))
  has-move f x s a c [] h = ground arith
  has-move f x s a c (m ∷ rows) h = ground (arith, h m, has-move f x s a c rows h)

  pub lives-find :
      (a : ℕ) (rows : List (StoryClusterMember F))
      → is_some (find (λ m. m.article_id == a) rows) ≡ lives rows a
  lives-find a [] = refl
  lives-find a (m ∷ rows) = ground (arith, lives-find a rows)

  pub has-lives :
      (a c : ℕ) (rows : List (StoryClusterMember F)) → (not (has rows a c) || lives rows a) ≡ true
  has-lives a c [] = refl
  has-lives a c (m ∷ rows) = ground (arith, has-lives a c rows)
