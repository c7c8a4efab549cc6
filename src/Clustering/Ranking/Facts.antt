-- ===== src/Clustering/Ranking/Facts.antt =====
-- The cluster that survives a merge, and the facts that a cluster shows
-- (backend/app/clustering/engine.py).
use newsintel.Prelude.Sort.{IsSorted, All-sort_by_back, sort_by, sort_by-IsSorted, any-sort_by}
use newsintel.Prelude.{
  ◌≤◌, ◌<◌, ◌≡◌, ◌⊎◌, true, false, arith, List, All, some, any, ◌∷◌, ◌==◌, inr, sym, ◌∙◌, [], subst,
  refl,
}
use newsintel.Prelude.Sets.{nat_eq}
use newsintel.Clustering.Features.{ClusterSummary}
use newsintel.Clustering.Ranking.{summary_le, select_survivor, head?}

summary_le_total : (a b : ClusterSummary) → summary_le a b ≡ false → summary_le b a ≡ true
unfolding summary_le
summary_le_total a b h = ground arith

summary_le_trans :
    (a b c : ClusterSummary) → summary_le a b ≡ true → summary_le b c ≡ true → summary_le a c ≡ true
unfolding summary_le
summary_le_trans a b c h k = ground arith

-- The cluster `s` is larger than `c`, or as large and older, or as large and as old with an id that
-- is not greater.
abbrev pub Outranks : ClusterSummary → ClusterSummary → Type 0
Outranks s c =
    (c.article_count < s.article_count)
    ⊎ ((c.article_count ≡ s.article_count) × (s.created_at < c.created_at))
    ⊎ ((c.article_count ≡ s.article_count) × (s.created_at ≡ c.created_at) × (s.id ≤ c.id))

summary_le-Outranks : (s c : ClusterSummary) → summary_le s c ≡ true → Outranks s c
unfolding summary_le
summary_le-Outranks s c h = ground arith

Outranks-All :
    (s : ClusterSummary) (cs : List ClusterSummary)
    → All (λ c. summary_le s c ≡ true) cs
    → All (Outranks s) cs
Outranks-All s [] h = tt
Outranks-All s (c ∷ cs) h = (summary_le-Outranks s c h.0, Outranks-All s cs h.1)

-- What the head of a sorted list outranks, and the list it came from.
head-Outranks :
    (clusters : List ClusterSummary) (s : ClusterSummary)
    → IsSorted summary_le clusters
    → head? clusters ≡ some s
    → All (Outranks s) clusters
head-Outranks [] s h e = tt
head-Outranks (c ∷ cs) s h e =
    let p : c ≡ s = ground arith in
    subst (λ x. Outranks x c × All (Outranks x) cs) p
      (inr (inr (refl, refl, omega arith)), Outranks-All c cs h.0)

-- The survivor of a merge is a cluster of the list that outranks every one of them: it has the most
-- articles, among those it is the oldest, and among those it has the least id.
pub select_survivor-Outranks :
    (clusters : List ClusterSummary) (s : ClusterSummary)
    → select_survivor clusters ≡ some s
    → All (Outranks s) clusters
unfolding select_survivor
select_survivor-Outranks clusters s e = All-sort_by_back summary_le (Outranks s) clusters (
    head-Outranks (sort_by summary_le clusters) s
      (sort_by-IsSorted summary_le summary_le_total summary_le_trans clusters) e)

head-any :
    (clusters : List ClusterSummary) (s : ClusterSummary)
    → head? clusters ≡ some s
    → any (λ c. c.id == s.id) clusters ≡ true
head-any [] s e = cc
head-any (c ∷ cs) s e = let p : c ≡ s = ground arith in rw p (ground arith)

pub select_survivor-any :
    (clusters : List ClusterSummary) (s : ClusterSummary)
    → select_survivor clusters ≡ some s
    → any (λ c. c.id == s.id) clusters ≡ true
unfolding select_survivor
select_survivor-any clusters s e =
    sym (any-sort_by summary_le (λ c. c.id == s.id) clusters)
    ∙ head-any (sort_by summary_le clusters) s e
