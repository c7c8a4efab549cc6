-- ===== src/Clustering/Ranking/Order.antt =====
-- The ranked candidates of an article: which they are, and in what order
-- (backend/app/clustering/engine.py).
use newsintel.Prelude.Every.{All-map}
use newsintel.Prelude.{
  ◌≡◌, true, false, List, arith, ◌≢◌, All, ℕ, any, ◌∷◌, ◌==◌, Bool-cases, ◌&&◌, ◌∙◌, inl, [], inr,
  refl, max, Bool, ◌-◌, not, min, ◌||◌, leb,
}
use newsintel.Prelude.Sort.{IsSorted, sort_by-IsSorted, All-sort_by, any-sort_by, sort_by}
use newsintel.Clustering.Numbers.{Floats, IsOrdered}
use newsintel.Clustering.Features.{Word, ArticleFeatures, ScoredCandidate}
use newsintel.Clustering.Wording.{Unicode}
use newsintel.Clustering.Scoring.{Weights, score_articles, gap}
use newsintel.Clustering.Ranking.{
  candidate_le, rank_candidates, scored_candidates, score_candidate, shares_source, is_eligible,
}

module _ (fl : Floats) (ordered : IsOrdered fl) (target : ArticleFeatures) where
  -- How far an article is from the target in time.
  abbrev pub distance : ScoredCandidate fl.F → ℕ
  distance a =
      max a.features.effective_date target.effective_date
      - min a.features.effective_date target.effective_date

  -- A greater score, or as great a one and nearer, or both equal and no greater id.
  abbrev pub ranks_at_least : ScoredCandidate fl.F → ScoredCandidate fl.F → Bool
  ranks_at_least a b =
      fl.le b.score a.score
      && (not (fl.le a.score b.score)
          || (leb (distance a) (distance b)
              && (not (distance a == distance b)
                  || leb a.features.article_id b.features.article_id)))

  candidate_le_total :
      (a b : ScoredCandidate fl.F)
      → candidate_le fl target a b ≡ false
      → candidate_le fl target b a ≡ true
  unfolding candidate_le
  candidate_le_total a b h =
      ground (arith, ordered.le_total a.score b.score, ordered.le_total b.score a.score)

  candidate_le_trans :
      (a b c : ScoredCandidate fl.F)
      → candidate_le fl target a b ≡ true
      → candidate_le fl target b c ≡ true
      → candidate_le fl target a c ≡ true
  unfolding candidate_le
  candidate_le_trans a b c h k = ground (
    arith,
    ordered.le_trans a.score c.score b.score,
    ordered.le_trans b.score a.score c.score,
    ordered.le_trans c.score a.score b.score,
    ordered.le_trans c.score b.score a.score,
    ordered.le_total a.score b.score,
    ordered.le_total b.score c.score,
  )

  candidate_le-ranks :
      (a b : ScoredCandidate fl.F) → candidate_le fl target a b ≡ true → ranks_at_least a b ≡ true
  unfolding candidate_le gap
  candidate_le-ranks a b h = ground (arith, ordered.le_total a.score b.score)

  ranked-IsSorted :
      (xs : List (ScoredCandidate fl.F))
      → IsSorted (candidate_le fl target) xs
      → IsSorted ranks_at_least xs
  ranked-IsSorted [] h = tt
  ranked-IsSorted (x ∷ xs) h = (
    All-map (λ y. candidate_le fl target x y ≡ true) (λ y. ranks_at_least x y ≡ true)
        (candidate_le-ranks x) xs h.0,
    ranked-IsSorted xs h.1,
  )

  -- Every candidate has at least the score of each one after it; among those with the same score it
  -- is no further in time from the target; and among those as far, its id is not greater.
  pub rank_candidates-IsSorted :
      (u : Unicode) (candidates : List ArticleFeatures) (stop_words : List Word)
      (weights : Weights fl) (threshold : fl.F)
      → IsSorted ranks_at_least
          (rank_candidates fl u target candidates stop_words weights threshold)
  unfolding rank_candidates
  rank_candidates-IsSorted u candidates stop_words weights threshold =
      ranked-IsSorted
        (sort_by (candidate_le fl target)
          (scored_candidates fl u target candidates stop_words weights threshold))
        (sort_by-IsSorted (candidate_le fl target) candidate_le_total candidate_le_trans
          (scored_candidates fl u target candidates stop_words weights threshold))

module _ (fl : Floats) (u : Unicode) (target : ArticleFeatures) (stop_words : List Word)
    (weights : Weights fl) (threshold : fl.F) where
  -- Another article, of other outlets, with the score of the pair, which reaches the threshold.
  abbrev pub IsMatch : ScoredCandidate fl.F → Type 0
  IsMatch item =
      (item.features.article_id ≢ target.article_id)
      × (shares_source target item.features ≡ false)
      × (item.score ≡ score_articles fl u target item.features stop_words weights)
      × (fl.le threshold item.score ≡ true)

  scored-IsMatch :
      (candidates : List ArticleFeatures)
      → All IsMatch (scored_candidates fl u target candidates stop_words weights threshold)
  unfolding score_candidate
  scored-IsMatch [] = tt
  scored-IsMatch (c ∷ candidates) = elim (Bool-cases (is_eligible target c)) [
    | inl e ↦
        rw e
          (elim (Bool-cases (fl.le threshold (score_articles fl u target c stop_words weights))) [
            | inl above ↦
                rw above ((ground arith, ground arith, refl, above), scored-IsMatch candidates)
            | inr below ↦ rw below (scored-IsMatch candidates)
          ])
    | inr e ↦ rw e (scored-IsMatch candidates)
  ]

  -- Every ranked candidate is another article with no outlet in common with the target, and carries
  -- the pair's score, which reaches the threshold.
  pub rank_candidates-IsMatch :
      (candidates : List ArticleFeatures)
      → All IsMatch (rank_candidates fl u target candidates stop_words weights threshold)
  unfolding rank_candidates
  rank_candidates-IsMatch candidates =
      All-sort_by (candidate_le fl target) IsMatch
        (scored_candidates fl u target candidates stop_words weights threshold)
        (scored-IsMatch candidates)

  scored_complete :
      (id : ℕ) (candidates : List ArticleFeatures)
      → any
          (λ item. item.features.article_id == id)
          (scored_candidates fl u target candidates stop_words weights threshold)
        ≡ any
            (λ c.
              c.article_id == id
              && (is_eligible target c
                  && fl.le threshold (score_articles fl u target c stop_words weights)))
            candidates
  unfolding score_candidate
  scored_complete id [] = refl
  scored_complete id (c ∷ candidates) = ground (arith, scored_complete id candidates)

  -- An article is ranked exactly if a candidate with its id is eligible (another article of other
  -- outlets) and its score reaches the threshold.
  pub rank_candidates_complete :
      (id : ℕ) (candidates : List ArticleFeatures)
      → any
          (λ item. item.features.article_id == id)
          (rank_candidates fl u target candidates stop_words weights threshold)
        ≡ any
            (λ c.
              c.article_id == id
              && (is_eligible target c
                  && fl.le threshold (score_articles fl u target c stop_words weights)))
            candidates
  unfolding rank_candidates
  rank_candidates_complete id candidates =
      any-sort_by (candidate_le fl target) (λ item. item.features.article_id == id)
        (scored_candidates fl u target candidates stop_words weights threshold)
      ∙ scored_complete id candidates
