-- ===== src/Clustering/Scoring/Bounds.antt =====
-- The range of every part of a score (backend/app/clustering/engine.py).
use newsintel.Prelude.{
  ℕ, ◌≤◌, ◌≡◌, inl, inr, true, ◌||◌, List, [], ◌∷◌, ◌++◌, arith, ltb, ◌==◌, if◌then◌else◌, length,
  All, Bool-cases, keep, not,
}
use newsintel.Prelude.Sets.{Eq, nat_eq, word_eq, contains, inter, union, beq_list, length-inter-le}
use newsintel.Clustering.Numbers.{Floats, IsRounded, zero_float, one_float, max_float, min_float}
use newsintel.Clustering.Features.{Word, ArticleFeatures, cluster_time_window}
use newsintel.Clustering.Wording.{Unicode, title_tokens}
use newsintel.Clustering.Scoring.{
  Weights, weight_of, term_weights, sum_weights, term_overlap, jaccard, time_proximity,
  score_articles,
}

length-append-le : {A : Type 0} (xs ys : List A) → length xs ≤ length (xs ++ ys)
length-append-le [] ys = omega arith
length-append-le (x ∷ xs) ys = omega (arith, length-append-le xs ys)

module _ (fl : Floats) (rounded : IsRounded fl) where
  -- Between 0.0 and 1.0.
  abbrev InUnit : fl.F → Type 0
  InUnit x = (fl.le (fl.hundredths 0) x ≡ true) × (fl.le x (fl.hundredths 100) ≡ true)

  zero-InUnit : InUnit (zero_float fl)
  zero-InUnit = (rounded.ordered.le_refl (fl.hundredths 0), rounded.zero_le_one)

  max-InUnit :
      (a b : fl.F) → InUnit a → fl.le b (fl.hundredths 100) ≡ true → InUnit (max_float fl a b)
  max-InUnit a b ha hb = elim (Bool-cases (fl.le b a)) [
    | inl e ↦ rw e ha
    | inr e ↦ rw e (rounded.ordered.le_trans _ _ _ ha.0 (rounded.ordered.le_total b a e), hb)
  ]

  min-InUnit :
      (b : fl.F) → fl.le (fl.hundredths 0) b ≡ true → InUnit (min_float fl (one_float fl) b)
  min-InUnit b hb = elim (Bool-cases (fl.le (fl.hundredths 100) b)) [
    | inl e ↦ rw e (rounded.zero_le_one, rounded.ordered.le_refl _)
    | inr e ↦ rw e (hb, rounded.ordered.le_total _ _ e)
  ]

  part-InUnit :
      {A : Type 0} ⦃e : Eq A⦄ (left right : List A)
      → InUnit (
          if length (union left right) == 0
          then zero_float fl
          else fl.int_div (length (inter left right)) (length (union left right)))
  part-InUnit left right = elim (Bool-cases (length (union left right) == 0)) [
    | inl e ↦ rw e zero-InUnit
    | inr e ↦ rw e (
      rounded.int_div_nonneg _ _,
      rounded.int_div_le_one _ _ (ground arith) (
          omega (
            arith,
            length-inter-le left right,
            length-append-le left (keep (λ x. not (contains left x)) right),
          )),
    )
  ]

  jaccard-InUnit : {A : Type 0} ⦃e : Eq A⦄ (left right : List A) → InUnit (jaccard fl left right)
  unfolding jaccard
  jaccard-InUnit left right = elim (Bool-cases (length left == 0 || length right == 0)) [
    | inl e ↦ rw e zero-InUnit
    | inr e ↦ rw e (part-InUnit left right)
  ]

  proximity-InUnit : (left right window : ℕ) → InUnit (time_proximity fl left right window)
  unfolding time_proximity
  proximity-InUnit left right window = max-InUnit _ _ zero-InUnit (
      rounded.sub_le _ _
        (rounded.div_nonneg _ _ (rounded.int_div_nonneg _ _) (rounded.int_div_nonneg _ _)))

  abbrev AreNonneg : Weights fl → Type 0
  AreNonneg = All (λ entry. fl.le (fl.hundredths 0) entry.1 ≡ true)

  weight_of_nonneg :
      (weights : Weights fl) (term : Word)
      → AreNonneg weights
      → fl.le (fl.hundredths 0) (weight_of fl weights term) ≡ true
  weight_of_nonneg [] term h = rounded.ordered.le_refl _
  weight_of_nonneg ((t, w) ∷ weights) term h = elim (Bool-cases (beq_list t term)) [
    | inl e ↦ rw e h.0
    | inr e ↦ rw e (weight_of_nonneg weights term h.1)
  ]

  sum_weights_nonneg :
      (weights : Weights fl) (acc : fl.F) (terms : List Word)
      → AreNonneg weights
      → fl.le (fl.hundredths 0) acc ≡ true
      → fl.le (fl.hundredths 0) (sum_weights fl weights acc terms) ≡ true
  sum_weights_nonneg weights acc [] h ha = ha
  sum_weights_nonneg weights acc (t ∷ terms) h ha =
      sum_weights_nonneg weights (fl.add acc (weight_of fl weights t)) terms h
        (rounded.add_nonneg _ _ ha (weight_of_nonneg weights t h))

  overlap-InUnit :
      (left right : List Word) (weights : Weights fl)
      → AreNonneg weights
      → InUnit (term_overlap fl left right weights)
  unfolding term_overlap
  overlap-InUnit left right weights h = elim (Bool-cases (ltb (length (inter left right)) 4)) [
    | inl e ↦ rw e zero-InUnit
    | inr e ↦ rw e (
        min-InUnit _ (
          rounded.div_nonneg _ _
            (sum_weights_nonneg weights _ (inter left right) h (rounded.ordered.le_refl _))
            (rounded.int_div_nonneg _ _)))
  ]

  max_nonneg : (b : fl.F) → fl.le (fl.hundredths 0) (max_float fl (zero_float fl) b) ≡ true
  max_nonneg b = elim (Bool-cases (fl.le b (fl.hundredths 0))) [
    | inl e ↦ rw e (rounded.ordered.le_refl _)
    | inr e ↦ rw e (rounded.ordered.le_total _ _ e)
  ]

  term_weights_nonneg :
      (frequencies : List (Word × ℕ)) (window_articles : ℕ)
      → AreNonneg (term_weights fl frequencies window_articles)
  unfolding term_weights
  term_weights_nonneg [] window_articles = tt
  term_weights_nonneg (f ∷ frequencies) window_articles =
      (max_nonneg _, term_weights_nonneg frequencies window_articles)

  weighted-InUnit :
      (weight x : fl.F)
      → fl.le (fl.hundredths 0) weight ≡ true
      → InUnit x
      → (fl.le (fl.hundredths 0) (fl.mul weight x) ≡ true) × (fl.le (fl.mul weight x) weight ≡ true)
  weighted-InUnit weight x hw h = (rounded.mul_nonneg _ _ hw h.0, rounded.mul_unit _ _ hw h.0 h.1)

  -- Whatever the articles, and with the weights that the window gives, a score lies between 0.0 and
  -- 1.0, so it is comparable with the threshold.
  pub score_articles_bounds :
      (u : Unicode) (target candidate : ArticleFeatures) (stop_words : List Word)
      (frequencies : List (Word × ℕ)) (window_articles : ℕ)
      → let score =
          score_articles fl u target candidate stop_words
            (term_weights fl frequencies window_articles) in
        (fl.le (fl.hundredths 0) score ≡ true) × (fl.le score (fl.hundredths 100) ≡ true)
  unfolding score_articles
  score_articles_bounds u target candidate stop_words frequencies window_articles =
      let weights = term_weights fl frequencies window_articles in
      let title =
        jaccard-InUnit (title_tokens u target.title stop_words)
          (title_tokens u candidate.title stop_words) in
      let entities = jaccard-InUnit target.entity_ids candidate.entity_ids in
      let near =
        weighted-InUnit (fl.hundredths 15) _ (rounded.hundredths_nonneg 15)
          (proximity-InUnit target.effective_date candidate.effective_date cluster_time_window) in
      let t = weighted-InUnit (fl.hundredths 50) _ (rounded.hundredths_nonneg 50) title in
      let n = weighted-InUnit (fl.hundredths 35) _ (rounded.hundredths_nonneg 35) entities in
      let headline : InUnit _ = (
        rounded.add_nonneg _ _ (rounded.add_nonneg _ _ t.0 n.0) near.0,
        rounded.ordered.le_trans _ _ _
            (rounded.add_mono _ _ _ _ (rounded.add_mono _ _ _ _ t.1 n.1) near.1)
            rounded.headline_weights,
      ) in
      let w =
        weighted-InUnit (fl.sub (fl.hundredths 100) (fl.hundredths 15)) _
          rounded.wording_weight_nonneg
          (overlap-InUnit target.terms candidate.terms weights
            (term_weights_nonneg frequencies window_articles)) in
      let wording =
        rounded.ordered.le_trans _ _ _ (rounded.add_mono _ _ _ _ w.1 near.1)
          rounded.wording_weights in
      elim (Bool-cases (length weights == 0)) [
        | inl e ↦ rw e headline
        | inr e ↦ rw e (max-InUnit _ _ headline wording)
      ]
