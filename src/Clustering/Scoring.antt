-- ===== src/Clustering/Scoring.antt =====
-- backend/app/clustering/engine.py: term weights, overlaps and the score of a pair of articles.
pub mod Bounds
use newsintel.Prelude.{
  ℕ, ◌+◌, ◌-◌, ◌||◌, List, [], ◌∷◌, map, ltb, ◌==◌, if◌then◌else◌, length, min, max,
}
use newsintel.Prelude.Sets.{Eq, beq_list, nat_eq, word_eq, inter, union}
use newsintel.Clustering.Numbers.{Floats, zero_float, one_float, max_float, min_float}
use newsintel.Clustering.Features.{
  Word, ArticleFeatures, cluster_time_window, cluster_minimum_shared_terms, term_overlap_floor,
  term_overlap_ceiling, term_weight_minimum_window,
}
use newsintel.Clustering.Wording.{Unicode, title_tokens}

-- `abs(left - right)` of two datetimes, in microseconds.
unfoldable pub gap : ℕ → ℕ → ℕ
gap a b = (a - b) + (b - a)

module _ (fl : Floats) where
  abbrev pub Weights : Type 0
  Weights = List (Word × fl.F)

  -- `weights.get(term, 0.0)`
  abbrev pub weight_of : Weights → Word → fl.F
  weight_of [] term = zero_float fl
  weight_of ((t, w) ∷ weights) term = if beq_list t term then w else weight_of weights term

  unfoldable pub term_weights : List (Word × ℕ) → ℕ → Weights
  term_weights frequencies window_articles =
      let window = max window_articles term_weight_minimum_window in
      let scale = fl.log (fl.int_div window 1) in
      map
        (λ entry. (
          entry.0,
          max_float fl (zero_float fl) (fl.div (fl.log (fl.int_div window (max entry.1 1))) scale),
        ))
        frequencies

  -- `sum(weights.get(term, 0.0) for term in shared)`, from the left.
  abbrev pub sum_weights : Weights → fl.F → List Word → fl.F
  sum_weights weights acc [] = acc
  sum_weights weights acc (t ∷ terms) = sum_weights weights (fl.add acc (weight_of weights t)) terms

  unfoldable pub term_overlap : List Word → List Word → Weights → fl.F
  term_overlap left right weights =
      let shared = inter left right in
      let denominator =
        min (max (min (length left) (length right)) term_overlap_floor) term_overlap_ceiling in
      if ltb (length shared) cluster_minimum_shared_terms
      then zero_float fl
      else min_float fl (one_float fl)
          (fl.div (sum_weights weights (zero_float fl) shared) (fl.int_div denominator 1))

  -- A union of two sets that are not empty is not empty, and the code tests it all the same.
  unfoldable pub jaccard : {A : Type 0} ⦃e : Eq A⦄ → List A → List A → fl.F
  jaccard left right =
      if length left == 0 || length right == 0
      then zero_float fl
      else let whole = length (union left right) in
        if whole == 0 then zero_float fl else fl.int_div (length (inter left right)) whole

  -- `total_seconds` divides the microseconds by 10 ** 6.
  unfoldable pub time_proximity : ℕ → ℕ → ℕ → fl.F
  unfolding gap
  time_proximity left right window = max_float fl (zero_float fl) (
      fl.sub (one_float fl)
        (fl.div (fl.int_div (gap left right) 1_000_000) (fl.int_div window 1_000_000)))

  unfoldable pub score_articles :
      Unicode → ArticleFeatures → ArticleFeatures → List Word → Weights → fl.F
  unfolding jaccard time_proximity term_overlap
  score_articles u target candidate stop_words weights =
      let title =
        jaccard (title_tokens u target.title stop_words)
          (title_tokens u candidate.title stop_words) in
      let entities = jaccard target.entity_ids candidate.entity_ids in
      let proximity =
        time_proximity target.effective_date candidate.effective_date cluster_time_window in
      let headline =
        fl.add (fl.add (fl.mul (fl.hundredths 50) title) (fl.mul (fl.hundredths 35) entities))
          (fl.mul (fl.hundredths 15) proximity) in
      let wording =
        fl.mul (fl.sub (fl.hundredths 100) (fl.hundredths 15))
          (term_overlap target.terms candidate.terms weights) in
      if length weights == 0
      then headline
      else max_float fl headline (fl.add wording (fl.mul (fl.hundredths 15) proximity))
