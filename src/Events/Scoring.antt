-- ===== src/Events/Scoring.antt =====
-- backend/app/events/engine.py: the facts of clusters and events, and the score of a pair.
-- A country code of two letters is a number in the order of the codes.
use newsintel.Prelude.Sets.{nat_eq, word_eq, inter, union, nat_eq}
use newsintel.Clustering.Scoring.{jaccard}
use newsintel.Clustering.Features.{Word}
use newsintel.Clustering.Numbers.{Floats, one_float, zero_float, max_float}
use newsintel.Prelude.{
  ℕ, List, Option, ◌*◌, some, ◌∷◌, if◌then◌else◌, map, max, ◌==◌, [], length, eq_opt, ◌-◌, ◌||◌,
  none, min,
}

pub record ClusterFacts : Type 0 where
  pub id : ℕ
  pub first_published_at : ℕ
  pub last_published_at : ℕ
  pub title_tokens : List Word
  pub entity_ids : List ℕ
  pub country : Option ℕ

pub record EventFacts : Type 0 where
  pub id : ℕ
  pub started_at : Option ℕ
  pub ended_at : Option ℕ
  pub member_entities : List (List ℕ)
  pub member_titles : List (List Word)
  pub country : Option ℕ

-- The signals of a score, by their names in the code.
pub record Signals (F : Type 0) : Type 0 where
  pub time : F
  pub entities : F
  pub title : F
  pub location : F

pub record Score (F : Type 0) : Type 0 where
  pub total : F
  pub signals : Signals F

-- `EVENT_TIME_WINDOW = timedelta(hours=72)`
abbrev pub event_time_window : ℕ
event_time_window = 72 * 3600 * 1_000_000

abbrev pub event_min_shared_entities : ℕ
event_min_shared_entities = 2

abbrev pub event_candidate_limit : ℕ
event_candidate_limit = 50

-- `max(first, start) - min(last, end)`, or zero: subtraction on ℕ stops at 0.
abbrev pub span_gap : ClusterFacts → Option ℕ → Option ℕ → Option ℕ
span_gap cluster none ended = none
span_gap cluster (some started) none = none
span_gap cluster (some started) (some ended) =
    some (max cluster.first_published_at started - min cluster.last_published_at ended)

unfoldable pub time_gap : ClusterFacts → EventFacts → Option ℕ
time_gap cluster event = span_gap cluster event.started_at event.ended_at

module _ (fl : Floats) where
  -- `1.0 / math.log(math.e + article_count)`, with `euler` for `math.e`.
  unfoldable pub entity_weight : fl.F → ℕ → fl.F
  entity_weight euler article_count =
      fl.div (one_float fl) (fl.log (fl.add euler (fl.int_div article_count 1)))

  -- `weights.get(item, 1.0)`
  abbrev pub weight_or_one : List (ℕ × fl.F) → ℕ → fl.F
  weight_or_one [] item = one_float fl
  weight_or_one ((i, w) ∷ weights) item = if i == item then w else weight_or_one weights item

  -- `sum(…)` from the left.
  abbrev pub sum_items : List (ℕ × fl.F) → fl.F → List ℕ → fl.F
  sum_items weights acc [] = acc
  sum_items weights acc (i ∷ items) = sum_items weights (fl.add acc (weight_or_one weights i)) items

  -- The code is generic in the items; it is used for entities only.
  unfoldable pub weighted_jaccard : List ℕ → List ℕ → List (ℕ × fl.F) → fl.F
  weighted_jaccard left right weights =
      if length left == 0 || length right == 0
      then zero_float fl
      else fl.div (sum_items weights (zero_float fl) (inter left right))
          (sum_items weights (zero_float fl) (union left right))

  -- `max(…, default=0.0)`, which keeps the first of equal values.
  abbrev pub max_after : fl.F → List fl.F → fl.F
  max_after best [] = best
  max_after best (x ∷ xs) = max_after (max_float fl best x) xs

  abbrev pub max_default : List fl.F → fl.F
  max_default [] = zero_float fl
  max_default (x ∷ xs) = max_after x xs

  abbrev pub time_signal : Option ℕ → fl.F
  time_signal none = zero_float fl
  time_signal (some gap) =
      max_float fl (zero_float fl) (fl.sub (one_float fl) (fl.int_div gap event_time_window))

  -- `cluster.country is not None and cluster.country == event.country`
  abbrev pub location_signal : Option ℕ → Option ℕ → fl.F
  location_signal none other = zero_float fl
  location_signal (some code) other =
      if eq_opt (some code) other then one_float fl else zero_float fl

  unfoldable pub score_cluster : ClusterFacts → EventFacts → List (ℕ × fl.F) → Score fl.F
  unfolding time_gap weighted_jaccard
  score_cluster cluster event weights =
      let time = time_signal (time_gap cluster event) in
      let entities =
        max_default
          (map (λ e. weighted_jaccard cluster.entity_ids e weights) event.member_entities) in
      let title = max_default (map (λ t. jaccard fl cluster.title_tokens t) event.member_titles) in
      let location = location_signal cluster.country event.country in
      record {
        total =
            fl.add
              (fl.add (fl.add (fl.mul (fl.hundredths 25) time) (fl.mul (fl.hundredths 40) entities))
                (fl.mul (fl.hundredths 20) title))
              (fl.mul (fl.hundredths 15) location);
        signals = record { time = time; entities = entities; title = title; location = location };
      }
