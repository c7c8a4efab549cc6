-- ===== src/Events/Choice.antt =====
-- `choose_event` of backend/app/events/engine.py.
pub mod Best
pub mod Least
use newsintel.Clustering.Numbers.{Floats}
use newsintel.Events.Scoring.{EventFacts, Score, ClusterFacts, score_cluster, time_gap}
use newsintel.Prelude.{
  ℕ, Option, some, Bool, List, none, false, if◌then◌else◌, ◌∷◌, ◌==◌, ◌&&◌, [], ◌||◌, ltb, not,
}

-- An entry of `ranked`: the pair of the event and its score, and the gap that ranks it.
pub record Ranked (F : Type 0) : Type 0 where
  pub event : EventFacts
  pub score : Score F
  pub gap : ℕ

-- `time_gap(…) or timedelta(0)`
abbrev pub gap_or_zero : Option ℕ → ℕ
gap_or_zero none = 0
gap_or_zero (some gap) = gap

-- `current is not None and event.id == current.id`
abbrev pub is_event : Option EventFacts → EventFacts → Bool
is_event none event = false
is_event (some current) event = event.id == current.id

module _ (fl : Floats) where
  -- `score.total >= EVENT_SCORE_THRESHOLD`, which is 0.5
  abbrev pub reaches : Score fl.F → Bool
  reaches score = fl.le (fl.hundredths 50) score.total

  -- `a < b` of the keys `(-score.total, gap, event.id)`: the totals first, where the greater comes
  -- first, then the gaps, then the ids.
  abbrev pub ranks_before : Ranked fl.F → Ranked fl.F → Bool
  ranks_before a b =
      if fl.le a.score.total b.score.total && fl.le b.score.total a.score.total
      then ltb a.gap b.gap || (a.gap == b.gap && ltb a.event.id b.event.id)
      else not (fl.le a.score.total b.score.total)

  -- `min(ranked, key=…)`, which keeps the first of equal keys.
  abbrev pub min_ranked : Ranked fl.F → List (Ranked fl.F) → Ranked fl.F
  min_ranked best [] = best
  min_ranked best (r ∷ ranked) = min_ranked (if ranks_before r best then r else best) ranked

  abbrev pub rank : ClusterFacts → List (ℕ × fl.F) → EventFacts → Ranked fl.F
  rank cluster weights event = record {
    event = event;
    score = score_cluster fl cluster event weights;
    gap = gap_or_zero (time_gap cluster event);
  }

  unfoldable pub rank_events :
      ClusterFacts → Option EventFacts → List (ℕ × fl.F) → List EventFacts → List (Ranked fl.F)
  rank_events cluster current weights [] = []
  rank_events cluster current weights (event ∷ events) =
      let rest = rank_events cluster current weights events in
      if is_event current event || not (reaches (score_cluster fl cluster event weights))
      then rest
      else rank cluster weights event ∷ rest

  abbrev pub best_of : List (Ranked fl.F) → Option (EventFacts × Score fl.F)
  best_of [] = none
  best_of (r ∷ ranked) = let best = min_ranked r ranked in some (best.event, best.score)

  abbrev pub choose_after :
      Option EventFacts
      → ClusterFacts
      → List EventFacts
      → List (ℕ × fl.F)
      → Option (EventFacts × Score fl.F)
  choose_after none cluster candidates weights =
      best_of (rank_events cluster none weights candidates)
  choose_after (some current) cluster candidates weights =
      let score = score_cluster fl cluster current weights in
      let rest = best_of (rank_events cluster (some current) weights candidates) in
      if reaches score then some (current, score) else rest

  unfoldable pub choose_event :
      ClusterFacts
      → List EventFacts
      → Option EventFacts
      → List (ℕ × fl.F)
      → Option (EventFacts × Score fl.F)
  choose_event cluster candidates current weights = choose_after current cluster candidates weights
