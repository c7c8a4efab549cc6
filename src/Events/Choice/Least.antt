-- ===== src/Events/Choice/Least.antt =====
-- The order in which `choose_event` of backend/app/events/engine.py ranks events.
use newsintel.Events.Choice.Best.{min_ranked-All, stays, offers}
use mathlib.Core.Option.{some-injective}
use newsintel.Events.Choice.{
  rank_events, choose_event, Ranked, best_of, reaches, is_event, min_ranked, rank, ranks_before,
  gap_or_zero,
}
use newsintel.Events.Scoring.{ClusterFacts, EventFacts, Score, score_cluster, time_gap}
use newsintel.Clustering.Numbers.{Floats, IsOrdered}
use newsintel.Prelude.{
  refl, ℕ, List, Option, ◌≡◌, All, Bool, ◌∷◌, some, not, false, ◌||◌, true, none, arith, [],
  if◌then◌else◌, subst, ◌∙◌, ap, ◌&&◌, Bool-cases, leb, inl, ◌==◌, inr,
}

module _ (fl : Floats) (ordered : IsOrdered fl) where
  ranks_before_irrefl : (a : Ranked fl.F) → ranks_before fl a a ≡ false
  ranks_before_irrefl a = ground (arith, ordered.le_refl a.score.total)

  not_before_trans :
      (a b c : Ranked fl.F)
      → ranks_before fl a b ≡ false
      → ranks_before fl b c ≡ false
      → ranks_before fl a c ≡ false
  not_before_trans a b c h k = ground (
    arith,
    ordered.le_trans a.score.total b.score.total c.score.total,
    ordered.le_trans b.score.total c.score.total a.score.total,
    ordered.le_trans c.score.total a.score.total b.score.total,
    ordered.le_trans c.score.total b.score.total a.score.total,
    ordered.le_trans b.score.total a.score.total c.score.total,
    ordered.le_trans a.score.total c.score.total b.score.total,
    ordered.le_total a.score.total b.score.total,
    ordered.le_total b.score.total c.score.total,
    ordered.le_total a.score.total c.score.total,
    ordered.le_total b.score.total a.score.total,
    ordered.le_total c.score.total b.score.total,
    ordered.le_total c.score.total a.score.total,
  )

  asym : (a b : Ranked fl.F) → ranks_before fl a b ≡ true → ranks_before fl b a ≡ false
  asym a b h = ground (
    arith,
    ordered.le_total a.score.total b.score.total,
    ordered.le_total b.score.total a.score.total,
  )

  not_after :
      (r best : Ranked fl.F) (before : Bool)
      → ranks_before fl r best ≡ before
      → (ranks_before fl best (if before then r else best) ≡ false)
        × (ranks_before fl r (if before then r else best) ≡ false)
  not_after r best true h = (asym r best h, ranks_before_irrefl r)
  not_after r best false h = (ranks_before_irrefl best, h)

  least :
      (best : Ranked fl.F) (rs : List (Ranked fl.F))
      → All (λ r. ranks_before fl r (min_ranked fl best rs) ≡ false) (best ∷ rs)
  least best [] = (ranks_before_irrefl best, tt)
  least best (r ∷ rs) =
      let following = if ranks_before fl r best then r else best in
      let rest = least following rs in
      let both = not_after r best (ranks_before fl r best) refl in
      let end = min_ranked fl following rs in
      (
        not_before_trans best following end both.0 rest.0,
        (not_before_trans r following end both.1 rest.0, rest.1),
      )

  abbrev IsRank : ClusterFacts → List (ℕ × fl.F) → Ranked fl.F → Type 0
  IsRank cluster weights r = r ≡ rank fl cluster weights r.event

  keep_rank :
      (cluster : ClusterFacts) (weights : List (ℕ × fl.F)) (e : EventFacts)
      (rest : List (Ranked fl.F)) (skip : Bool)
      → All (IsRank cluster weights) rest
      → All (IsRank cluster weights) (if skip then rest else rank fl cluster weights e ∷ rest)
  keep_rank cluster weights e rest true k = k
  keep_rank cluster weights e rest false k = (refl, k)

  rank_events-IsRank :
      (cluster : ClusterFacts) (current : Option EventFacts) (weights : List (ℕ × fl.F))
      (events : List EventFacts)
      → All (IsRank cluster weights) (rank_events fl cluster current weights events)
  unfolding rank_events
  rank_events-IsRank cluster current weights [] = tt
  rank_events-IsRank cluster current weights (e ∷ events) =
      keep_rank cluster weights e (rank_events fl cluster current weights events)
        (is_event current e || not (reaches fl (score_cluster fl cluster e weights)))
        (rank_events-IsRank cluster current weights events)

  best_of-least :
      (cluster : ClusterFacts) (weights : List (ℕ × fl.F)) (rs : List (Ranked fl.F))
      (event : EventFacts) (score : Score fl.F)
      → All (IsRank cluster weights) rs
      → best_of fl rs ≡ some (event, score)
      → All (λ r. ranks_before fl r (rank fl cluster weights event) ≡ false) rs
  best_of-least cluster weights [] event score h e = tt
  best_of-least cluster weights (r ∷ rs) event score h e =
      let best = min_ranked fl r rs in
      let own = min_ranked-All fl (IsRank cluster weights) r rs h.0 h.1 in
      let same : (best.event, best.score) ≡ (event, score) =
        some-injective (best.event, best.score) (event, score) e in
      let chosen : best ≡ rank fl cluster weights event =
        own ∙ ap (λ p. rank fl cluster weights p.0) same in
      subst (λ b. All (λ x. ranks_before fl x b ≡ false) (r ∷ rs)) chosen (least r rs)

  -- `e` is no better an event for the cluster than `chosen`: its score is not greater; if the scores
  -- are equal it is not nearer in time; and if it is as near its id is not smaller.
  abbrev pub is_no_better : ClusterFacts → List (ℕ × fl.F) → EventFacts → EventFacts → Bool
  is_no_better cluster weights chosen e =
      let own = (score_cluster fl cluster chosen weights).total in
      let other = (score_cluster fl cluster e weights).total in
      let near = gap_or_zero (time_gap cluster chosen) in
      let far = gap_or_zero (time_gap cluster e) in
      fl.le other own
      && (not (fl.le own other) || (leb near far && (not (near == far) || leb chosen.id e.id)))

  not_before-no_better :
      (cluster : ClusterFacts) (weights : List (ℕ × fl.F)) (chosen e : EventFacts)
      → ranks_before fl (rank fl cluster weights e) (rank fl cluster weights chosen) ≡ false
      → is_no_better cluster weights chosen e ≡ true
  not_before-no_better cluster weights chosen e h = ground arith

  ranked_in :
      (same good : Bool) (P : Ranked fl.F → Type 0) (r : Ranked fl.F) (rest : List (Ranked fl.F))
      → (not same && good) ≡ true
      → All P (if same || not good then rest else r ∷ rest)
      → P r × All P rest
  ranked_in true good P r rest e h = cc
  ranked_in false true P r rest e h = h
  ranked_in false false P r rest e h = cc

  ranked_out :
      (same good : Bool) (P : Ranked fl.F → Type 0) (r : Ranked fl.F) (rest : List (Ranked fl.F))
      → (not same && good) ≡ false
      → All P (if same || not good then rest else r ∷ rest)
      → All P rest
  ranked_out true good P r rest e h = h
  ranked_out false true P r rest e h = cc
  ranked_out false false P r rest e h = h

  ranked-no_better :
      (cluster : ClusterFacts) (current : Option EventFacts) (weights : List (ℕ × fl.F))
      (chosen : EventFacts) (events : List EventFacts)
      → All
          (λ r. ranks_before fl r (rank fl cluster weights chosen) ≡ false)
          (rank_events fl cluster current weights events)
      → All
          (λ e.
            (not (offers fl cluster current weights e) || is_no_better cluster weights chosen e)
            ≡ true)
          events
  unfolding rank_events
  ranked-no_better cluster current weights chosen [] h = tt
  ranked-no_better cluster current weights chosen (e ∷ events) h =
      elim (Bool-cases (offers fl cluster current weights e)) [
        | inl t ↦
            let take =
              ranked_in (is_event current e) (reaches fl (score_cluster fl cluster e weights)) _ _ _
                t h in
            let better = not_before-no_better cluster weights chosen e take.0 in
            (rw (t, better) refl, ranked-no_better cluster current weights chosen events take.1)
        | inr n ↦
            let rest =
              ranked_out (is_event current e) (reaches fl (score_cluster fl cluster e weights)) _ _
                _ n h in
            (rw n refl, ranked-no_better cluster current weights chosen events rest)
      ]

  -- When the cluster does not stay where it is and an event is chosen, no other candidate that
  -- reaches the threshold and is not the current event is better: each has a smaller score, or the
  -- same score and a longer gap in time, or the same of both and no smaller id.
  pub choose_event-least :
      (cluster : ClusterFacts) (candidates : List EventFacts) (current : Option EventFacts)
      (weights : List (ℕ × fl.F)) (event : EventFacts) (score : Score fl.F)
      → stays fl cluster current weights ≡ false
      → choose_event fl cluster candidates current weights ≡ some (event, score)
      → All
          (λ e.
            (not (offers fl cluster current weights e) || is_no_better cluster weights event e)
            ≡ true)
          candidates
  unfolding choose_event
  choose_event-least cluster candidates none weights event score h e =
      ranked-no_better cluster none weights event candidates (
        best_of-least cluster weights (rank_events fl cluster none weights candidates) event score
          (rank_events-IsRank cluster none weights candidates) e)
  choose_event-least cluster candidates (some current) weights event score h e =
      ranked-no_better cluster (some current) weights event candidates (
        best_of-least cluster weights (rank_events fl cluster (some current) weights candidates)
          event score (rank_events-IsRank cluster (some current) weights candidates) (ground arith))
