-- ===== src/Events/Choice/Best.antt =====
-- What `choose_event` chooses (backend/app/events/engine.py).
use mathlib.Core.Option.{some-injective}
use newsintel.Events.Choice.{
  rank_events, choose_event, Ranked, best_of, reaches, is_event, min_ranked, rank, ranks_before,
}
use newsintel.Events.Scoring.{ClusterFacts, EventFacts, Score, score_cluster}
use newsintel.Clustering.Numbers.{Floats}
use newsintel.Prelude.{
  refl, ℕ, List, Option, ◌≡◌, All, Bool, is_some, ◌∷◌, some, not, false, ◌||◌, any, true, ◌&&◌,
  none, arith, Bool-cases, [], inl, inr, if◌then◌else◌, subst, sym, then_branch, ◌∙◌,
}

module _ (fl : Floats) where
  -- The scores that the events have, and that their score reaches the threshold.
  abbrev IsScored : ClusterFacts → List (ℕ × fl.F) → Ranked fl.F → Type 0
  IsScored cluster weights r =
      (r.score ≡ score_cluster fl cluster r.event weights) × (reaches fl r.score ≡ true)

  rank_one :
      (cluster : ClusterFacts) (weights : List (ℕ × fl.F)) (e : EventFacts)
      (rest : List (Ranked fl.F)) (same good : Bool)
      → reaches fl (score_cluster fl cluster e weights) ≡ good
      → All (IsScored cluster weights) rest
      → All
          (IsScored cluster weights)
          (if same || not good then rest else rank fl cluster weights e ∷ rest)
  rank_one cluster weights e rest true good h k = k
  rank_one cluster weights e rest false true h k = ((refl, h), k)
  rank_one cluster weights e rest false false h k = k

  rank_events-IsScored :
      (cluster : ClusterFacts) (current : Option EventFacts) (weights : List (ℕ × fl.F))
      (events : List EventFacts)
      → All (IsScored cluster weights) (rank_events fl cluster current weights events)
  unfolding rank_events
  rank_events-IsScored cluster current weights [] = tt
  rank_events-IsScored cluster current weights (e ∷ events) =
      rank_one cluster weights e (rank_events fl cluster current weights events)
        (is_event current e) (reaches fl (score_cluster fl cluster e weights)) refl
        (rank_events-IsScored cluster current weights events)

  pub min_ranked-All :
      (P : Ranked fl.F → Type 0) (best : Ranked fl.F) (rs : List (Ranked fl.F))
      → P best
      → All P rs
      → P (min_ranked fl best rs)
  min_ranked-All P best [] h k = h
  min_ranked-All P best (r ∷ rs) h k =
      min_ranked-All P (if ranks_before fl r best then r else best) rs
        (elim (ranks_before fl r best) as (λ b. P (if b then r else best)) [
          | true ↦ k.0
          | false ↦ h
        ])
        k.1

  best_of-IsScored :
      (cluster : ClusterFacts) (weights : List (ℕ × fl.F)) (rs : List (Ranked fl.F))
      (event : EventFacts) (score : Score fl.F)
      → All (IsScored cluster weights) rs
      → best_of fl rs ≡ some (event, score)
      → (score ≡ score_cluster fl cluster event weights) × (reaches fl score ≡ true)
  best_of-IsScored cluster weights [] event score h e = cc
  best_of-IsScored cluster weights (r ∷ rs) event score h e =
      let best = min_ranked fl r rs in
      let good = min_ranked-All (IsScored cluster weights) r rs h.0 h.1 in
      let same : (best.event, best.score) ≡ (event, score) =
        some-injective (best.event, best.score) (event, score) e in
      subst (λ p. (p.1 ≡ score_cluster fl cluster p.0 weights) × (reaches fl p.1 ≡ true)) same good

  -- Whatever is chosen, the current event or a candidate: the score that is returned with it is the
  -- event's own for this cluster, and it reaches the threshold.
  pub choose_event-reaches :
      (cluster : ClusterFacts) (candidates : List EventFacts) (current : Option EventFacts)
      (weights : List (ℕ × fl.F)) (event : EventFacts) (score : Score fl.F)
      → choose_event fl cluster candidates current weights ≡ some (event, score)
      → (score ≡ score_cluster fl cluster event weights) × (reaches fl score ≡ true)
  unfolding choose_event
  choose_event-reaches cluster candidates none weights event score e =
      best_of-IsScored cluster weights (rank_events fl cluster none weights candidates) event score
        (rank_events-IsScored cluster none weights candidates) e
  choose_event-reaches cluster candidates (some current) weights event score e =
      elim (Bool-cases (reaches fl (score_cluster fl cluster current weights))) [
        | inl t ↦
            (let own = score_cluster fl cluster current weights in
              let same : (current, own) ≡ (event, score) =
                some-injective (current, own) (event, score)
                  (sym (
                      then_branch (reaches fl own) (some (current, own))
                        (best_of fl (rank_events fl cluster (some current) weights candidates)) t)
                    ∙ e) in
              subst (λ p. (p.1 ≡ score_cluster fl cluster p.0 weights) × (reaches fl p.1 ≡ true))
                same (refl, t))
        | inr f ↦
            best_of-IsScored cluster weights
              (rank_events fl cluster (some current) weights candidates) event score
              (rank_events-IsScored cluster (some current) weights candidates) (ground arith)
      ]

  abbrev pub offers : ClusterFacts → Option EventFacts → List (ℕ × fl.F) → EventFacts → Bool
  offers cluster current weights e =
      not (is_event current e) && reaches fl (score_cluster fl cluster e weights)

  abbrev pub stays : ClusterFacts → Option EventFacts → List (ℕ × fl.F) → Bool
  stays cluster none weights = false
  stays cluster (some current) weights = reaches fl (score_cluster fl cluster current weights)

  best_of-is_some :
      (cluster : ClusterFacts) (current : Option EventFacts) (weights : List (ℕ × fl.F))
      (events : List EventFacts)
      → is_some (best_of fl (rank_events fl cluster current weights events))
        ≡ any (offers cluster current weights) events
  unfolding rank_events
  best_of-is_some cluster current weights [] = refl
  best_of-is_some cluster current weights (e ∷ events) =
      ground (arith, best_of-is_some cluster current weights events)

  -- An event is chosen exactly if the current one, or a candidate other than it, has a score that
  -- reaches the threshold.
  pub choose_event_iff :
      (cluster : ClusterFacts) (candidates : List EventFacts) (current : Option EventFacts)
      (weights : List (ℕ × fl.F))
      → is_some (choose_event fl cluster candidates current weights)
        ≡ (stays cluster current weights || any (offers cluster current weights) candidates)
  unfolding choose_event
  choose_event_iff cluster candidates none weights = best_of-is_some cluster none weights candidates
  choose_event_iff cluster candidates (some current) weights =
      ground (arith, best_of-is_some cluster (some current) weights candidates)
