-- ===== src/Events/Tests.antt =====
-- A small set of events (backend/app/events).
use newsintel.Events.Choice.Least.{choose_event-least, is_no_better}
use newsintel.Clustering.Scoring.{jaccard}
use newsintel.Events.Choice.Best.{stays, choose_event-reaches, offers, choose_event_iff}
use newsintel.Clustering.Fixed.{fixed, fixed-IsRounded}
use newsintel.Prelude.Text.{codes}
use newsintel.Events.Facts.{decision_of, current_event, is_dirty, decided_at}
use newsintel.Events.Laws.{
  links_of, associate_cluster-keeps, associate_cluster-links_of, associate_cluster-decision_of,
}
use newsintel.Events.Store.{ClusterRow, EventCluster, Tables, associate_cluster, blank_event}
use newsintel.Events.Choice.{choose_event, rank_events, reaches}
use newsintel.Events.Scoring.{
  ClusterFacts, EventFacts, Score, score_cluster, weighted_jaccard, time_gap,
}
use newsintel.Prelude.{
  refl, ℕ, ◌≡◌, is_some, some, [], none, ◌∷◌, ◌≤◌, true, ◌||◌, arith, any, false, All, not,
}

abbrev cluster : ClusterFacts
cluster = record {
  id = 3;
  first_published_at = 1000;
  last_published_at = 2000;
  title_tokens = codes "strike" ∷ [];
  entity_ids = 8 ∷ 9 ∷ [];
  country = some 7;
}

abbrev near : EventFacts
near = record {
  id = 21;
  started_at = some 1500;
  ended_at = some 1900;
  member_entities = (8 ∷ 9 ∷ []) ∷ [];
  member_titles = (codes "strike" ∷ []) ∷ [];
  country = some 7;
}

abbrev far : EventFacts
far = record near { id = 22; member_entities = []; member_titles = []; country = none }

abbrev near_score : Score ℕ
near_score = record {
  total = 10_000;
  signals = record { time = 10_000; entities = 10_000; title = 10_000; location = 10_000 };
}

near-chosen : choose_event fixed cluster (far ∷ near ∷ []) none [] ≡ some (near, near_score)
unfolding choose_event rank_events score_cluster weighted_jaccard time_gap jaccard
near-chosen = refl

choose_event-reaches_example :
    (near_score ≡ score_cluster fixed cluster near []) × (reaches fixed near_score ≡ true)
choose_event-reaches_example =
    choose_event-reaches fixed cluster (far ∷ near ∷ []) none [] near near_score near-chosen

choose_event_iff_example : is_some (choose_event fixed cluster (far ∷ near ∷ []) (some far) []) ≡ (
    stays fixed cluster (some far) [] || any (offers fixed cluster (some far) []) (far ∷ near ∷ []))
choose_event_iff_example = choose_event_iff fixed cluster (far ∷ near ∷ []) (some far) []

abbrev row : ClusterRow
row = record {
  id = 3;
  article_count = 2;
  first_published_at = 1000;
  last_published_at = 2000;
  representative_article_id = none;
  updated_at = 2500;
}

abbrev before : EventCluster ℕ
before = record {
  event_id = 20;
  cluster_id = 3;
  algorithm_version = 2;
  score = 0;
  signals = none;
  cluster_updated_at = 2100;
}

abbrev tables : Tables ℕ
tables = record {
  events = blank_event 21 2 ∷ blank_event 20 2 ∷ [];
  links = before ∷ [];
  entities = [];
  next_id = 30;
  now = 2600;
}

associate_cluster-links_of_example :
    links_of 2 3 (associate_cluster tables (blank_event 21 2) 3 9000 none (some 2500)).links ≤ 1
associate_cluster-links_of_example =
    associate_cluster-links_of tables (blank_event 21 2) 3 9000 none (some 2500) 2 3 (omega arith)

associate_cluster-decision_of_example :
    let tables' = associate_cluster tables (blank_event 21 2) 3 9000 none (some 2500) in
    let decision = decision_of tables' 2 3 in
    (current_event decision ≡ some 21) × (is_dirty (decided_at decision) row ≡ false)
associate_cluster-decision_of_example =
    associate_cluster-decision_of tables (blank_event 21 2) 9000 none row

associate_cluster-keeps_example :
    decision_of (associate_cluster tables (blank_event 21 2) 4 9000 none (some 2500)) 2 3
    ≡ some before
associate_cluster-keeps_example =
    associate_cluster-keeps tables (blank_event 21 2) 4 9000 none (some 2500) 2 3 refl

choose_event-least_example :
    All
      (λ e.
        (not (offers fixed cluster none [] e)
          || is_no_better fixed (fixed-IsRounded.ordered) cluster [] near e)
        ≡ true)
      (far ∷ near ∷ [])
choose_event-least_example =
    choose_event-least fixed (fixed-IsRounded.ordered) cluster (far ∷ near ∷ []) none [] near
      near_score refl near-chosen
