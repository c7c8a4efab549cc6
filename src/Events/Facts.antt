-- ===== src/Events/Facts.antt =====
-- What backend/app/events/engine.py reads of the tables before it decides about a cluster.
use newsintel.Clustering.Ranking.{lex}
use newsintel.Prelude.Sort.{sort_by}
use newsintel.Clustering.Features.{Word}
use newsintel.Events.Scoring.{
  ClusterFacts, EventFacts, event_time_window, event_candidate_limit, event_min_shared_entities,
}
use newsintel.Clustering.Wording.{Unicode}
use newsintel.Events.Store.{
  Archive, Tables, EventStatus, Event, top_code, ClusterRow, EventCluster, min_all, find_event,
  is_link_of, max_all, cluster_ids, code_counts,
}
use newsintel.Prelude.{
  ℕ, List, Option, [], map, Bool, length, some, keep, ◌∷◌, leb, false, true, none, if◌then◌else◌,
  find, ◌==◌, ◌&&◌, member, not, ◌+◌, ltb, take,
}
use newsintel.Prelude.Sets.{nat_eq, dedupe}

abbrev pub title_of : List (ℕ × List ℕ) → Option ℕ → List ℕ
title_of titles none = []
title_of [] (some id) = []
title_of ((i, title) ∷ titles) (some id) = if i == id then title else title_of titles (some id)

abbrev pub articles_of : Archive → ℕ → List ℕ
articles_of archive cluster_id =
    map (λ m. m.article_id) (keep (λ m. m.cluster_id == cluster_id) archive.members)

-- The facts of one cluster of the list.
unfoldable pub load_cluster_facts : Archive → Unicode → List Word → ClusterRow → ClusterFacts
load_cluster_facts archive u stop_words c =
    let articles = articles_of archive c.id in
    record {
      id = c.id;
      first_published_at = c.first_published_at;
      last_published_at = c.last_published_at;
      title_tokens =
          newsintel.Clustering.Wording.title_tokens u
            (title_of archive.titles c.representative_article_id) stop_words;
      entity_ids = dedupe (
          map (λ m. m.entity_id)
            (keep (λ m. m.visible && member m.article_id articles) archive.mentions));
      country = top_code (code_counts (keep (λ r. member r.article_id articles) archive.countries));
    }

-- `Counter(f.country for f in facts if f.country)`, and its most frequent code.
abbrev pub known_countries : List ClusterFacts → List ℕ
known_countries [] = []
known_countries (f ∷ facts) =
    let rest = known_countries facts in elim (f.country) [ none ↦ rest | some code ↦ code ∷ rest ]

abbrev pub vote : List ℕ → Option ℕ
vote codes = top_code (map (λ code. (code, length (keep (λ c. c == code) codes))) (dedupe codes))

abbrev pub described_by : ℕ → List ClusterFacts → Option EventFacts
described_by event_id [] = none
described_by event_id (f ∷ facts) = some (record {
  id = event_id;
  started_at = min_all (map (λ g. g.first_published_at) (f ∷ facts));
  ended_at = max_all (map (λ g. g.last_published_at) (f ∷ facts));
  member_entities = map (λ g. g.entity_ids) (f ∷ facts);
  member_titles = map (λ g. g.title_tokens) (f ∷ facts);
  country = vote (known_countries (f ∷ facts));
})

-- Clusters that are new or changed since their decision.
abbrev pub is_dirty : Option ℕ → ClusterRow → Bool
is_dirty none c = leb 2 c.article_count
is_dirty (some decided_at) c = leb 2 c.article_count && ltb decided_at c.updated_at

abbrev pub ended_since : Option ℕ → ℕ → Bool
ended_since none time = false
ended_since (some ended) time = leb time (ended + event_time_window)

abbrev pub started_until : Option ℕ → ℕ → Bool
started_until none time = false
started_until (some started) time = leb started (time + event_time_window)

abbrev pub is_open : EventStatus → Bool
is_open EventStatus.active = true
is_open EventStatus.closed = true
is_open EventStatus.superseded = false

abbrev pub or_never : Option ℕ → ℕ
or_never none = 0
or_never (some time) = time

abbrev pub newest_first : Event → Event → Bool
newest_first a b = lex (or_never b.ended_at) (or_never a.ended_at) (leb a.id b.id)

module _ {F : Type 0} where
  -- The event's clusters, in the order of their ids.
  abbrev pub member_clusters : Tables F → Archive → ℕ → List ClusterRow
  member_clusters tables archive event_id =
      sort_by (λ a b. leb a.id b.id)
        (keep (λ c. member c.id (cluster_ids tables event_id)) archive.clusters)

  abbrev pub event_facts : Tables F → Archive → Unicode → List Word → Event → EventFacts
  event_facts tables archive u stop_words e =
      let facts =
        map (load_cluster_facts archive u stop_words) (member_clusters tables archive e.id) in
      record {
        id = e.id;
        started_at = e.started_at;
        ended_at = e.ended_at;
        member_entities = map (λ f. f.entity_ids) facts;
        member_titles = map (λ f. f.title_tokens) facts;
        country = e.primary_country;
      }

  -- The facts of the events with these ids, in the order of the ids.
  unfoldable pub load_event_facts :
      Tables F → Archive → Unicode → List Word → List ℕ → List EventFacts
  unfolding load_cluster_facts
  load_event_facts tables archive u stop_words [] = []
  load_event_facts tables archive u stop_words (id ∷ ids) =
      let rest = load_event_facts tables archive u stop_words ids in
      elim (find_event tables id) [
        | none ↦ rest
        | some e ↦ event_facts tables archive u stop_words e ∷ rest
      ]

  unfoldable pub event_facts_without :
      Tables F → Archive → Unicode → List Word → ℕ → ℕ → Option EventFacts
  unfolding load_cluster_facts
  event_facts_without tables archive u stop_words event_id cluster_id = described_by event_id (
      map (load_cluster_facts archive u stop_words)
        (keep (λ c. not (c.id == cluster_id)) (member_clusters tables archive event_id)))

  -- How many of the event's entities are the cluster's.
  abbrev pub shared_entities : Tables F → List ℕ → ℕ → ℕ
  shared_entities tables entity_ids event_id =
      length (keep (λ r. r.event_id == event_id && member r.entity_id entity_ids) tables.entities)

  unfoldable pub candidate_event_ids : Tables F → ClusterFacts → ℕ → List ℕ
  candidate_event_ids tables cluster version =
      if length cluster.entity_ids == 0
      then []
      else map (λ e. e.id)
          (take event_candidate_limit (
            sort_by newest_first (
              keep
                (λ e.
                  e.algorithm_version == version
                  && (is_open e.status
                      && (ended_since e.ended_at cluster.first_published_at
                          && (started_until e.started_at cluster.last_published_at
                              && leb event_min_shared_entities
                                  (shared_entities tables cluster.entity_ids e.id)))))
                tables.events)))

  abbrev pub decision_of : Tables F → ℕ → ℕ → Option (EventCluster F)
  decision_of tables version cluster_id = find (is_link_of version cluster_id) tables.links

  abbrev pub current_event : Option (EventCluster F) → Option ℕ
  current_event none = none
  current_event (some row) = some row.event_id

  abbrev pub decided_at : Option (EventCluster F) → Option ℕ
  decided_at none = none
  decided_at (some row) = some row.cluster_updated_at

  -- The clusters to decide about, with the event that each is in.
  unfoldable pub dirty_clusters : Tables F → List ClusterRow → ℕ → List (ClusterRow × Option ℕ)
  dirty_clusters tables clusters version =
      map (λ c. (c, current_event (decision_of tables version c.id)))
        (keep (λ c. is_dirty (decided_at (decision_of tables version c.id)) c) clusters)
