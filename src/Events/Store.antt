-- ===== src/Events/Store.antt =====
-- The tables of backend/app/events/models.py, what events read of the other parts, and
-- backend/app/events/service.py.
-- A version is a number: the code only compares it.
use newsintel.Prelude.Sort.{sort_by}
use newsintel.Clustering.Ranking.{lex}
use newsintel.Events.Scoring.{Signals}
use newsintel.Prelude.{
  ℕ, Option, Bool, List, none, ◌∷◌, update_where, keep, length, some, map, find, ◌+◌, ◌==◌,
  if◌then◌else◌, any, member, ◌&&◌, not, leb, [], min, max, ◌||◌, true, ◌++◌, false,
}
use newsintel.Prelude.Sets.{nat_eq, dedupe}

-- The columns of `story_clusters` that events read. A cluster is committed with both dates.
pub record ClusterRow : Type 0 where
  pub id : ℕ
  pub article_count : ℕ
  pub first_published_at : ℕ
  pub last_published_at : ℕ
  pub representative_article_id : Option ℕ
  pub updated_at : ℕ

pub record MemberRow : Type 0 where
  pub article_id : ℕ
  pub cluster_id : ℕ

-- A current row of `article_entities`; `visible` if its entity is not hidden and of a kind that
-- clustering uses.
pub record Mention : Type 0 where
  pub article_id : ℕ
  pub entity_id : ℕ
  pub visible : Bool

-- A current row of the articles' countries with the role `primary`.
pub record CountryRow : Type 0 where
  pub article_id : ℕ
  pub code : ℕ

pub record Archive : Type 0 where
  pub clusters : List ClusterRow
  pub members : List MemberRow
  pub mentions : List Mention
  pub countries : List CountryRow
  pub titles : List (ℕ × List ℕ)

pub data EventStatus : Type 0 where
  active closed superseded : EventStatus

pub record Event : Type 0 where
  pub id : ℕ
  pub algorithm_version : ℕ
  pub status : EventStatus
  pub started_at : Option ℕ
  pub ended_at : Option ℕ
  pub primary_country : Option ℕ
  pub cluster_count : ℕ
  pub article_count : ℕ

-- `signals` is `none` for the empty dict.
pub record EventCluster (F : Type 0) : Type 0 where
  pub event_id : ℕ
  pub cluster_id : ℕ
  pub algorithm_version : ℕ
  pub score : F
  pub signals : Option (Signals F)
  pub cluster_updated_at : ℕ

pub record EventEntity : Type 0 where
  pub event_id : ℕ
  pub entity_id : ℕ
  pub article_count : ℕ

-- `next_id` is the id that the next event gets, `now` the time of the transaction.
pub record Tables (F : Type 0) : Type 0 where
  pub events : List Event
  pub links : List (EventCluster F)
  pub entities : List EventEntity
  pub next_id : ℕ
  pub now : ℕ

abbrev pub blank_event : ℕ → ℕ → Event
blank_event id version = record {
  id = id;
  algorithm_version = version;
  status = EventStatus.active;
  started_at = none;
  ended_at = none;
  primary_country = none;
  cluster_count = 0;
  article_count = 0;
}

-- How many different values the rows have.
abbrev pub count_distinct : List ℕ → ℕ
count_distinct xs = length (dedupe xs)

-- The most frequent code, the first in the order of the codes among equals.
abbrev pub more_frequent : ℕ × ℕ → ℕ × ℕ → Bool
more_frequent (a, m) (b, n) = lex n m (leb a b)

abbrev pub first_code : List (ℕ × ℕ) → Option ℕ
first_code [] = none
first_code ((code, count) ∷ rest) = some code

abbrev pub top_code : List (ℕ × ℕ) → Option ℕ
top_code counts = first_code (sort_by more_frequent counts)

-- Articles that the countries' rows with that code name, each once.
abbrev pub code_counts : List CountryRow → List (ℕ × ℕ)
code_counts rows =
    map (λ code. (code, count_distinct (map (λ r. r.article_id) (keep (λ r. r.code == code) rows))))
      (dedupe (map (λ r. r.code) rows))

abbrev pub min_all : List ℕ → Option ℕ
min_all [] = none
min_all (x ∷ xs) = elim (min_all xs) [ none ↦ some x | some m ↦ some (min x m) ]

abbrev pub max_all : List ℕ → Option ℕ
max_all [] = none
max_all (x ∷ xs) = elim (max_all xs) [ none ↦ some x | some m ↦ some (max x m) ]

abbrev pub updated_or : Option ℕ → ℕ → ℕ
updated_or none old = old
updated_or (some new) old = new

abbrev pub count_of : List (ℕ × ℕ) → ℕ → ℕ
count_of [] id = 0
count_of ((i, n) ∷ counts) id = if i == id then n else count_of counts id

abbrev pub has_count : List (ℕ × ℕ) → ℕ → Bool
has_count counts id = any (λ c. c.0 == id) counts

abbrev pub entity_counts : Archive → List ℕ → List (ℕ × ℕ)
entity_counts archive articles =
    let rows = keep (λ m. m.visible && member m.article_id articles) archive.mentions in
    map (λ id. (id, count_distinct (map (λ m. m.article_id) (keep (λ m. m.entity_id == id) rows))))
      (dedupe (map (λ m. m.entity_id) rows))

module _ {F : Type 0} where
  abbrev pub find_event : Tables F → ℕ → Option Event
  find_event tables id = find (λ e. e.id == id) tables.events

  unfoldable pub create_event : Tables F → ℕ → Tables F × Event
  create_event tables version =
      let event = blank_event tables.next_id version in
      (record tables { events = event ∷ tables.events; next_id = tables.next_id + 1 }, event)

  -- Whether the row is the cluster's in the version's event set.
  abbrev pub is_link_of : ℕ → ℕ → EventCluster F → Bool
  is_link_of version cluster_id row =
      row.algorithm_version == version && row.cluster_id == cluster_id

  abbrev pub associate_row :
      Option (EventCluster F) → Tables F → Event → ℕ → F → Option (Signals F) → Option ℕ → Tables F
  associate_row none tables event cluster_id score signals updated_at = record tables {
    links =
        record {
          event_id = event.id;
          cluster_id = cluster_id;
          algorithm_version = event.algorithm_version;
          score = score;
          signals = signals;
          cluster_updated_at = updated_or updated_at tables.now;
        }
        ∷ tables.links;
  }
  associate_row (some row) tables event cluster_id score signals updated_at = record tables {
    links =
        update_where (is_link_of event.algorithm_version cluster_id)
          (λ r. record r {
            event_id = event.id;
            score = score;
            signals = signals;
            cluster_updated_at = updated_or updated_at r.cluster_updated_at;
          })
          tables.links;
  }

  unfoldable pub associate_cluster :
      Tables F → Event → ℕ → F → Option (Signals F) → Option ℕ → Tables F
  associate_cluster tables event cluster_id score signals updated_at =
      associate_row (find (is_link_of event.algorithm_version cluster_id) tables.links) tables event
        cluster_id score signals updated_at

  -- Rows that are no longer counted go, the others take the new count, and new ones are added.
  unfoldable pub set_entities : Tables F → ℕ → List (ℕ × ℕ) → Tables F
  set_entities tables event_id counts = record tables {
    entities =
        update_where (λ r. r.event_id == event_id)
          (λ r. record r { article_count = count_of counts r.entity_id })
          (keep (λ r. not (r.event_id == event_id) || has_count counts r.entity_id) tables.entities)
        ++ map
            (λ c.
              let row : EventEntity = record {
                event_id = event_id;
                entity_id = c.0;
                article_count = c.1;
              } in
              row)
            (keep
              (λ c. not (any (λ r. r.event_id == event_id && r.entity_id == c.0) tables.entities))
              counts);
  }

  abbrev pub cluster_ids : Tables F → ℕ → List ℕ
  cluster_ids tables event_id =
      map (λ r. r.cluster_id) (keep (λ r. r.event_id == event_id) tables.links)

  abbrev pub set_event : ℕ → (Event → Event) → Tables F → Tables F
  set_event id f tables = record tables { events = update_where (λ e. e.id == id) f tables.events }

  unfoldable pub refresh_span : Tables F → Archive → ℕ → Tables F
  refresh_span tables archive event_id =
      let clusters = keep (λ c. member c.id (cluster_ids tables event_id)) archive.clusters in
      set_event event_id
        (λ e. record e {
          started_at = min_all (map (λ c. c.first_published_at) clusters);
          ended_at = max_all (map (λ c. c.last_published_at) clusters);
        })
        tables

  -- The articles of the event's clusters (`_event_articles`), each once.
  abbrev pub event_articles : Tables F → Archive → ℕ → List ℕ
  event_articles tables archive event_id = dedupe (
      map (λ m. m.article_id)
        (keep (λ m. member m.cluster_id (cluster_ids tables event_id)) archive.members))

  -- `await db.delete(event)`, and the rows that go with it (ON DELETE CASCADE).
  abbrev pub delete_event : Tables F → ℕ → Tables F
  delete_event tables event_id = record tables {
    events = keep (λ e. not (e.id == event_id)) tables.events;
    links = keep (λ r. not (r.event_id == event_id)) tables.links;
    entities = keep (λ r. not (r.event_id == event_id)) tables.entities;
  }

  abbrev pub recount : Tables F → Archive → ℕ → Tables F
  recount tables archive event_id =
      let articles = event_articles tables archive event_id in
      let counted =
        set_event event_id
          (λ e. record e {
            cluster_count = count_distinct (cluster_ids tables event_id);
            article_count = length articles;
          })
          tables in
      set_event event_id
        (λ e. record e {
          primary_country =
              top_code (code_counts (keep (λ r. member r.article_id articles) archive.countries));
        })
        (set_entities counted event_id (entity_counts archive articles))

  -- The new tables, and whether the event survives.
  unfoldable pub refresh_event : Tables F → Archive → ℕ → Tables F × Bool
  unfolding refresh_span set_entities
  refresh_event tables archive event_id =
      if any (λ r. r.event_id == event_id) tables.links
      then (recount (refresh_span tables archive event_id) archive event_id, true)
      else (delete_event tables event_id, false)
