-- ===== src/Events/Decide.antt =====
-- `RuleEventAssociator` and `reconcile_events` of backend/app/events/engine.py.
use newsintel.Prelude.Sort.{sort_by}
use newsintel.Prelude.Chain.{◌>>=◌}
use newsintel.Clustering.Features.{Word}
use newsintel.Events.Choice.{choose_event}
use newsintel.Clustering.Wording.{Unicode}
use newsintel.Events.Facts.{
  load_cluster_facts, load_event_facts, event_facts_without, dirty_clusters, is_open,
  candidate_event_ids,
}
use newsintel.Clustering.Ranking.{lex}
use newsintel.Events.Scoring.{EventFacts, ClusterFacts, Score, event_time_window, entity_weight}
use newsintel.Events.Store.{
  Tables, EventStatus, ClusterRow, Event, Archive, set_event, associate_cluster, refresh_event,
  create_event, find_event, count_distinct,
}
use newsintel.Clustering.Numbers.{Floats, zero_float}
use newsintel.Prelude.{
  ℕ, Bool, false, Option, List, ◌*◌, some, true, [], ◌∷◌, ◌+◌, ltb, none, leb, ◌++◌, if◌then◌else◌,
  take, map, keep, ◌==◌, not, ◌&&◌, any, eq_opt, update_where,
}
use newsintel.Prelude.Sets.{nat_eq, union}

-- `BatchResult`, without the text of the last error.
pub record BatchResult : Type 0 where
  pub evaluated : ℕ
  pub created : ℕ
  pub deleted : ℕ
  pub failed : ℕ
  pub skipped : Bool

abbrev pub no_result : BatchResult
no_result = record { evaluated = 0; created = 0; deleted = 0; failed = 0; skipped = false }

-- What a batch reads and does not change: the archive, the stop words, `math.e` and the version.
pub record Context (fl : Floats) : Type 0 where
  pub archive : Archive
  pub unicode : Unicode
  pub stop_words : List Word
  pub euler : fl.F
  pub version : ℕ

pub record Decision (F : Type 0) : Type 0 where
  pub tables : Tables F
  pub created : ℕ
  pub deleted : ℕ

-- `EVENT_CLOSE_AFTER` is the time window.
abbrev pub is_idle : ℕ → Option ℕ → Bool
is_idle now none = false
is_idle now (some ended) = ltb (ended + event_time_window) now

abbrev pub is_active_event : EventStatus → Bool
is_active_event EventStatus.active = true
is_active_event EventStatus.closed = false
is_active_event EventStatus.superseded = false

abbrev pub opt_list {ℓ} : {A : Type ℓ} → Option A → List A
opt_list none = []
opt_list (some x) = x ∷ []

abbrev pub union_all : List (List ℕ) → List ℕ
union_all [] = []
union_all (xs ∷ rest) = union xs (union_all rest)

abbrev pub entities_of : List EventFacts → List ℕ
entities_of [] = []
entities_of (e ∷ events) = union (union_all e.member_entities) (entities_of events)

-- `EVENT_RECONCILE_WINDOW = timedelta(days=7)`
abbrev pub event_reconcile_window : ℕ
event_reconcile_window = 7 * 86_400 * 1_000_000

abbrev pub event_reconcile_limit : ℕ
event_reconcile_limit = 500

abbrev pub oldest_first : ClusterRow × Option ℕ → ClusterRow × Option ℕ → Bool
oldest_first a b = lex a.0.first_published_at b.0.first_published_at (leb a.0.id b.0.id)

-- `Event.ended_at.is_(None) or Event.ended_at >= now - EVENT_RECONCILE_WINDOW`
abbrev pub is_recent : ℕ → Option ℕ → Bool
is_recent now none = true
is_recent now (some ended) = leb now (ended + event_reconcile_window)

-- Nulls first, then the newest, then the ids.
abbrev pub reconcile_order : Event → Event → Bool
reconcile_order a b = elim (a.ended_at) [
  | none ↦ elim (b.ended_at) [ none ↦ leb a.id b.id | some _ ↦ true ]
  | some s ↦ elim (b.ended_at) [ none ↦ false | some t ↦ lex t s (leb a.id b.id) ]
]

module _ (fl : Floats) where
  -- Adds the weights of the entities that have none yet, counted over the current articles.
  unfoldable pub load_entity_weights : Archive → fl.F → List ℕ → List (ℕ × fl.F) → List (ℕ × fl.F)
  load_entity_weights archive euler ids known =
      known
      ++ map
          (λ id. (
            id,
            entity_weight fl euler (
                count_distinct
                  (map (λ m. m.article_id) (keep (λ m. m.entity_id == id) archive.mentions))),
          ))
          (keep (λ id. not (any (λ k. k.0 == id) known)) ids)

  -- `candidates` and `current` of `_decide`.
  abbrev pub candidates_of : Context fl → Tables fl.F → ClusterFacts → Option ℕ → List EventFacts
  candidates_of ctx tables cluster current_id =
      load_event_facts tables ctx.archive ctx.unicode ctx.stop_words (
        keep (λ id. not (eq_opt current_id (some id)))
          (candidate_event_ids tables cluster ctx.version))

  abbrev pub current_of : Context fl → Tables fl.F → ClusterFacts → Option ℕ → Option EventFacts
  current_of ctx tables cluster none = none
  current_of ctx tables cluster (some id) =
      event_facts_without tables ctx.archive ctx.unicode ctx.stop_words id cluster.id

  abbrev pub weights_of :
      Context fl → Tables fl.F → ClusterFacts → Option ℕ → List (ℕ × fl.F) → List (ℕ × fl.F)
  weights_of ctx tables cluster current_id known =
      load_entity_weights ctx.archive ctx.euler
        (union cluster.entity_ids (
          entities_of (
            candidates_of ctx tables cluster current_id
            ++ opt_list (current_of ctx tables cluster current_id))))
        known

  -- The event of the cluster that leaves its own: none is chosen.
  abbrev pub own_event :
      Tables fl.F → ℕ → Option ℕ → Option EventFacts → Option (Tables fl.F × (Event × ℕ))
  own_event tables version none current =
      let (tables', event) = create_event tables version in some (tables', (event, 1))
  own_event tables version (some id) none =
      find_event tables id >>= λ event. some (tables, (event, 0))
  own_event tables version (some id) (some current) =
      let (tables', event) = create_event tables version in some (tables', (event, 1))

  -- `event.status = "active"`
  abbrev pub reopen : Tables fl.F → ℕ → Tables fl.F
  reopen tables id = set_event id (λ e. record e { status = EventStatus.active }) tables

  -- The cluster joins the event that was chosen, or one of its own; with the number of new events.
  abbrev pub settle_choice :
      Option (EventFacts × Score fl.F)
      → Tables fl.F
      → Context fl
      → ClusterFacts
      → ℕ
      → Option ℕ
      → Option EventFacts
      → Option (Tables fl.F × (ℕ × ℕ))
  settle_choice none tables ctx cluster updated_at current_id current =
      own_event tables ctx.version current_id current >>= λ own. some (
        associate_cluster own.0 own.1.0 cluster.id (zero_float fl) none (some updated_at),
        (own.1.0.id, own.1.1),
      )
  settle_choice (some (facts, score)) tables ctx cluster updated_at current_id current =
      find_event tables facts.id >>= λ event. some (
        associate_cluster (reopen tables event.id) event cluster.id score.total (some score.signals)
            (some updated_at),
        (event.id, 0),
      )

  abbrev pub refresh_one : Archive → Tables fl.F → ℕ → Tables fl.F × ℕ
  refresh_one archive tables id = elim (find_event tables id) [
    | none ↦ (tables, 0)
    | some e ↦
        let (tables', survives) = refresh_event tables archive id in
        (tables', if survives then 0 else 1)
  ]

  -- `{event.id, current_id} - {None}`
  abbrev pub refresh_both : Archive → Tables fl.F → ℕ → Option ℕ → Tables fl.F × ℕ
  refresh_both archive tables id none = refresh_one archive tables id
  refresh_both archive tables id (some current) =
      let first = refresh_one archive tables id in
      let second = refresh_one archive first.0 current in
      if current == id then first else (second.0, first.1 + second.1)

  -- `_decide`, once the weights are loaded; `none` is an exception, which rolls it back.
  unfoldable pub decide :
      Context fl
      → Tables fl.F
      → ClusterFacts
      → ℕ
      → Option ℕ
      → List (ℕ × fl.F)
      → Option (Decision fl.F)
  unfolding associate_cluster refresh_event
  decide ctx tables cluster updated_at current_id weights =
      let current = current_of ctx tables cluster current_id in
      let chosen =
        choose_event fl cluster (candidates_of ctx tables cluster current_id) current weights in
      settle_choice chosen tables ctx cluster updated_at current_id current >>= λ settled.
      let (tables', deleted) = refresh_both ctx.archive settled.0 settled.1.0 current_id in
      some (record { tables = tables'; created = settled.1.1; deleted = deleted })

  abbrev pub count_decision :
      Option (Decision fl.F) → Tables fl.F → BatchResult → Tables fl.F × BatchResult
  count_decision none tables result = (tables, record result { failed = result.failed + 1 })
  count_decision (some d) tables result = (
    d.tables,
    record result {
      evaluated = result.evaluated + 1;
      created = result.created + d.created;
      deleted = result.deleted + d.deleted;
    },
  )

  -- The loop over the rows; the weights grow along the batch, and the facts of the rows' clusters
  -- are those of the batch's start.
  unfoldable pub decide_rows :
      Context fl
      → List (ClusterRow × Option ℕ)
      → List (ℕ × fl.F)
      → Tables fl.F
      → BatchResult
      → Tables fl.F × BatchResult
  unfolding decide load_entity_weights load_cluster_facts
  decide_rows ctx [] weights tables result = (tables, result)
  decide_rows ctx ((c, current_id) ∷ rows) weights tables result =
      let facts = load_cluster_facts ctx.archive ctx.unicode ctx.stop_words c in
      let weights' = weights_of ctx tables facts current_id weights in
      let (tables', result') =
        count_decision (decide ctx tables facts c.updated_at current_id weights') tables result in
      decide_rows ctx rows weights' tables' result'

  -- `available` are the clusters whose rows no other transaction has locked.
  unfoldable pub run_batch :
      Context fl → Bool → List ClusterRow → ℕ → Tables fl.F → Tables fl.F × BatchResult
  unfolding decide_rows
  run_batch ctx false available limit tables = (tables, record no_result { skipped = true })
  run_batch ctx true available limit tables =
      decide_rows ctx
        (take limit (sort_by oldest_first (dirty_clusters tables available ctx.version))) [] tables
        no_result

  abbrev pub refresh_counted : Archive → ℕ → Tables fl.F × BatchResult → Tables fl.F × BatchResult
  refresh_counted archive id (tables, result) =
      let (tables', survives) = refresh_event tables archive id in
      (
        tables',
        record result {
          evaluated = result.evaluated + 1;
          deleted = if survives then result.deleted else result.deleted + 1;
        },
      )

  unfoldable pub refresh_events :
      Archive → List ℕ → Tables fl.F × BatchResult → Tables fl.F × BatchResult
  unfolding refresh_event
  refresh_events archive [] done = done
  refresh_events archive (id ∷ ids) done =
      refresh_events archive ids (refresh_counted archive id done)

  -- The two readings of the clock are one number here.
  unfoldable pub reconcile_events : Archive → ℕ → Bool → ℕ → Tables fl.F → Tables fl.F × BatchResult
  unfolding refresh_events
  reconcile_events archive version false now tables = (tables, record no_result { skipped = true })
  reconcile_events archive version true now tables =
      let ids =
        map (λ e. e.id)
          (take event_reconcile_limit (
            sort_by reconcile_order (
              keep
                (λ e.
                  e.algorithm_version == version && (is_open e.status && is_recent now e.ended_at))
                tables.events))) in
      let (tables', result) = refresh_events archive ids (tables, no_result) in
      (
        record tables' {
          events =
              update_where
                (λ e.
                  e.algorithm_version == version
                  && (is_active_event e.status && is_idle now e.ended_at))
                (λ e. record e { status = EventStatus.closed }) tables'.events;
        },
        result,
      )
