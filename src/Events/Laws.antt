-- ===== src/Events/Laws.antt =====
-- The associations of clusters with events (backend/app/events/service.py and engine.py).
use newsintel.Events.Facts.{decision_of, current_event, is_dirty, decided_at}
use newsintel.Events.Scoring.{Signals}
use newsintel.Events.Store.{
  EventCluster, associate_cluster, is_link_of, Tables, Event, associate_row, updated_or, ClusterRow,
}
use newsintel.Prelude.{
  refl, ℕ, List, Option, length, find, keep, ◌≡◌, update_where, none, some, ◌∷◌, ◌≤◌, arith,
  Bool-cases, [], inl, refl, inr, ◌==◌, ◌&&◌, false,
}

module _ {F : Type 0} where
  -- How many rows of the version's event set are the cluster's.
  abbrev pub links_of : ℕ → ℕ → List (EventCluster F) → ℕ
  links_of version cluster_id rows = length (keep (is_link_of version cluster_id) rows)

  relink-count :
      (version cluster_id v c : ℕ) (f : EventCluster F → EventCluster F)
      (rows : List (EventCluster F))
      → ((r : EventCluster F) → is_link_of v c (f r) ≡ is_link_of v c r)
      → links_of v c (update_where (is_link_of version cluster_id) f rows) ≡ links_of v c rows
  relink-count version cluster_id v c f [] same = refl
  relink-count version cluster_id v c f (r ∷ rows) same =
      ground (arith, same r, relink-count version cluster_id v c f rows same)

  unlinked :
      (version cluster_id : ℕ) (rows : List (EventCluster F))
      → find (is_link_of version cluster_id) rows ≡ none
      → links_of version cluster_id rows ≡ 0
  unlinked version cluster_id [] e = refl
  unlinked version cluster_id (r ∷ rows) e = ground (arith, unlinked version cluster_id rows)

  associate_row-count :
      (found : Option (EventCluster F)) (tables : Tables F) (event : Event) (cluster_id : ℕ)
      (score : F) (signals : Option (Signals F)) (updated_at : Option ℕ) (v c : ℕ)
      → find (is_link_of event.algorithm_version cluster_id) tables.links ≡ found
      → links_of v c tables.links ≤ 1
      → links_of v c (associate_row found tables event cluster_id score signals updated_at).links
        ≤ 1
  associate_row-count none tables event cluster_id score signals updated_at v c e h =
      ground (arith, unlinked event.algorithm_version cluster_id tables.links e)
  associate_row-count (some row) tables event cluster_id score signals updated_at v c e h = ground (
    arith,
    relink-count event.algorithm_version cluster_id v c
        (λ r. record r {
          event_id = event.id;
          score = score;
          signals = signals;
          cluster_updated_at = updated_or updated_at r.cluster_updated_at;
        })
        tables.links (λ r. refl),
  )

  -- If a version's event set has at most one row for each cluster, it still has after a cluster is
  -- associated, whether it is new or moves to another event.
  pub associate_cluster-links_of :
      (tables : Tables F) (event : Event) (cluster_id : ℕ) (score : F)
      (signals : Option (Signals F)) (updated_at : Option ℕ) (v c : ℕ)
      → links_of v c tables.links ≤ 1
      → links_of v c (associate_cluster tables event cluster_id score signals updated_at).links ≤ 1
  unfolding associate_cluster
  associate_cluster-links_of tables event cluster_id score signals updated_at v c h =
      associate_row-count (find (is_link_of event.algorithm_version cluster_id) tables.links) tables
        event cluster_id score signals updated_at v c refl h

  relinked :
      (version cluster_id : ℕ) (f : EventCluster F → EventCluster F) (row : EventCluster F)
      (rows : List (EventCluster F))
      → ((r : EventCluster F)
          → is_link_of version cluster_id (f r) ≡ is_link_of version cluster_id r)
      → find (is_link_of version cluster_id) rows ≡ some row
      → find (is_link_of version cluster_id) (update_where (is_link_of version cluster_id) f rows)
        ≡ some (f row)
  relinked version cluster_id f row [] same e = cc
  relinked version cluster_id f row (r ∷ rows) same e =
      elim (Bool-cases (is_link_of version cluster_id r)) [
        | inl t ↦ ground (arith, same r)
        | inr n ↦ ground (arith, relinked version cluster_id f row rows same)
      ]

  associate_row-decision :
      (found : Option (EventCluster F)) (tables : Tables F) (event : Event) (score : F)
      (signals : Option (Signals F)) (c : ClusterRow)
      → decision_of tables event.algorithm_version c.id ≡ found
      → let tables' = associate_row found tables event c.id score signals (some c.updated_at) in
        let row = decision_of tables' event.algorithm_version c.id in
        (current_event row ≡ some event.id) × (is_dirty (decided_at row) c ≡ false)
  associate_row-decision none tables event score signals c e = ground arith
  associate_row-decision (some row) tables event score signals c e =
      let f : EventCluster F → EventCluster F = λ r. record r {
        event_id = event.id;
        score = score;
        signals = signals;
        cluster_updated_at = c.updated_at;
      } in
      let found = relinked event.algorithm_version c.id f row tables.links (λ r. refl) e in
      rw found (refl, ground arith)

  -- A cluster that was associated with an event is in that event for the event's version, and it is
  -- not dirty again before it changes.
  pub associate_cluster-decision_of :
      (tables : Tables F) (event : Event) (score : F) (signals : Option (Signals F))
      (c : ClusterRow)
      → let tables' = associate_cluster tables event c.id score signals (some c.updated_at) in
        let row = decision_of tables' event.algorithm_version c.id in
        (current_event row ≡ some event.id) × (is_dirty (decided_at row) c ≡ false)
  unfolding associate_cluster
  associate_cluster-decision_of tables event score signals c =
      associate_row-decision (decision_of tables event.algorithm_version c.id) tables event score
        signals c refl

  relink-other :
      (version cluster_id v c : ℕ) (f : EventCluster F → EventCluster F)
      (rows : List (EventCluster F))
      → ((r : EventCluster F) → is_link_of v c (f r) ≡ is_link_of v c r)
      → (v == version && c == cluster_id) ≡ false
      → find (is_link_of v c) (update_where (is_link_of version cluster_id) f rows)
        ≡ find (is_link_of v c) rows
  relink-other version cluster_id v c f [] same other = refl
  relink-other version cluster_id v c f (r ∷ rows) same other =
      ground (arith, same r, relink-other version cluster_id v c f rows same other)

  associate_row-other :
      (found : Option (EventCluster F)) (tables : Tables F) (event : Event) (cluster_id : ℕ)
      (score : F) (signals : Option (Signals F)) (updated_at : Option ℕ) (v c : ℕ)
      → (v == event.algorithm_version && c == cluster_id) ≡ false
      → decision_of (associate_row found tables event cluster_id score signals updated_at) v c
        ≡ decision_of tables v c
  associate_row-other none tables event cluster_id score signals updated_at v c other = ground arith
  associate_row-other (some row) tables event cluster_id score signals updated_at v c other =
      relink-other event.algorithm_version cluster_id v c
        (λ r. record r {
          event_id = event.id;
          score = score;
          signals = signals;
          cluster_updated_at = updated_or updated_at r.cluster_updated_at;
        })
        tables.links (λ r. refl) other

  -- The decisions about other clusters, and those of other versions, are left as they were.
  pub associate_cluster-keeps :
      (tables : Tables F) (event : Event) (cluster_id : ℕ) (score : F)
      (signals : Option (Signals F)) (updated_at : Option ℕ) (v c : ℕ)
      → (v == event.algorithm_version && c == cluster_id) ≡ false
      → decision_of (associate_cluster tables event cluster_id score signals updated_at) v c
        ≡ decision_of tables v c
  unfolding associate_cluster
  associate_cluster-keeps tables event cluster_id score signals updated_at v c other =
      associate_row-other (find (is_link_of event.algorithm_version cluster_id) tables.links) tables
        event cluster_id score signals updated_at v c other
