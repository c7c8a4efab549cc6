-- ===== src/Search/Tests.antt =====
-- A delivery of one article (backend/app/search).
use newsintel.Search.Refreshes.{
  Sources, process_source_refresh, request_source_refresh, request_each, SourceSearchRefresh,
}
use newsintel.Prelude.Text.{codes}
use newsintel.Jobs.Leasing.{claimable, leased, claim, release, Status}
use newsintel.Search.Fresh.{IsFresh}
use newsintel.Search.Runs.{
  Reach, empty_index, next, Reach-IsFresh, start, transient_failure_fails, requested, taken,
  answered,
}
use newsintel.Search.Deliveries.{
  SearchIndexTarget, Index, request_indexing, SearchDelivery, acknowledged, TargetRole,
  claim_delivery, acknowledge, request_targets, new_delivery, Outcome, queued_row, requeued,
  claimed_delivery,
}
use newsintel.Prelude.{refl, ◌≡◌, ◌∷◌, [], true, map, arith, ℕ, length}

abbrev live : SearchIndexTarget
live = record { id = 1; role = TargetRole.current }

abbrev asked : Index
asked = (request_indexing 70 1000 (empty_index (live ∷ []))).1

abbrev taken_once : Index
taken_once = (claim_delivery 0 9 2000 60 asked).0

abbrev indexed : Index
indexed = acknowledge 20 0 9 1 Outcome.success 2010 taken_once

indexed_reach : Reach 20 indexed
indexed_reach =
    next taken_once indexed
      (next asked taken_once
        (next (empty_index (live ∷ [])) asked (start (live ∷ []))
          (requested (empty_index (live ∷ [])) 70 1000))
        (taken asked 0 9 2000 60))
      (answered taken_once 0 9 1 Outcome.success 2010)

Reach-IsFresh_example : IsFresh indexed
Reach-IsFresh_example = Reach-IsFresh 20 indexed indexed_reach

indexed_revisions : map (λ (d : SearchDelivery). d.indexed_revision) indexed.deliveries ≡ 1 ∷ []
unfolding request_indexing request_targets claim_delivery claimable leased claim acknowledge release
indexed_revisions = refl

abbrev often : SearchDelivery
often = record (new_delivery 0 70 1 6 1000) {
  indexed_revision = 6;
  row = record (queued_row 1000) { status = Status.succeeded; attempt_count = 20 };
}

often-claimable : claimable (requeued 7 5000 often).row 5000 ≡ true
unfolding claimable leased
often-claimable = refl

transient_failure_fails_example :
    (acknowledged 20 9 7
      (Outcome.transient (codes "502"))
      5100
      (claimed_delivery 9 5000 60 (requeued 7 5000 often))).row.status
    ≡ Status.failed
transient_failure_fails_example =
    transient_failure_fails 20 7 9 5000 5000 5100 60 (codes "502") often (omega arith)
      often-claimable

-- A feed of three articles, reindexed in batches of two: the second one ends the refresh.
abbrev feed_sources : Sources
feed_sources = record {
  index = empty_index (live ∷ []);
  refreshes = [];
  feed_articles = (3, 72) ∷ (3, 70) ∷ (4, 71) ∷ (3, 75) ∷ [];
}

abbrev refreshed : ℕ × Sources
refreshed =
    process_source_refresh 1 2 300
      (process_source_refresh 1 2 200 (request_source_refresh 1 3 100 feed_sources)).1

refreshed_all :
    (refreshed.0 ≡ 1)
    × (length refreshed.1.index.deliveries ≡ 3)
    × (map (λ (r : SourceSearchRefresh). r.row.status) refreshed.1.refreshes
        ≡ Status.succeeded ∷ [])
unfolding process_source_refresh request_source_refresh request_each request_indexing
    request_targets release
refreshed_all = (refl, refl, refl)
