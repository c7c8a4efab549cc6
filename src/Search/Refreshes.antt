-- ===== src/Search/Refreshes.antt =====
-- The reindexing of all articles of a feed in batches (backend/app/search/service.py).
use newsintel.Prelude.Sort.{sort_by}
use newsintel.Jobs.Leasing.{release, Row, Status, is_succeeded, is_active}
use newsintel.Search.Deliveries.{Index, request_indexing, queued_row}
use newsintel.Prelude.{
  ℕ, Option, none, if◌then◌else◌, List, any, Bool, ◌∷◌, take, some, find, ◌==◌, true, [], ◌+◌, ◌&&◌,
  ltb, leb, length, keep, update_where,
}

pub record SourceSearchRefresh : Type 0 where
  pub id : ℕ
  pub feed_id : ℕ
  pub article_cursor : Option ℕ
  pub row : Row

-- The index with the refreshes and the links of feeds to articles; the source's ids are UUIDs,
-- which the code orders.
pub record Sources : Type 0 where
  pub index : Index
  pub refreshes : List SourceSearchRefresh
  pub feed_articles : List (ℕ × ℕ)

abbrev new_refresh : ℕ → ℕ → ℕ → SourceSearchRefresh
new_refresh id feed now = record {
  id = id;
  feed_id = feed;
  article_cursor = none;
  row = queued_row now;
}

unfoldable pub request_source_refresh : ℕ → ℕ → ℕ → Sources → Sources
request_source_refresh id feed now st =
    if any (λ r. r.feed_id == feed && is_active r.row.status) st.refreshes
    then st
    else record st { refreshes = new_refresh id feed now ∷ st.refreshes }

abbrev pub is_past : Option ℕ → ℕ → Bool
is_past none article = true
is_past (some cursor) article = ltb cursor article

abbrev pub articles_of : List (ℕ × ℕ) → List ℕ
articles_of [] = []
articles_of (link ∷ links) = link.1 ∷ articles_of links

abbrev pub refresh_batch : SourceSearchRefresh → ℕ → Sources → List ℕ
refresh_batch r batch st = take batch (
    sort_by leb (
      articles_of
        (keep (λ link. link.0 == r.feed_id && is_past r.article_cursor link.1) st.feed_articles)))

unfoldable pub request_each : List ℕ → ℕ → Index → Index
unfolding request_indexing
request_each [] now st = st
request_each (article ∷ articles) now st =
    request_each articles now (request_indexing article now st).1

abbrev pub cursor_after : Option ℕ → List ℕ → Option ℕ
cursor_after cursor [] = cursor
cursor_after cursor (article ∷ articles) = cursor_after (some article) articles

-- A batch that is not full ends the refresh.
abbrev pub after_refresh : SourceSearchRefresh → ℕ → List ℕ → SourceSearchRefresh
after_refresh r batch articles =
    let going = record r {
      article_cursor = cursor_after r.article_cursor articles;
      row = record r.row { status = Status.running; attempt_count = r.row.attempt_count + 1 };
    } in
    if ltb (length articles) batch
    then record going { row = record (release going.row) { status = Status.succeeded } }
    else going

abbrev pub refresh_found : Option SourceSearchRefresh → ℕ → ℕ → Sources → ℕ × Sources
refresh_found none batch now st = (0, st)
refresh_found (some r) batch now st =
    let articles = refresh_batch r batch st in
    if is_succeeded r.row.status then (0, st) else (
      length articles,
      record st {
        index = request_each articles now st.index;
        refreshes =
            update_where (λ x. x.id == r.id) (λ x. after_refresh r batch articles) st.refreshes;
      },
    )

unfoldable pub process_source_refresh : ℕ → ℕ → ℕ → Sources → ℕ × Sources
unfolding request_each release
process_source_refresh id batch now st =
    refresh_found (find (λ r. r.id == id) st.refreshes) batch now st
