-- ===== src/Entities/Runs/Batches.antt =====
-- The batches of a run, and a scan of the runs (backend/app/entities/authority.py).
use newsintel.Entities.Runs.Rows.{is_split_row, split_rows, merge_article}
use newsintel.Prelude.{
  ℕ, Option, Bool, List, ◌∷◌, update_where, some, find, map, if◌then◌else◌, ◌==◌, leb, none, [],
  keep, false, ◌+◌, ◌++◌, take, true, length, ◌&&◌, ltb,
}
use newsintel.Prelude.Sets.{nat_eq, dedupe}
use newsintel.Prelude.Sort.{sort_by}
use newsintel.Entities.Store.{Store, Run, ArticleEntity, RunKind, Phase}

-- The articles of a run's rows that are left, in the order of their ids.
abbrev pub is_pending : RunKind → ℕ → ℕ → ArticleEntity → Bool
is_pending RunKind.merge entity root row = row.entity_id == entity
is_pending RunKind.split entity root row = is_split_row entity root row
is_pending RunKind.reindex entity root row = is_split_row entity root row

unfoldable pub pending_articles : RunKind → ℕ → ℕ → List ArticleEntity → List ℕ
pending_articles kind entity root rows =
    sort_by leb (dedupe (map (λ r. r.article_id) (keep (is_pending kind entity root) rows)))

abbrev pub split_article : ℕ → ℕ → ℕ → Store → Store
split_article article variant root st =
    let (rows, next_id) = split_rows article variant root st.next_id st.rows in
    record st { rows = rows; next_id = next_id }

abbrev pub move_article : RunKind → ℕ → ℕ → ℕ → Store → Store
move_article RunKind.merge entity root article st = record st {
  rows = merge_article article entity root st.rows;
}
move_article RunKind.split entity root article st = split_article article entity root st
move_article RunKind.reindex entity root article st = split_article article entity root st

unfoldable pub move_articles : RunKind → ℕ → ℕ → List ℕ → Store → Store
unfolding merge_article split_rows
move_articles kind entity root [] st = st
move_articles kind entity root (article ∷ articles) st =
    move_articles kind entity root articles (move_article kind entity root article st)

abbrev pub is_split : RunKind → Bool
is_split RunKind.merge = false
is_split RunKind.split = true
is_split RunKind.reindex = false

-- `_touch`: the events of these articles are recomputed, and the articles reindexed when asked.
abbrev pub touch : List ℕ → Bool → Store → Store
touch articles reindex st = record st {
  recomputed = articles ++ st.recomputed;
  indexing = if reindex then articles ++ st.indexing else st.indexing;
}

-- `_move`: the articles moved, and the new tables.
unfoldable pub move_batch : Run → ℕ → Store → List ℕ × Store
unfolding pending_articles move_articles
move_batch run batch st =
    let articles = take batch (pending_articles run.kind run.entity_id run.root st.rows) in
    (
      articles,
      touch articles (is_split run.kind)
          (move_articles run.kind run.entity_id run.root articles st),
    )

abbrev pub is_after : Option ℕ → ℕ → Bool
is_after none article = true
is_after (some last) article = ltb last article

-- `_reindex`
unfoldable pub reindex_batch : Run → ℕ → Store → List ℕ × Store
reindex_batch run batch st =
    let articles = take batch (
      sort_by leb (
        dedupe (
          map (λ r. r.article_id)
            (keep
              (λ r. r.entity_id == run.root && (r.is_current && is_after run.after r.article_id))
              st.rows)))) in
    (
      articles,
      if run.events
          then touch articles true st
          else record st { indexing = articles ++ st.indexing },
    )

abbrev pub put_run : Run → Store → Store
put_run run st = record st { runs = update_where (λ r. r.id == run.id) (λ r. run) st.runs }

abbrev pub last_of : ℕ → List ℕ → ℕ
last_of article [] = article
last_of article (next ∷ articles) = last_of next articles

-- The cursor after a batch of the second phase; a batch that found nothing finishes the run.
abbrev pub after_batch : Run → List ℕ → Run
after_batch run [] = record run { running = false }
after_batch run (article ∷ articles) = record run {
  phase = some Phase.reindex;
  after = some (last_of article articles);
}

abbrev pub finish_reindex : Run → List ℕ × Store → Store × ℕ
finish_reindex run (articles, st) = (put_run (after_batch run articles) st, length articles)

abbrev pub start_phase : Run → Phase
start_phase run = elim (run.phase) [
  | some phase ↦ phase
  | none ↦ elim (run.kind) [
    | RunKind.merge ↦ Phase.move
    | RunKind.split ↦ Phase.move
    | RunKind.reindex ↦ Phase.reindex
  ]
]

abbrev pub after_move : Run → ℕ → List ℕ × Store → Store × ℕ
after_move run batch ([], st) =
    let fresh = record run { after = none } in finish_reindex fresh (reindex_batch fresh batch st)
after_move run batch (article ∷ articles, st) = (st, length (article ∷ articles))

abbrev pub advance_in : Phase → Run → ℕ → Store → Store × ℕ
advance_in Phase.move run batch st = after_move run batch (move_batch run batch st)
advance_in Phase.reindex run batch st = finish_reindex run (reindex_batch run batch st)

abbrev pub advance_found : Option Run → ℕ → Store → Store × ℕ
advance_found none batch st = (st, 0)
advance_found (some run) batch st =
    if run.running then advance_in (start_phase run) run batch st else (st, 0)

-- The run with that id, which no other transaction has locked, works through one batch.
unfoldable pub advance_run : ℕ → ℕ → Store → Store × ℕ
unfolding move_batch reindex_batch
advance_run id batch st = advance_found (find (λ r. r.id == id) st.runs) batch st

unfoldable pub advance_each : List ℕ → ℕ → Store → Store × ℕ
unfolding advance_run
advance_each [] batch st = (st, 0)
advance_each (id ∷ ids) batch st =
    let (st', moved) = advance_run id batch st in
    let (st'', rest) = advance_each ids batch st' in (st'', moved + rest)

-- The unfinished runs, the oldest first, each advanced by one batch.
unfoldable pub scan_authority_runs : ℕ → Store → Store × ℕ
unfolding advance_each
scan_authority_runs batch st =
    advance_each (map (λ r. r.id) (keep (λ r. r.running) st.runs)) batch st
