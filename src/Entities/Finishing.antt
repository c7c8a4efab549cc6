-- ===== src/Entities/Finishing.antt =====
-- A merge run that works alone comes to its end (backend/app/entities/authority.py).
pub mod Chosen
pub mod Moved
pub mod Reindexed
use newsintel.Entities.Changes.{new_run}
use newsintel.Entities.Finishing.Moved.{left, is_of, move_articles-less, move_articles-length}
use newsintel.Entities.Finishing.Chosen.{find-put, no_articles}
use newsintel.Entities.Finishing.Reindexed.{is_next, ahead, ahead-less}
use newsintel.Prelude.Sets.{dedupe, nat_eq}
use newsintel.Prelude.Sort.{sort_by}
use newsintel.Entities.Runs.{
  advance_run, reindex_batch, advance_in, after_batch, finish_reindex, start_phase, advance_found,
  put_run, touch, move_articles, move_batch, move_article, pending_articles, after_move,
}
use newsintel.Entities.Store.{Store, Run, ArticleEntity, RunKind, Phase}
use newsintel.Prelude.{
  ℕ, refl, ◌≡◌, ◌∙◌, ◌≤◌, arith, ap, sym, subst, Option, suc, find, Bool, List, some, true, zero,
  ◌==◌, false, if◌then◌else◌, not, take, ◌∷◌, none, [], leb, map, keep, both_branches, else_branch,
  then_branch, ◌++◌, ◌+◌, length, length-keep-le,
}

-- The run's next batches, one scan after the other, without other runs.
abbrev pub advance_times : ℕ → ℕ → ℕ → Store → Store
advance_times zero id batch st = st
advance_times (suc n) id batch st = advance_times n id batch (advance_run id batch st).0

abbrev pub run_of : ℕ → Store → Option Run
run_of id st = find (λ r. r.id == id) st.runs

abbrev pub is_finished : Option Run → Bool
is_finished none = false
is_finished (some run) = not run.running

abbrev next_articles : Run → ℕ → List ArticleEntity → List ℕ
next_articles run batch rows = take batch (
    sort_by leb
      (dedupe (map (λ (r : ArticleEntity). r.article_id) (keep (is_next run.root run.after) rows))))

advance_found-finished :
    (o : Option Run) (batch : ℕ) (st : Store)
    → is_finished o ≡ true
    → (advance_found o batch st).0 ≡ st
advance_found-finished none batch st h = refl
advance_found-finished (some run) batch st h =
    let done : run.running ≡ false = ground arith in
    ap (λ (x : Store × ℕ). x.0) (else_branch run.running _ _ done)

finished-stays :
    (n id batch : ℕ) (st : Store)
    → is_finished (run_of id st) ≡ true
    → advance_times n id batch st ≡ st
unfolding advance_run
finished-stays zero id batch st h = refl
finished-stays (suc n) id batch st h =
    ap (advance_times n id batch) (advance_found-finished (run_of id st) batch st h)
    ∙ finished-stays n id batch st h

advance_run-found :
    (id batch : ℕ) (st : Store) (run : Run)
    → run_of id st ≡ some run
    → run.running ≡ true
    → advance_run id batch st ≡ advance_in (start_phase run) run batch st
unfolding advance_run
advance_run-found id batch st run h t =
    ap (λ o. advance_found o batch st) h
    ∙ then_branch run.running (advance_in (start_phase run) run batch st) (st, 0) t

after_batch-id : (run : Run) (articles : List ℕ) → (after_batch run articles).id ≡ run.id
after_batch-id run [] = refl
after_batch-id run (article ∷ articles) = refl

put_run-found :
    (id : ℕ) (run old : Run) (st st' : Store)
    → run.id ≡ id
    → run_of id st ≡ some old
    → st'.runs ≡ st.runs
    → run_of id (put_run run st') ≡ some run
put_run-found id run old st st' own found same =
    find-put run id st'.runs old own (ap (find (λ r. r.id == id)) same ∙ found)

-- What a batch of the second phase leaves.
finish_reindex-run :
    (id batch : ℕ) (st : Store) (run old : Run)
    → run_of id st ≡ some old
    → run.id ≡ id
    → (run_of id (finish_reindex run (reindex_batch run batch st)).0
        ≡ some (after_batch run (next_articles run batch st.rows)))
      × ((finish_reindex run (reindex_batch run batch st)).0.rows ≡ st.rows)
unfolding reindex_batch
finish_reindex-run id batch st run old found same =
    let articles = next_articles run batch st.rows in
    (
      put_run-found id (after_batch run articles) old st (reindex_batch run batch st).1
          (after_batch-id run articles ∙ same) found
          (both_branches (λ (x : Store). x.runs) run.events (touch articles true st)
            (record st { indexing = articles ++ st.indexing }) st.runs refl refl),
      both_branches (λ (x : Store). x.rows) run.events (touch articles true st)
          (record st { indexing = articles ++ st.indexing }) st.rows refl refl,
    )

-- From any batch of the second phase on, the run finishes and changes no row.
abbrev IsDone : ℕ → List ArticleEntity → Store → Type 0
IsDone id rows st = (is_finished (run_of id st) ≡ true) × (st.rows ≡ rows)

after_batch-IsDone :
    (n id batch : ℕ) (st : Store) (run : Run) (rows : List ArticleEntity) (articles : List ℕ)
    → run_of id st ≡ some (after_batch run articles)
    → next_articles run batch rows ≡ articles
    → st.rows ≡ rows
    → run.id ≡ id
    → run.running ≡ true
    → ahead run.root run.after rows ≤ n
    → IsDone id rows (advance_times n id batch st)
after_batch-IsDone n id batch st run rows [] found h same own going le =
    let done : is_finished (run_of id st) ≡ true = ap is_finished found in
    subst (IsDone id rows) (sym (finished-stays n id batch st done)) (done, same)
after_batch-IsDone zero id batch st run rows (a ∷ articles) found h same own going le =
    let less = ahead-less run.root run.after batch a articles rows h in absurd (omega arith)
after_batch-IsDone (suc n) id batch st run rows (a ∷ articles) found h same own going le =
    let less = ahead-less run.root run.after batch a articles rows h in
    let run' = after_batch run (a ∷ articles) in
    let st' = (finish_reindex run' (reindex_batch run' batch st)).0 in
    let (next, kept) = finish_reindex-run id batch st run' run' found own in
    subst (λ st''. IsDone id rows (advance_times n id batch st''))
      (sym (ap (λ (x : Store × ℕ). x.0) (advance_run-found id batch st run' found going)))
      (after_batch-IsDone n id batch st' run' rows (next_articles run' batch rows)
        (next ∙ ap (λ rs. some (after_batch run' (next_articles run' batch rs))) same) refl
        (kept ∙ same) own going (omega arith))

move_article-runs :
    (kind : RunKind) (variant root article : ℕ) (st : Store)
    → (move_article kind variant root article st).runs ≡ st.runs
move_article-runs RunKind.merge variant root article st = refl
move_article-runs RunKind.split variant root article st = refl
move_article-runs RunKind.reindex variant root article st = refl

move_articles-runs :
    (kind : RunKind) (variant root : ℕ) (articles : List ℕ) (st : Store)
    → (move_articles kind variant root articles st).runs ≡ st.runs
unfolding move_articles
move_articles-runs kind variant root [] st = refl
move_articles-runs kind variant root (article ∷ articles) st =
    move_articles-runs kind variant root articles (move_article kind variant root article st)
    ∙ move_article-runs kind variant root article st

-- Finished, and with no row of the variant left.
abbrev pub IsMerged : ℕ → ℕ → Store → Type 0
IsMerged id variant st = (is_finished (run_of id st) ≡ true) × (left variant st.rows ≡ 0)

-- The articles of a batch of the run of a merge, and what the batch comes to.
advance_in-move :
    (variant root id batch : ℕ) (events : Bool) (st : Store) (articles : List ℕ)
    → pending_articles RunKind.merge variant root st.rows ≡ articles
    → advance_in Phase.move (new_run RunKind.merge variant root events id) (suc batch) st
      ≡ after_move (new_run RunKind.merge variant root events id) (suc batch) (
        take (suc batch) articles,
        touch
            (take (suc batch) articles)
            false
            (move_articles RunKind.merge variant root (take (suc batch) articles) st),
      )
unfolding move_batch
advance_in-move variant root id batch events st articles h =
    ap
      (λ as'. after_move (new_run RunKind.merge variant root events id) (suc batch) (
        take (suc batch) as',
        touch (take (suc batch) as') false
            (move_articles RunKind.merge variant root (take (suc batch) as') st),
      ))
      h

advance_run-move :
    (variant root id batch : ℕ) (events : Bool) (st : Store) (articles : List ℕ)
    → run_of id st ≡ some (new_run RunKind.merge variant root events id)
    → pending_articles RunKind.merge variant root st.rows ≡ articles
    → advance_run id (suc batch) st
      ≡ after_move (new_run RunKind.merge variant root events id) (suc batch) (
        take (suc batch) articles,
        touch
            (take (suc batch) articles)
            false
            (move_articles RunKind.merge variant root (take (suc batch) articles) st),
      )
advance_run-move variant root id batch events st articles found h =
    advance_run-found id (suc batch) st (new_run RunKind.merge variant root events id) found refl
    ∙ advance_in-move variant root id batch events st articles h

none_left :
    (variant root : ℕ) (rows : List ArticleEntity)
    → pending_articles RunKind.merge variant root rows ≡ []
    → left variant rows ≡ 0
unfolding pending_articles
none_left variant root rows h = no_articles (is_of variant) rows h

done-IsMerged :
    (n id batch variant root : ℕ) (events : Bool) (st : Store) (articles : List ℕ)
    → run_of id st ≡ some (new_run RunKind.merge variant root events id)
    → (root == variant) ≡ false
    → left variant st.rows + length st.rows ≤ n
    → pending_articles RunKind.merge variant root st.rows ≡ articles
    → IsMerged id variant (advance_times (suc n) id (suc batch) st)
unfolding move_articles
done-IsMerged n id batch variant root events st [] found ne le h =
    let run = new_run RunKind.merge variant root events id in
    let st' = (finish_reindex run (reindex_batch run (suc batch) st)).0 in
    let (next, kept) = finish_reindex-run id (suc batch) st run run found refl in
    let fewer = length-keep-le (is_next root none) st.rows in
    let (done, same) =
      after_batch-IsDone n id (suc batch) st' run st.rows (next_articles run (suc batch) st.rows)
        next refl kept refl refl (omega arith) in
    subst (λ st''. IsMerged id variant (advance_times n id (suc batch) st''))
      (sym
        (ap (λ (x : Store × ℕ). x.0) (advance_run-move variant root id batch events st [] found h)))
      (done, ap (left variant) same ∙ none_left variant root st.rows h)
done-IsMerged zero id batch variant root events st (a ∷ articles) found ne le h =
    let less = move_articles-less variant root batch a articles st ne h in absurd (omega arith)
done-IsMerged (suc n) id batch variant root events st (a ∷ articles) found ne le h =
    let moved = take (suc batch) (a ∷ articles) in
    let st' = touch moved false (move_articles RunKind.merge variant root moved st) in
    let less = move_articles-less variant root batch a articles st ne h in
    let shorter = move_articles-length variant root moved st in
    subst (λ st''. IsMerged id variant (advance_times (suc n) id (suc batch) st''))
      (sym (
        ap (λ (x : Store × ℕ). x.0)
          (advance_run-move variant root id batch events st (a ∷ articles) found h)))
      (done-IsMerged n id batch variant root events st'
        (pending_articles RunKind.merge variant root st'.rows)
        (ap (find (λ r. r.id == id)) (move_articles-runs RunKind.merge variant root moved st)
          ∙ found)
        ne (omega arith) refl)

-- The run of a merge, as `merge` starts it, comes to its end when it works alone, in batches of at
-- least one article: after one batch more than there are rows of the variant and rows in all, it is
-- finished and no row of any generation is the variant's, if the variant is not the root.
pub merge_run-IsMerged :
    (n id batch variant root : ℕ) (events : Bool) (st : Store)
    → run_of id st ≡ some (new_run RunKind.merge variant root events id)
    → (root == variant) ≡ false
    → left variant st.rows + length st.rows ≤ n
    → IsMerged id variant (advance_times (suc n) id (suc batch) st)
merge_run-IsMerged n id batch variant root events st found ne le =
    done-IsMerged n id batch variant root events st
      (pending_articles RunKind.merge variant root st.rows) found ne le refl
