-- ===== src/Entities/Unchanged.antt =====
-- What leaves the names alone: the runs, the pairs that are different and the claims
-- (backend/app/entities/authority.py).
use newsintel.Entities.Changes.{get, root_only, root_of}
use newsintel.Prelude.Results.{Ensures, Ensures-if, Ensures-then}
use newsintel.Entities.Edits.{
  add_distinct, remove_distinct, release_name, add_pair, drop_pair, is_claim,
}
use newsintel.Entities.Runs.{
  move_articles, reindex_batch, move_batch, advance_run, advance_each, scan_authority_runs,
  move_article, after_move, advance_in, pending_articles, start_phase, advance_found,
}
use newsintel.Entities.Store.{RunKind, Run, Store, Phase, is_pair, pair}
use newsintel.Prelude.{
  ℕ, List, ◌≡◌, ◌∷◌, none, map, ◌∙◌, [], take, find, keep, any, ◌==◌, refl, some, both_branches,
  Option, ◌&&◌,
}

move_article-entities :
    (kind : RunKind) (entity root article : ℕ) (st : Store)
    → (move_article kind entity root article st).entities ≡ st.entities
move_article-entities RunKind.merge entity root article st = refl
move_article-entities RunKind.split entity root article st = refl
move_article-entities RunKind.reindex entity root article st = refl

move_articles-entities :
    (kind : RunKind) (entity root : ℕ) (articles : List ℕ) (st : Store)
    → (move_articles kind entity root articles st).entities ≡ st.entities
unfolding move_articles
move_articles-entities kind entity root [] st = refl
move_articles-entities kind entity root (article ∷ articles) st =
    move_articles-entities kind entity root articles (move_article kind entity root article st)
    ∙ move_article-entities kind entity root article st

reindex_batch-entities :
    (run : Run) (batch : ℕ) (st : Store) → (reindex_batch run batch st).1.entities ≡ st.entities
unfolding reindex_batch
reindex_batch-entities run batch st =
    both_branches (λ (x : Store). x.entities) run.events _ _ st.entities refl refl

after_move-entities :
    (run : Run) (batch : ℕ) (articles : List ℕ) (st : Store)
    → (after_move run batch (articles, st)).0.entities ≡ st.entities
after_move-entities run batch [] st = reindex_batch-entities (record run { after = none }) batch st
after_move-entities run batch (article ∷ articles) st = refl

advance_in-entities :
    (phase : Phase) (run : Run) (batch : ℕ) (st : Store)
    → (advance_in phase run batch st).0.entities ≡ st.entities
unfolding move_batch
advance_in-entities Phase.move run batch st =
    let articles = take batch (pending_articles run.kind run.entity_id run.root st.rows) in
    after_move-entities run batch articles (move_batch run batch st).1
    ∙ move_articles-entities run.kind run.entity_id run.root articles st
advance_in-entities Phase.reindex run batch st = reindex_batch-entities run batch st

advance_found-entities :
    (o : Option Run) (batch : ℕ) (st : Store) → (advance_found o batch st).0.entities ≡ st.entities
advance_found-entities none batch st = refl
advance_found-entities (some run) batch st =
    both_branches (λ (x : Store × ℕ). x.0.entities) run.running _ _ st.entities
      (advance_in-entities (start_phase run) run batch st) refl

advance_run-entities :
    (id batch : ℕ) (st : Store) → (advance_run id batch st).0.entities ≡ st.entities
unfolding advance_run
advance_run-entities id batch st = advance_found-entities (find (λ r. r.id == id) st.runs) batch st

advance_each-entities :
    (ids : List ℕ) (batch : ℕ) (st : Store) → (advance_each ids batch st).0.entities ≡ st.entities
unfolding advance_each
advance_each-entities [] batch st = refl
advance_each-entities (id ∷ ids) batch st =
    advance_each-entities ids batch (advance_run id batch st).0 ∙ advance_run-entities id batch st

pub scan-entities :
    (batch : ℕ) (st : Store) → (scan_authority_runs batch st).0.entities ≡ st.entities
unfolding scan_authority_runs
scan-entities batch st =
    advance_each-entities (map (λ r. r.id) (keep (λ r. r.running) st.runs)) batch st

add_pair-entities : (p : ℕ × ℕ) (st : Store) → (add_pair p st).entities ≡ st.entities
add_pair-entities p st =
    both_branches (λ (x : Store). x.entities) (any (is_pair p) st.distinct) _ _ st.entities refl
      refl

drop_pair-entities : (p : ℕ × ℕ) (st : Store) → (drop_pair p st).entities ≡ st.entities
drop_pair-entities p st =
    both_branches (λ (x : Store). x.entities) (any (is_pair p) st.distinct) _ _ st.entities refl
      refl

pub add_distinct-entities :
    (st : Store) (a b : ℕ) → Ensures (λ st'. st'.entities ≡ st.entities) (add_distinct st a b)
unfolding add_distinct
add_distinct-entities st a b =
    Ensures-if _ (a == b) _ _ (λ t. tt)
      λ n. Ensures-then _ (get st a) _ λ x. Ensures-then _ (root_of st x) _ λ first.
        Ensures-then _ (get st b) _ λ y. Ensures-then _ (root_of st y) _ λ second.
          Ensures-if _ (first.id == second.id) _ _ (λ t. tt)
            λ n. add_pair-entities (pair first.id second.id) st

pub remove_distinct-entities :
    (st : Store) (a b : ℕ) → Ensures (λ st'. st'.entities ≡ st.entities) (remove_distinct st a b)
unfolding remove_distinct
remove_distinct-entities st a b = Ensures-then _ (get st a) _ λ x.
    Ensures-then _ (root_of st x) _ λ first.
      Ensures-then _ (get st b) _ λ y.
        Ensures-then _ (root_of st y) _ λ second. drop_pair-entities (pair first.id second.id) st

pub release_name-entities :
    (st : Store) (root text : ℕ)
    → Ensures (λ done. done.0.entities ≡ st.entities) (release_name st root text)
unfolding release_name
release_name-entities st root text = Ensures-then _ (root_only st root) _ λ e.
    Ensures-if _ (any (λ c. is_claim e.language text c && c.root_id == e.id) st.claims) _ _
      (λ t. refl) (λ n. refl)
