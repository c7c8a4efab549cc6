-- ===== src/Entities/Tests.antt =====
-- Runs of the authority file on small tables (backend/app/entities/authority.py), and where the
-- conditions of the theorems hold.
use newsintel.Prelude.Results.{Verdict, granted, refused}
use newsintel.Entities.Runs.{
  split_row, apply_to, merge_article, scan_authority_runs, advance_each, advance_run, move_batch,
  reindex_batch, pending_articles, move_articles, split_rows, normal_items,
}
use newsintel.Prelude.Text.{codes}
use newsintel.Entities.GivenBack.{IsFree, split_occurrences-combine_rows}
use newsintel.Entities.Finishing.{IsMerged, advance_times, merge_run-IsMerged}
use newsintel.Entities.SplitBack.{IsUndone, split_row-merged}
use newsintel.Entities.Mentions.{
  Occurrence, RowPart, all_items, combine_rows, part_items, retag, split_occurrences,
}
use newsintel.Entities.Reach.{add_entity, merged}
use newsintel.Entities.Changes.{merge, new_run}
use newsintel.Entities.Store.{
  Entity, Store, ArticleEntity, EntityType, AuthorityError, empty_store, Run, EntityStatus,
  NameSource, RunKind,
}
use newsintel.Prelude.{
  ℕ, refl, ◌≡◌, Bool, ◌==◌, none, some, ◌∷◌, [], true, false, arith, List, map, Option,
}

abbrev spaces : ℕ → Bool
spaces c = c == 32

abbrev name_with : ℕ → ℕ → Entity
name_with id text = record {
  id = id;
  language = 0;
  entity_type = EntityType.gpe;
  normalized_text = text;
  display_text = text ∷ [];
  authority_id = none;
  preferred_text = none;
  status = EntityStatus.provisional;
  ambiguous = false;
  note = none;
  preferred_type = none;
  hidden = false;
  name_source = NameSource.ner;
}

abbrev usa : Entity
usa = name_with 2 20

abbrev america : Entity
america = name_with 3 30

abbrev one_name : Store
one_name = add_entity usa empty_store

abbrev two_names : Store
two_names = add_entity america one_name

abbrev outcome : Verdict AuthorityError (Store × Run) → Store × Run
outcome (granted done) = done
outcome (refused e) = (two_names, new_run RunKind.merge 0 0 false 0)

abbrev merged_names : Store
merged_names = (outcome (merge two_names 3 2)).0

abbrev mention : ℕ → ℕ → Occurrence
mention at payload = record { tag = none; input_start = some at; payload = payload }

abbrev usa_part : RowPart
usa_part = record {
  observed_entity_id = none;
  original_label = some (codes "USA");
  occurrences = mention 40 1 ∷ [];
  occurrence_count = some 1;
}

abbrev america_part : RowPart
america_part = record {
  observed_entity_id = some 3;
  original_label = some (codes "America");
  occurrences = mention 7 2 ∷ mention 60 3 ∷ [];
  occurrence_count = some 2;
}

abbrev usa_row : ArticleEntity
usa_row = record {
  id = 11;
  article_id = 70;
  entity_id = 2;
  observed_entity_id = none;
  original_label = some (codes "USA");
  occurrence_count = 1;
  relevance = 1;
  occurrences = mention 40 1 ∷ [];
  is_current = true;
}

usa_part-IsFree : IsFree 2 3 (usa_part ∷ [])
unfolding all_items part_items retag
usa_part-IsFree = refl

nil-IsFree : IsFree 2 3 []
unfolding all_items
nil-IsFree = refl

usa_kept : (combine_rows 2 (usa_part ∷ [])).occurrences ≡ mention 40 1 ∷ []
unfolding combine_rows all_items part_items retag
usa_kept = refl

split_row-merged_example :
    let merged = apply_to usa_row 2 (combine_rows 2 (usa_part ∷ america_part ∷ [])) in
    IsUndone 2 3 12 merged
      (combine_rows 2 (usa_part ∷ [])).occurrences
      america_part.occurrences
      (split_row 3 2 12 merged)
split_row-merged_example =
    split_row-merged 2 3 12 usa_row (usa_part ∷ []) [] america_part (mention 7 2)
      (mention 60 3 ∷ []) (mention 40 1) [] refl refl refl (refl, (refl, tt)) ((refl, tt), (tt, tt))
      usa_part-IsFree nil-IsFree usa_kept

abbrev america_row : ArticleEntity
america_row = record usa_row {
  id = 12;
  entity_id = 3;
  occurrence_count = 2;
  occurrences = mention 7 2 ∷ mention 60 3 ∷ [];
}

abbrev merging : Store
merging = record empty_store {
  rows = usa_row ∷ america_row ∷ [];
  runs = new_run RunKind.merge 3 2 false 5 ∷ [];
}

merge_run-IsMerged_example : IsMerged 5 3 (advance_times 4 5 100 merging)
merge_run-IsMerged_example = merge_run-IsMerged 3 5 99 3 2 false merging refl refl (omega arith)

split_occurrences-combine_rows_example :
    split_occurrences (combine_rows 2 (usa_part ∷ america_part ∷ [])).occurrences 3
    ≡ (america_part.occurrences, (combine_rows 2 (usa_part ∷ [])).occurrences)
split_occurrences-combine_rows_example =
    split_occurrences-combine_rows 2 3 (usa_part ∷ []) [] america_part refl refl (refl, (refl, tt))
      ((refl, tt), (tt, tt)) usa_part-IsFree nil-IsFree

-- Two names of one article merged into the same root, one after the other, and the first one split
-- off again: the root's own mention goes with it.
abbrev states_row : ArticleEntity
states_row = record usa_row { id = 13; entity_id = 4; occurrences = mention 90 4 ∷ [] }

abbrev merged_twice : List ArticleEntity
merged_twice = merge_article 70 4 2 (merge_article 70 3 2 (usa_row ∷ america_row ∷ states_row ∷ []))

abbrev tags : List Occurrence → List (ℕ × Option ℕ)
tags [] = []
tags (o ∷ items) = (o.payload, o.tag) ∷ tags items

abbrev first_tags : List ArticleEntity → List (ℕ × Option ℕ)
first_tags [] = []
first_tags (row ∷ rows) = tags row.occurrences

merged_twice_tags :
    first_tags merged_twice ≡ (2, some 3) ∷ (1, some 3) ∷ (3, some 3) ∷ (4, some 4) ∷ []
unfolding merge_article combine_rows all_items part_items retag
merged_twice_tags = refl

-- A name split off before its merge run got to the article: the next scan moves the row to the old
-- root and gives it back, and leaves both runs unfinished.
abbrev raced : Store
raced = record empty_store {
  rows = america_row ∷ [];
  runs = new_run RunKind.merge 3 2 false 5 ∷ new_run RunKind.split 3 2 false 6 ∷ [];
  next_id = 20;
}

scan_raced :
    let after = (scan_authority_runs 100 raced).0 in
    (map (λ (r : ArticleEntity). r.entity_id) after.rows ≡ 3 ∷ [])
    × (map (λ (r : Run). r.running) after.runs ≡ true ∷ true ∷ [])
    × (after.indexing ≡ 70 ∷ [])
unfolding scan_authority_runs advance_each advance_run move_batch reindex_batch pending_articles
    move_articles merge_article split_rows split_row normal_items combine_rows all_items part_items
    retag split_occurrences
scan_raced = (refl, refl, refl)
