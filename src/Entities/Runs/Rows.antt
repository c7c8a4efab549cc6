-- ===== src/Entities/Runs/Rows.antt =====
-- How a merge or a split changes the rows of one article (backend/app/entities/authority.py).
use newsintel.Prelude.{
  ℕ, Option, Bool, List, ◌∷◌, update_where, some, find, map, if◌then◌else◌, ◌==◌, leb, none, [],
  keep, false, ◌+◌, ◌&&◌, not, is_some, ◌||◌, eq_opt, any,
}
use newsintel.Prelude.Sets.{nat_eq}
use newsintel.Prelude.Sort.{sort_by}
use newsintel.Entities.Mentions.{
  RowPart, Combined, Occurrence, combine_rows, split_occurrences, is_tagged,
}
use newsintel.Entities.Store.{ArticleEntity}

-- `_part`
abbrev pub part_of : ArticleEntity → Option ℕ → RowPart
part_of row observed = record {
  observed_entity_id = observed;
  original_label = row.original_label;
  occurrences = row.occurrences;
  occurrence_count = some row.occurrence_count;
}

-- `_apply`
abbrev pub apply_to : ArticleEntity → ℕ → Combined → ArticleEntity
apply_to row entity_id combined = record row {
  entity_id = entity_id;
  observed_entity_id = combined.observed_entity_id;
  original_label = combined.original_label;
  occurrence_count = combined.occurrence_count;
  relevance = combined.relevance;
  occurrences = combined.occurrences;
}

-- The name a row was seen under: its observed one, or the variant when the row is the variant's.
abbrev pub seen_as : ℕ → ArticleEntity → Option ℕ
seen_as variant row = elim (row.observed_entity_id) [
  | some id ↦ some id
  | none ↦ if row.entity_id == variant then some variant else none
]

abbrev pub part_seen : ℕ → ArticleEntity → RowPart
part_seen variant row = part_of row (seen_as variant row)

abbrev pub in_group : ℕ → ℕ → ℕ → ArticleEntity → Bool
in_group article variant root row =
    row.article_id == article && (row.entity_id == variant || row.entity_id == root)

abbrev pub id_before : ArticleEntity → ArticleEntity → Bool
id_before a b = leb a.id b.id

abbrev pub first_or : ArticleEntity → Option ArticleEntity → ArticleEntity
first_or row none = row
first_or row (some found) = found

-- The row that is kept: the root's own, or else the first.
abbrev pub kept_row : ℕ → ArticleEntity → List ArticleEntity → ArticleEntity
kept_row root row rows = first_or row (find (λ r. r.entity_id == root) (row ∷ rows))

-- The current rows of the article become one row of the root.
abbrev pub merge_current : ℕ → ℕ → ℕ → List ArticleEntity → List ArticleEntity → List ArticleEntity
merge_current article variant root [] rows = rows
merge_current article variant root (row ∷ group) rows =
    let kept = kept_row root row group in
    update_where (λ r. r.id == kept.id)
      (λ r. apply_to kept root (combine_rows root (map (part_seen variant) (row ∷ group))))
      (keep (λ r. not (in_group article variant root r && r.is_current) || r.id == kept.id) rows)

abbrev pub merge_past : ℕ → ℕ → ArticleEntity → ArticleEntity
merge_past variant root row = apply_to row root (combine_rows root (part_seen variant row ∷ []))

unfoldable pub merge_article : ℕ → ℕ → ℕ → List ArticleEntity → List ArticleEntity
unfolding combine_rows
merge_article article variant root rows =
    let group =
      sort_by id_before (keep (λ r. in_group article variant root r && r.is_current) rows) in
    merge_current article variant root group (
      update_where (λ r. in_group article variant root r && not r.is_current)
        (merge_past variant root) rows)

-- `_split_rows`: a root's row that was seen as the variant, or has a mention with its tag.
abbrev pub is_split_row : ℕ → ℕ → ArticleEntity → Bool
is_split_row variant root row =
    row.entity_id == root
    && (eq_opt row.observed_entity_id (some variant) || any (is_tagged variant) row.occurrences)

abbrev pub has_tags : List Occurrence → Bool
has_tags [] = false
has_tags (item ∷ items) = is_some item.tag || has_tags items

abbrev pub only_part : ArticleEntity → List Occurrence → RowPart
only_part row items = record {
  observed_entity_id = none;
  original_label = row.original_label;
  occurrences = items;
  occurrence_count = none;
}

-- The row's mentions, each with its name's tag.
unfoldable pub normal_items : ℕ → ArticleEntity → List Occurrence
unfolding combine_rows
normal_items root row =
    let observed = if has_tags row.occurrences then none else row.observed_entity_id in
    let combined = combine_rows root (part_of row observed ∷ []) in combined.occurrences

-- What becomes of the row, and the variant's new row.
pub record SplitRow : Type 0 where
  pub changed : ArticleEntity
  pub given_back : Option ArticleEntity

abbrev pub split_items : ℕ → ℕ → ℕ → ArticleEntity → List Occurrence → List Occurrence → SplitRow
split_items variant root new_id row taken [] = record {
  changed = apply_to row variant (combine_rows variant (only_part row taken ∷ []));
  given_back = none;
}
split_items variant root new_id row taken (item ∷ kept) = record {
  changed = apply_to row root (combine_rows root (only_part row (item ∷ kept) ∷ []));
  given_back = some (
      apply_to (record row { id = new_id }) variant
        (record (combine_rows variant (only_part row taken ∷ [])) { observed_entity_id = none }));
}

abbrev pub split_normal : ℕ → ℕ → ℕ → ArticleEntity → List Occurrence → SplitRow
split_normal variant root new_id row [] = record {
  changed = apply_to row variant (combine_rows variant (part_of row none ∷ []));
  given_back = none;
}
split_normal variant root new_id row (item ∷ items) =
    let (taken, kept) = split_occurrences (item ∷ items) variant in
    split_items variant root new_id row taken kept

unfoldable pub split_row : ℕ → ℕ → ℕ → ArticleEntity → SplitRow
unfolding combine_rows split_occurrences normal_items
split_row variant root new_id row = split_normal variant root new_id row (normal_items root row)

-- The rows with the ids from `next_id` on for the variant's new rows, and the next id.
unfoldable pub split_rows : ℕ → ℕ → ℕ → ℕ → List ArticleEntity → List ArticleEntity × ℕ
unfolding split_row
split_rows article variant root next_id [] = ([], next_id)
split_rows article variant root next_id (row ∷ rows) =
    let done = split_row variant root next_id row in
    let same = split_rows article variant root next_id rows in
    let later = split_rows article variant root (next_id + 1) rows in
    if row.article_id == article && is_split_row variant root row
    then elim (done.given_back) [
      | none ↦ (done.changed ∷ same.0, same.1)
      | some fresh ↦ (done.changed ∷ fresh ∷ later.0, later.1)
    ]
    else (row ∷ same.0, same.1)
