-- ===== src/Entities/SplitBack.antt =====
-- A row that a merge left is split back into the root's and the variant's rows
-- (backend/app/entities/authority.py).
use newsintel.Entities.Normal.{
  combined_twice, retag-all_items, combined_plain, any-keep, normal_items-merged, split_normal-kept,
}
use newsintel.Entities.Labels.{is_written, combined-is_written, label_of_row-add_label}
use newsintel.Entities.GivenBack.{
  IsUntagged, IsFree, tag_as, taken_items, split_occurrences-combine_rows,
}
use newsintel.Entities.Store.{ArticleEntity}
use newsintel.Prelude.Sort.Kept.{map-sort_by}
use newsintel.Prelude.{refl, ◌∙◌, List, ◌++◌, ℕ, sym, false, subst, length, arith, min, suc, ◌+◌}
use newsintel.Entities.Runs.{apply_to, split_row, split_normal, only_part, split_items, SplitRow}
use newsintel.Prelude.Sort.{sort_by, IsSorted}
use newsintel.Entities.Mentions.{
  retag, all_items, Occurrence, part_items, RowPart, starts_before, is_tagged, combine_rows,
  name_of_row, count_tags,
}
use newsintel.Prelude.{ℕ, Option, List, map, none, ◌≡◌, ◌++◌, some, ◌∷◌, [], true, ap, ◌==◌}

-- The entity's row with these mentions, of the article, the generation and the label of `row`.
abbrev pub IsRowOf : ℕ → ArticleEntity → List Occurrence → ArticleEntity → Type 0
IsRowOf entity row items made =
    (made.entity_id ≡ entity)
    × (made.article_id ≡ row.article_id)
    × (made.is_current ≡ row.is_current)
    × (made.original_label ≡ row.original_label)
    × (made.occurrences ≡ items)
    × (made.occurrence_count ≡ length items)
    × (made.relevance ≡ min 5 (length items))

-- A new row of the variant, under no other name.
abbrev pub IsGivenBack : ℕ → ℕ → ArticleEntity → List Occurrence → Option ArticleEntity → Type 0
IsGivenBack variant new_id row items none = ⊥
IsGivenBack variant new_id row items (some made) =
    (made.id ≡ new_id) × (made.observed_entity_id ≡ none) × IsRowOf variant row items made

-- The root's row with `kept`, under their commonest name, and a new row of the variant with `items`.
abbrev pub IsUndone :
    ℕ → ℕ → ℕ → ArticleEntity → List Occurrence → List Occurrence → SplitRow → Type 0
IsUndone own variant new_id row kept items done =
    (done.changed.id ≡ row.id)
    × (done.changed.observed_entity_id ≡ name_of_row (count_tags kept []))
    × IsRowOf own row kept done.changed
    × IsGivenBack variant new_id row items done.given_back

combined_kept :
    (own : ℕ) (row : ArticleEntity) (parts : List RowPart)
    → (combine_rows own (only_part row (combine_rows own parts).occurrences ∷ [])).occurrences
      ≡ (combine_rows own parts).occurrences
unfolding combine_rows all_items part_items
combined_kept own row parts = combined_twice own parts

-- Mentions that were combined carry their names already.
retag_kept :
    (own : ℕ) (parts : List RowPart)
    → map (retag own none) (combine_rows own parts).occurrences
      ≡ (combine_rows own parts).occurrences
unfolding combine_rows retag
retag_kept own parts =
    map-sort_by starts_before (retag own none) (λ a b. refl) (all_items own parts)
    ∙ ap (sort_by starts_before) (retag-all_items own parts)

kept_name :
    (own : ℕ) (row : ArticleEntity) (parts : List RowPart) (k : Occurrence) (ks : List Occurrence)
    → (combine_rows own parts).occurrences ≡ k ∷ ks
    → (combine_rows own (only_part row (k ∷ ks) ∷ [])).observed_entity_id
      ≡ name_of_row (count_tags (combine_rows own parts).occurrences [])
unfolding combine_rows part_items
kept_name own row parts k ks others =
    ap (λ zs. name_of_row (count_tags zs []))
      (ap (map (retag own none)) (sym others) ∙ retag_kept own parts)

split_items-IsUndone :
    (own variant new_id : ℕ) (row : ArticleEntity) (parts : List RowPart) (taken : List Occurrence)
    (k : Occurrence) (ks : List Occurrence)
    → is_written row.original_label ≡ true
    → IsUntagged taken
    → IsSorted starts_before taken
    → (combine_rows own parts).occurrences ≡ k ∷ ks
    → IsUndone own variant new_id row
        (combine_rows own parts).occurrences
        taken
        (split_items variant own new_id row taken (k ∷ ks))
unfolding combine_rows
split_items-IsUndone own variant new_id row parts taken k ks written plain ordered others =
    let kept =
      ap (λ zs. (combine_rows own (only_part row zs ∷ [])).occurrences) (sym others)
      ∙ combined_kept own row parts in
    let size : suc (length ks) + 0 ≡ length (combine_rows own parts).occurrences =
      omega (arith, ap length others) in
    let label = λ (n : ℕ). label_of_row-add_label row.original_label n written in
    let own_size : length taken + 0 ≡ length taken = omega arith in
    (
      refl,
      kept_name own row parts k ks others,
      (refl, refl, refl, label (length (k ∷ ks)), kept, size, ap (min 5) size),
      (
        refl,
        refl,
        (
          refl,
          refl,
          refl,
          label (length taken),
          combined_plain variant row taken plain ordered,
          own_size,
          ap (min 5) own_size,
        ),
      ),
    )

-- Splitting a variant off the row that a merge left gives the mentions back, if the variant is not
-- the root, its row had mentions, untagged and in order, and the other rows had mentions, none of
-- them the variant's: the row stays the root's, with exactly the mentions that it has without the
-- variant, their number and their commonest name; and a new row of the variant is made, under no
-- other name, with exactly its mentions, untagged, and their number. Both are of the row's article
-- and generation, and both keep the merged row's label: the labels from before are not given back.
pub split_row-merged :
    (own variant new_id : ℕ) (row : ArticleEntity) (before after : List RowPart) (part : RowPart)
    (m : Occurrence) (ms : List Occurrence) (k : Occurrence) (ks : List Occurrence)
    → (variant == own) ≡ false
    → part.observed_entity_id ≡ some variant
    → part.occurrences ≡ m ∷ ms
    → IsUntagged part.occurrences
    → IsSorted starts_before part.occurrences
    → IsFree own variant before
    → IsFree own variant after
    → (combine_rows own (before ++ after)).occurrences ≡ k ∷ ks
    → let merged = apply_to row own (combine_rows own (before ++ part ∷ after)) in
      IsUndone own variant new_id merged
        (combine_rows own (before ++ after)).occurrences
        part.occurrences
        (split_row variant own new_id merged)
unfolding split_row
split_row-merged own variant new_id row before after part m ms k ks ne seen held plain ordered free
      free' others =
    let parts = before ++ part ∷ after in
    let merged = apply_to row own (combine_rows own parts) in
    let tagged =
      any-keep (is_tagged variant) (all_items own parts) (tag_as variant m)
        (map (tag_as variant) ms)
        (taken_items own variant before after part ne seen plain free free'
          ∙ ap (map (tag_as variant)) held) in
    let back =
      split_occurrences-combine_rows own variant before after part ne seen plain ordered free free'
      ∙ (λ i. (part.occurrences, others i)) in
    let whole =
      ap (split_normal variant own new_id merged) (normal_items-merged own variant row parts tagged)
      ∙ split_normal-kept variant own new_id merged (combine_rows own parts).occurrences
          part.occurrences k ks back in
    subst
      (IsUndone own variant new_id merged (combine_rows own (before ++ after)).occurrences
        part.occurrences)
      (sym whole)
      (split_items-IsUndone own variant new_id merged (before ++ after) part.occurrences k ks
        (combined-is_written own parts) plain ordered others)
