-- ===== src/Entities/Mentions.antt =====
-- The mentions of an article's row (backend/app/nlp/authority.py): rows of a root and its variants
-- combined into one, and a variant's mentions given back.
-- The order of the ids (UUIDs) is that of their texts, so they are numbers here.
use newsintel.Prelude.{
  ℕ, Option, Bool, List, none, some, leb, ◌∷◌, length, map, ltb, [], eq_opt, if◌then◌else◌, ◌++◌,
  ◌+◌, ◌||◌, false, min, keep, ◌==◌, true, not, ◌&&◌,
}
use newsintel.Prelude.Sort.{sort_by}
use newsintel.Prelude.Sets.{beq_list}
use newsintel.Clustering.Features.{Word}

-- A mention as the row's JSON holds it: `tag` is its "entity_id", `none` without one; `payload`
-- stands for the other keys.
pub record Occurrence : Type 0 where
  pub tag : Option ℕ
  pub input_start : Option ℕ
  pub payload : ℕ

pub record RowPart : Type 0 where
  pub observed_entity_id : Option ℕ
  pub original_label : Option Word
  pub occurrences : List Occurrence
  pub occurrence_count : Option ℕ

-- `relevance` is in fifths.
pub record Combined : Type 0 where
  pub observed_entity_id : Option ℕ
  pub original_label : Option Word
  pub occurrence_count : ℕ
  pub relevance : ℕ
  pub occurrences : List Occurrence

abbrev pub or_else {ℓ} : {A : Type ℓ} → Option A → Option A → Option A
or_else none b = b
or_else (some a) b = some a

-- `None` for the entity's own id.
abbrev pub foreign : ℕ → Option ℕ → Option ℕ
foreign own none = none
foreign own (some id) = if id == own then none else some id

-- The mention with the id of the name it was seen under, unless that is the row's own entity.
unfoldable pub retag : ℕ → Option ℕ → Occurrence → Occurrence
retag own observed item = record item { tag = foreign own (or_else item.tag observed) }

abbrev pub start_of : Occurrence → ℕ
start_of item = elim (item.input_start) [ none ↦ 0 | some n ↦ n ]

abbrev pub starts_before : Occurrence → Occurrence → Bool
starts_before a b = leb (start_of a) (start_of b)

-- `names[key] += count` of a `Counter`, in the order in which the keys came.
abbrev pub count_name : Option ℕ → ℕ → List (Option ℕ × ℕ) → List (Option ℕ × ℕ)
count_name key count [] = (key, count) ∷ []
count_name key count ((k, n) ∷ names) =
    let rest = count_name key count names in
    if eq_opt k key then (k, n + count) ∷ names else (k, n) ∷ rest

abbrev pub count_label : Word → ℕ → List (Word × ℕ) → List (Word × ℕ)
count_label key count [] = (key, count) ∷ []
count_label key count ((k, n) ∷ labels) =
    let rest = count_label key count labels in
    if beq_list k key then (k, n + count) ∷ labels else (k, n) ∷ rest

abbrev pub count_tags : List Occurrence → List (Option ℕ × ℕ) → List (Option ℕ × ℕ)
count_tags [] names = names
count_tags (item ∷ items) names = count_tags items (count_name item.tag 1 names)

abbrev pub part_count : RowPart → ℕ
part_count part = elim (part.occurrence_count) [ none ↦ length part.occurrences | some n ↦ n ]

-- The part's mentions under the row's entity.
unfoldable pub part_items : ℕ → RowPart → List Occurrence
unfolding retag
part_items own part = map (retag own part.observed_entity_id) part.occurrences

unfoldable pub all_items : ℕ → List RowPart → List Occurrence
unfolding part_items
all_items own [] = []
all_items own (part ∷ parts) = part_items own part ++ all_items own parts

abbrev pub add_names : ℕ → RowPart → List (Option ℕ × ℕ) → List (Option ℕ × ℕ)
add_names own part names = elim (part.occurrences) [
  | [] ↦ count_name (foreign own part.observed_entity_id) (part_count part) names
  | _ ∷ _ ↦ count_tags (part_items own part) names
]

-- Labels that are not empty are counted.
abbrev pub add_label : Option Word → ℕ → List (Word × ℕ) → List (Word × ℕ)
add_label none count labels = labels
add_label (some []) count labels = labels
add_label (some (c ∷ label)) count labels = count_label (c ∷ label) count labels

abbrev pub all_names : ℕ → List RowPart → List (Option ℕ × ℕ) → List (Option ℕ × ℕ)
all_names own [] names = names
all_names own (part ∷ parts) names = all_names own parts (add_names own part names)

abbrev pub all_labels : List RowPart → List (Word × ℕ) → List (Word × ℕ)
all_labels [] labels = labels
all_labels (part ∷ parts) labels =
    all_labels parts (add_label part.original_label (part_count part) labels)

abbrev pub total_count : List RowPart → ℕ
total_count [] = 0
total_count (part ∷ parts) = part_count part + total_count parts

-- The key `(-count, name is not None, name)`.
abbrev pub name_before : Option ℕ × ℕ → Option ℕ × ℕ → Bool
name_before (none, m) (none, n) = ltb n m
name_before (none, m) (some b, n) = leb n m
name_before (some a, m) (none, n) = ltb n m
name_before (some a, m) (some b, n) = ltb n m || (m == n && ltb a b)

-- The order of texts by their code points.
abbrev pub word_before : Word → Word → Bool
word_before [] [] = false
word_before [] (b ∷ bs) = true
word_before (a ∷ as') [] = false
word_before (a ∷ as') (b ∷ bs) = ltb a b || (a == b && word_before as' bs)

abbrev pub label_before : Word × ℕ → Word × ℕ → Bool
label_before (a, m) (b, n) = ltb n m || (m == n && word_before a b)

abbrev pub top_name : Option ℕ × ℕ → List (Option ℕ × ℕ) → Option ℕ
top_name best [] = best.0
top_name best (n ∷ names) = top_name (if name_before n best then n else best) names

abbrev pub top_label : Word × ℕ → List (Word × ℕ) → Word
top_label best [] = best.0
top_label best (l ∷ labels) = top_label (if label_before l best then l else best) labels

abbrev pub name_of_row : List (Option ℕ × ℕ) → Option ℕ
name_of_row [] = none
name_of_row (n ∷ names) = top_name n names

abbrev pub label_of_row : List (Word × ℕ) → Option Word
label_of_row [] = none
label_of_row (l ∷ labels) = some (top_label l labels)

-- No caller passes an empty list, for which `min` would raise.
unfoldable pub combine_rows : ℕ → List RowPart → Combined
unfolding all_items
combine_rows own parts =
    let total = total_count parts in
    record {
      observed_entity_id = name_of_row (all_names own parts []);
      original_label = label_of_row (all_labels parts []);
      occurrence_count = total;
      relevance = min 5 total;
      occurrences = sort_by starts_before (all_items own parts);
    }

abbrev pub is_tagged : ℕ → Occurrence → Bool
is_tagged variant item = eq_opt item.tag (some variant)

abbrev pub untag : Occurrence → Occurrence
untag item = record item { tag = none }

-- The variant's own mentions, untagged again, and everything else, in order.
unfoldable pub split_occurrences : List Occurrence → ℕ → List Occurrence × List Occurrence
split_occurrences items variant =
    (map untag (keep (is_tagged variant) items), keep (λ item. not (is_tagged variant item)) items)
