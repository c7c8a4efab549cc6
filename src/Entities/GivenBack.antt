-- ===== src/Entities/GivenBack.antt =====
-- A split gives back exactly the mentions that a merge took (backend/app/nlp/authority.py).
use mathlib.Core.List.{append_assoc, append-nil}
use newsintel.Prelude.Sort.Kept.{keep-sort_by, map-sort_by, sort_by-sorted}
use newsintel.Prelude.Sort.{IsSorted, sort_by}
use newsintel.Entities.Mentions.{
  Occurrence, all_items, retag, starts_before, RowPart, is_tagged, untag, part_items, foreign,
  split_occurrences, or_else, combine_rows,
}
use newsintel.Prelude.{
  ℕ, Bool, List, keep, All, any, ◌==◌, ◌≡◌, ◌++◌, false, true, ◌∷◌, none, arith, [], Bool-cases,
  not, map, inl, some, ap, inr, refl, ==_refl, sym, ◌∙◌,
}

pub starts_total : (a b : Occurrence) → starts_before a b ≡ false → starts_before b a ≡ true
starts_total a b h = ground arith

pub starts_trans :
    (a b c : Occurrence)
    → starts_before a b ≡ true
    → starts_before b c ≡ true
    → starts_before a c ≡ true
starts_trans a b c h k = ground arith

all_items-++ :
    (own : ℕ) (before after : List RowPart)
    → all_items own (before ++ after) ≡ all_items own before ++ all_items own after
unfolding all_items
all_items-++ own [] after = refl
all_items-++ own (part ∷ before) after =
    ap (λ zs. part_items own part ++ zs) (all_items-++ own before after)
    ∙ sym (append_assoc (part_items own part) (all_items own before) (all_items own after))

keep-++ {ℓ} :
    {A : Type ℓ} (p : A → Bool) (xs ys : List A) → keep p (xs ++ ys) ≡ keep p xs ++ keep p ys
keep-++ p [] ys = refl
keep-++ p (x ∷ xs) ys = elim (Bool-cases (p x)) [
  | inl t ↦ rw t (ap (λ zs. x ∷ zs) (keep-++ p xs ys))
  | inr n ↦ rw n (keep-++ p xs ys)
]

abbrev pub IsUntagged : List Occurrence → Type 0
IsUntagged items = All (λ (item : Occurrence). item.tag ≡ none) items

-- No mention that these rows leave under the root is the variant's.
abbrev pub IsFree : ℕ → ℕ → List RowPart → Type 0
IsFree own variant parts = any (is_tagged variant) (all_items own parts) ≡ false

keep-none {ℓ} : {A : Type ℓ} (p : A → Bool) (xs : List A) → any p xs ≡ false → keep p xs ≡ []
keep-none p [] h = refl
keep-none p (x ∷ xs) h = elim (Bool-cases (p x)) [
  | inl t ↦ ground arith
  | inr n ↦ rw n (keep-none p xs (ground arith))
]

keep-others {ℓ} :
    {A : Type ℓ} (p : A → Bool) (xs : List A) → any p xs ≡ false → keep (λ x. not (p x)) xs ≡ xs
keep-others p [] h = refl
keep-others p (x ∷ xs) h = elim (Bool-cases (p x)) [
  | inl t ↦ ground arith
  | inr n ↦ rw n (ap (λ ys. x ∷ ys) (keep-others p xs (ground arith)))
]

abbrev pub tag_as : ℕ → Occurrence → Occurrence
tag_as variant item = record item { tag = some variant }

foreign_id : (own id : ℕ) → (id == own) ≡ false → foreign own (some id) ≡ some id
foreign_id own id ne = rw ne refl

retag_untagged :
    (own variant : ℕ) (items : List Occurrence)
    → (variant == own) ≡ false
    → IsUntagged items
    → map (retag own (some variant)) items ≡ map (tag_as variant) items
unfolding retag
retag_untagged own variant [] ne h = refl
retag_untagged own variant (item ∷ items) ne h =
    let head : foreign own (or_else item.tag (some variant)) ≡ some variant =
      ap (λ t. foreign own (or_else t (some variant))) h.0 ∙ foreign_id own variant ne in
    rw head (ap (λ zs. tag_as variant item ∷ zs) (retag_untagged own variant items ne h.1))

keep-tag_as :
    (variant : ℕ) (items : List Occurrence)
    → keep (is_tagged variant) (map (tag_as variant) items) ≡ map (tag_as variant) items
keep-tag_as variant [] = refl
keep-tag_as variant (item ∷ items) =
    rw (==_refl variant) (ap (λ zs. tag_as variant item ∷ zs) (keep-tag_as variant items))

drop-tag_as :
    (variant : ℕ) (items : List Occurrence)
    → keep (λ item. not (is_tagged variant item)) (map (tag_as variant) items) ≡ []
drop-tag_as variant [] = refl
drop-tag_as variant (item ∷ items) = rw (==_refl variant) (drop-tag_as variant items)

untag-tag_as :
    (variant : ℕ) (items : List Occurrence)
    → IsUntagged items
    → map untag (map (tag_as variant) items) ≡ items
untag-tag_as variant [] h = refl
untag-tag_as variant (item ∷ items) h =
    let same : untag item ≡ item = ap (λ t. record item { tag = t }) (sym h.0) in
    ap (λ zs. untag item ∷ zs) (untag-tag_as variant items h.1)
    ∙ ap (λ (x : Occurrence). x ∷ items) same

keep-all_items :
    (p : Occurrence → Bool) (own : ℕ) (before after : List RowPart) (part : RowPart)
    → keep p (all_items own (before ++ part ∷ after))
      ≡ keep p (all_items own before)
        ++ (keep p (part_items own part) ++ keep p (all_items own after))
unfolding all_items
keep-all_items p own before after part =
    ap (keep p) (all_items-++ own before (part ∷ after))
    ∙ keep-++ p (all_items own before) (part_items own part ++ all_items own after)
    ∙ ap (λ zs. keep p (all_items own before) ++ zs)
        (keep-++ p (part_items own part) (all_items own after))

items_of :
    (own variant : ℕ) (part : RowPart)
    → (variant == own) ≡ false
    → part.observed_entity_id ≡ some variant
    → IsUntagged part.occurrences
    → part_items own part ≡ map (tag_as variant) part.occurrences
unfolding part_items
items_of own variant part ne seen plain =
    ap (λ o. map (retag own o) part.occurrences) seen
    ∙ retag_untagged own variant part.occurrences ne plain

pub taken_items :
    (own variant : ℕ) (before after : List RowPart) (part : RowPart)
    → (variant == own) ≡ false
    → part.observed_entity_id ≡ some variant
    → IsUntagged part.occurrences
    → IsFree own variant before
    → IsFree own variant after
    → keep (is_tagged variant) (all_items own (before ++ part ∷ after))
      ≡ map (tag_as variant) part.occurrences
taken_items own variant before after part ne seen plain free free' =
    keep-all_items (is_tagged variant) own before after part
    ∙ rw
        (
          keep-none (is_tagged variant) (all_items own before) free,
          keep-none (is_tagged variant) (all_items own after) free',
          items_of own variant part ne seen plain,
          keep-tag_as variant part.occurrences,
        )
        (append-nil (map (tag_as variant) part.occurrences))

kept_items :
    (own variant : ℕ) (before after : List RowPart) (part : RowPart)
    → (variant == own) ≡ false
    → part.observed_entity_id ≡ some variant
    → IsUntagged part.occurrences
    → IsFree own variant before
    → IsFree own variant after
    → keep (λ item. not (is_tagged variant item)) (all_items own (before ++ part ∷ after))
      ≡ all_items own (before ++ after)
kept_items own variant before after part ne seen plain free free' =
    keep-all_items (λ item. not (is_tagged variant item)) own before after part
    ∙ rw
        (
          keep-others (is_tagged variant) (all_items own before) free,
          keep-others (is_tagged variant) (all_items own after) free',
          items_of own variant part ne seen plain,
          drop-tag_as variant part.occurrences,
        )
        (sym (all_items-++ own before after))

-- Combining the rows of a root with the row of a variant and then splitting the variant off gives
-- the variant exactly its own mentions, untagged, and leaves the root the mentions that it has
-- without the variant: if the variant is not the root, its row's mentions are untagged and in
-- order, and no other row has a mention of the variant.
pub split_occurrences-combine_rows :
    (own variant : ℕ) (before after : List RowPart) (part : RowPart)
    → (variant == own) ≡ false
    → part.observed_entity_id ≡ some variant
    → IsUntagged part.occurrences
    → IsSorted starts_before part.occurrences
    → IsFree own variant before
    → IsFree own variant after
    → split_occurrences (combine_rows own (before ++ part ∷ after)).occurrences variant
      ≡ (part.occurrences, (combine_rows own (before ++ after)).occurrences)
unfolding split_occurrences combine_rows
split_occurrences-combine_rows own variant before after part ne seen plain ordered free free' =
    let taken =
      keep-sort_by starts_before starts_total starts_trans (is_tagged variant)
        (all_items own (before ++ part ∷ after))
      ∙ ap (sort_by starts_before)
          (taken_items own variant before after part ne seen plain free free') in
    let kept =
      keep-sort_by starts_before starts_total starts_trans (λ item. not (is_tagged variant item))
        (all_items own (before ++ part ∷ after))
      ∙ ap (sort_by starts_before)
          (kept_items own variant before after part ne seen plain free free') in
    let given =
      ap (map untag) taken
      ∙ map-sort_by starts_before untag (λ a b. refl) (map (tag_as variant) part.occurrences)
      ∙ ap (sort_by starts_before) (untag-tag_as variant part.occurrences plain)
      ∙ sort_by-sorted starts_before part.occurrences ordered in
    λ i. (given i, kept i)
