-- ===== src/Entities/Normal.antt =====
-- The mentions of a row once more under their names, as a split reads them
-- (backend/app/entities/authority.py and nlp/authority.py).
use newsintel.Entities.GivenBack.{starts_total, starts_trans, IsUntagged}
use newsintel.Entities.Store.{ArticleEntity}
use newsintel.Prelude.Sort.Kept.{map-sort_by, sort_by-sorted}
use mathlib.Core.List.{append-nil, map-append}
use newsintel.Prelude.{
  refl, ◌∙◌, List, ◌++◌, ℕ, Bool, eq_opt, ◌||◌, is_some, if◌then◌else◌, keep, sym,
}
use newsintel.Entities.Runs.{has_tags, normal_items, apply_to, split_normal, only_part, split_items}
use newsintel.Prelude.Sort.{sort_by, sort_by-IsSorted, any-sort_by, IsSorted}
use newsintel.Entities.Mentions.{
  retag, all_items, foreign, Occurrence, part_items, RowPart, or_else, starts_before, is_tagged,
  combine_rows, name_of_row, all_names, split_occurrences,
}
use newsintel.Prelude.{
  ℕ, Option, List, map, any, none, ◌≡◌, ◌++◌, some, ◌∷◌, [], true, Bool-cases, ap, ◌==◌, inl, inr,
}

foreign_twice :
    (own : ℕ) (t : Option ℕ) → foreign own (or_else (foreign own t) none) ≡ foreign own t
foreign_twice own none = refl
foreign_twice own (some id) = elim (Bool-cases (id == own)) [
  | inl t ↦ rw t refl
  | inr n ↦ rw (n, n) refl
]

retag_twice :
    (own : ℕ) (o : Option ℕ) (items : List Occurrence)
    → map (retag own none) (map (retag own o) items) ≡ map (retag own o) items
unfolding retag
retag_twice own o [] = refl
retag_twice own o (item ∷ items) =
    let head = ap (λ t. record item { tag = t }) (foreign_twice own (or_else item.tag o)) in
    λ i. head i ∷ retag_twice own o items i

pub retag-all_items :
    (own : ℕ) (parts : List RowPart)
    → map (retag own none) (all_items own parts) ≡ all_items own parts
unfolding all_items part_items
retag-all_items own [] = refl
retag-all_items own (part ∷ parts) =
    map-append (retag own none) (map (retag own part.observed_entity_id) part.occurrences)
      (all_items own parts)
    ∙ (λ i.
        retag_twice own part.observed_entity_id part.occurrences i ++ retag-all_items own parts i)

-- Sorting the mentions of the combined row again under the same entity changes nothing.
pub combined_twice :
    (own : ℕ) (parts : List RowPart)
    → sort_by starts_before
        (map (retag own none) (sort_by starts_before (all_items own parts)) ++ [])
      ≡ sort_by starts_before (all_items own parts)
unfolding retag
combined_twice own parts =
    ap (sort_by starts_before)
      (append-nil (map (retag own none) (sort_by starts_before (all_items own parts))))
    ∙ ap (sort_by starts_before)
        (map-sort_by starts_before (retag own none) (λ a b. refl) (all_items own parts))
    ∙ ap (λ xs. sort_by starts_before (sort_by starts_before xs)) (retag-all_items own parts)
    ∙ sort_by-sorted starts_before (sort_by starts_before (all_items own parts))
        (sort_by-IsSorted starts_before starts_total starts_trans (all_items own parts))

tag_known :
    (variant : ℕ) (t : Option ℕ) (a b : Bool)
    → (eq_opt t (some variant) || a) ≡ true
    → (a ≡ true → b ≡ true)
    → (is_some t || b) ≡ true
tag_known variant none a b h k = k h
tag_known variant (some id) a b h k = refl

has_tags-tagged :
    (variant : ℕ) (items : List Occurrence)
    → any (is_tagged variant) items ≡ true
    → has_tags items ≡ true
has_tags-tagged variant [] h = cc
has_tags-tagged variant (item ∷ items) h =
    tag_known variant item.tag (any (is_tagged variant) items) (has_tags items) h
      (has_tags-tagged variant items)

-- The mentions of a merged row with a tag, each under its name, are those that the row holds.
pub normal_items-merged :
    (own variant : ℕ) (row : ArticleEntity) (parts : List RowPart)
    → any (is_tagged variant) (all_items own parts) ≡ true
    → normal_items own (apply_to row own (combine_rows own parts))
      ≡ (combine_rows own parts).occurrences
unfolding normal_items combine_rows all_items part_items
normal_items-merged own variant row parts h =
    let items = sort_by starts_before (all_items own parts) in
    let tagged : has_tags items ≡ true =
      has_tags-tagged variant items
        (any-sort_by starts_before (is_tagged variant) (all_items own parts) ∙ h) in
    ap
      (λ (b : Bool).
        sort_by starts_before
          (map (retag own (if b then none else name_of_row (all_names own parts []))) items ++ []))
      tagged
    ∙ combined_twice own parts

retag_plain :
    (own : ℕ) (items : List Occurrence) → IsUntagged items → map (retag own none) items ≡ items
unfolding retag
retag_plain own [] h = refl
retag_plain own (item ∷ items) h =
    let tag : foreign own (or_else item.tag none) ≡ item.tag =
      ap (λ t. foreign own (or_else t none)) h.0 ∙ sym h.0 in
    λ i. record item { tag = tag i } ∷ retag_plain own items h.1 i

-- A row of mentions that are the entity's own, in order, keeps them.
pub combined_plain :
    (own : ℕ) (row : ArticleEntity) (items : List Occurrence)
    → IsUntagged items
    → IsSorted starts_before items
    → (combine_rows own (only_part row items ∷ [])).occurrences ≡ items
unfolding combine_rows all_items part_items
combined_plain own row items plain ordered =
    ap (sort_by starts_before) (append-nil (map (retag own none) items))
    ∙ ap (sort_by starts_before) (retag_plain own items plain)
    ∙ sort_by-sorted starts_before items ordered

pub split_normal-kept :
    (variant own new_id : ℕ) (row : ArticleEntity) (items taken : List Occurrence) (k : Occurrence)
    (ks : List Occurrence)
    → split_occurrences items variant ≡ (taken, k ∷ ks)
    → split_normal variant own new_id row items ≡ split_items variant own new_id row taken (k ∷ ks)
unfolding split_occurrences
split_normal-kept variant own new_id row [] taken k ks h =
    let absurd : ◌≡◌ {A = List Occurrence} [] (k ∷ ks) =
      ap (λ (p : List Occurrence × List Occurrence). p.1) h in
    cc
split_normal-kept variant own new_id row (item ∷ items) taken k ks h =
    ap (λ (p : List Occurrence × List Occurrence). split_items variant own new_id row p.0 p.1) h

pub any-keep {ℓ} :
    {A : Type ℓ} (p : A → Bool) (xs : List A) (y : A) (ys : List A)
    → keep p xs ≡ y ∷ ys
    → any p xs ≡ true
any-keep p [] y ys h = cc
any-keep p (x ∷ xs) y ys h = elim (Bool-cases (p x)) [
  | inl t ↦ rw t refl
  | inr n ↦ let rest : keep p xs ≡ y ∷ ys = rw n at h in rw n (any-keep p xs y ys rest)
]
