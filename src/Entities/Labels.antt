-- ===== src/Entities/Labels.antt =====
-- The label of a combined row is not empty (backend/app/nlp/authority.py).
use newsintel.Prelude.Sets.{beq_list}
use newsintel.Entities.Mentions.{
  combine_rows, add_label, RowPart, label_of_row, count_label, all_labels, top_label, part_count,
  label_before,
}
use newsintel.Clustering.Features.{Word}
use newsintel.Prelude.{
  ℕ, refl, ◌≡◌, Option, List, Bool, All, true, false, some, ◌∷◌, [], none, Bool-cases, inl, inr,
}

abbrev pub is_text : Word → Bool
is_text [] = false
is_text (c ∷ text) = true

-- A label that is missing or not empty.
abbrev pub is_written : Option Word → Bool
is_written none = true
is_written (some label) = is_text label

abbrev IsWritten : List (Word × ℕ) → Type 0
IsWritten labels = All (λ (l : Word × ℕ). is_text l.0 ≡ true) labels

count_label-IsWritten :
    (key : Word) (count : ℕ) (labels : List (Word × ℕ))
    → is_text key ≡ true
    → IsWritten labels
    → IsWritten (count_label key count labels)
count_label-IsWritten key count [] h k = (h, tt)
count_label-IsWritten key count ((l, n) ∷ labels) h k = elim (Bool-cases (beq_list l key)) [
  | inl t ↦ rw t k
  | inr e ↦ rw e (k.0, count_label-IsWritten key count labels h k.1)
]

add_label-IsWritten :
    (label : Option Word) (count : ℕ) (labels : List (Word × ℕ))
    → IsWritten labels
    → IsWritten (add_label label count labels)
add_label-IsWritten none count labels k = k
add_label-IsWritten (some []) count labels k = k
add_label-IsWritten (some (c ∷ label)) count labels k =
    count_label-IsWritten (c ∷ label) count labels refl k

all_labels-IsWritten :
    (parts : List RowPart) (labels : List (Word × ℕ))
    → IsWritten labels
    → IsWritten (all_labels parts labels)
all_labels-IsWritten [] labels k = k
all_labels-IsWritten (part ∷ parts) labels k =
    all_labels-IsWritten parts (add_label part.original_label (part_count part) labels)
      (add_label-IsWritten part.original_label (part_count part) labels k)

top_label-is_text :
    (best : Word × ℕ) (labels : List (Word × ℕ))
    → is_text best.0 ≡ true
    → IsWritten labels
    → is_text (top_label best labels) ≡ true
top_label-is_text best [] h k = h
top_label-is_text best (l ∷ labels) h k = elim (Bool-cases (label_before l best)) [
  | inl t ↦ rw t (top_label-is_text l labels k.0 k.1)
  | inr n ↦ rw n (top_label-is_text best labels h k.1)
]

label_of_row-is_written :
    (labels : List (Word × ℕ)) → IsWritten labels → is_written (label_of_row labels) ≡ true
label_of_row-is_written [] k = refl
label_of_row-is_written (l ∷ labels) k = top_label-is_text l labels k.0 k.1

pub combined-is_written :
    (own : ℕ) (parts : List RowPart) → is_written (combine_rows own parts).original_label ≡ true
unfolding combine_rows
combined-is_written own parts =
    label_of_row-is_written (all_labels parts []) (all_labels-IsWritten parts [] tt)

-- The label of a row made of one part is the part's.
pub label_of_row-add_label :
    (label : Option Word) (count : ℕ)
    → is_written label ≡ true
    → label_of_row (add_label label count []) ≡ label
label_of_row-add_label none count h = refl
label_of_row-add_label (some []) count h = cc
label_of_row-add_label (some (c ∷ label)) count h = refl
