-- ===== src/Entities/Edits/Own.antt =====
-- The changes of one name: its spelling, type and marks, and the pairs that are different
-- (backend/app/entities/authority.py).
use newsintel.Prelude.Sets.{beq_list}
use newsintel.Prelude.{
  ℕ, Bool, Option, if◌then◌else◌, some, ◌∷◌, false, none, not, any, ◌==◌, ◌&&◌, [], true, keep,
}
use newsintel.Prelude.Results.{Verdict, granted, refused, ◌>>=◌}
use newsintel.Clustering.Features.{Word}
use newsintel.Entities.Store.{
  Entity, Store, Run, AuthorityError, EntityStatus, pair, EntityType, same_status, Action, Noted,
  same_type, same_type?, RunKind, is_pair, kind_of,
}
use newsintel.Entities.Changes.{get, root_only, root_of, record_change, set_entity, start_run}

-- `text.split()` joined by spaces: the argument is what counts as white space.
abbrev pub squeeze_from : (ℕ → Bool) → Bool → Bool → Word → Word
squeeze_from space started pending [] = []
squeeze_from space started pending (c ∷ text) =
    let skip = squeeze_from space started true text in
    let take_on = squeeze_from space true false text in
    if space c then skip else if started && pending then b' ' ∷ c ∷ take_on else c ∷ take_on

abbrev pub squeeze : (ℕ → Bool) → Word → Word
squeeze space text = squeeze_from space false false text

abbrev pub chosen_text : (ℕ → Bool) → Option Word → Option Word
chosen_text space none = none
chosen_text space (some []) = none
chosen_text space (some (c ∷ text)) = some (squeeze space (c ∷ text))

abbrev pub same_text : Option Word → Option Word → Bool
same_text none none = true
same_text (some a) (some b) = beq_list a b
same_text _ _ = false

unfoldable pub rename :
    (ℕ → Bool) → Store → ℕ → Option Word → Bool → Verdict AuthorityError (Store × Option Run)
unfolding root_only start_run
rename space st id preferred_text reindex = root_only st id >>= λ e.
    let value = chosen_text space preferred_text in
    if same_text value e.preferred_text
    then granted (st, none)
    else let st' =
        set_entity e.id (λ x. record x { preferred_text = value })
          (record_change Action.renamed e.id none (Noted.text e.preferred_text) (Noted.text value)
            st) in
      if reindex
      then (let (st'', run) = start_run RunKind.reindex e.id e.id false st' in
          granted (st'', some run))
      else granted (st', none)

-- The model's own type is no choice.
abbrev pub chosen_type : Entity → Option EntityType → Option EntityType
chosen_type e none = none
chosen_type e (some t) = if same_type t e.entity_type then none else some t

abbrev pub type_or : Option EntityType → EntityType → EntityType
type_or none t = t
type_or (some u) t = u

-- Every value of the model's `EntityType` is one of `ENTITY_TYPES`, so the first test is not here.
unfoldable pub set_type :
    Store → ℕ → Option EntityType → Verdict AuthorityError (Store × Option Run)
unfolding root_only start_run
set_type st id entity_type = root_only st id >>= λ e.
    let value = chosen_type e entity_type in
    if same_type? value e.preferred_type
    then granted (st, none)
    else let (st', run) = start_run RunKind.reindex e.id e.id true (
        set_entity e.id (λ x. record x { preferred_type = value })
          (record_change Action.type_changed e.id none (Noted.kind (kind_of e))
            (Noted.kind (type_or value e.entity_type)) st)) in
      granted (st', some run)

abbrev pub same_flag : Bool → Bool → Bool
same_flag true b = b
same_flag false b = not b

unfoldable pub set_hidden : Store → ℕ → Bool → Verdict AuthorityError (Store × Option Run)
unfolding root_only start_run
set_hidden st id hidden = root_only st id >>= λ e.
    if same_flag hidden e.hidden
    then granted (st, none)
    else let (st', run) = start_run RunKind.reindex e.id e.id true (
        set_entity e.id (λ x. record x { hidden = hidden })
          (record_change Action.hidden_changed e.id none (Noted.flag e.hidden) (Noted.flag hidden)
            st)) in
      granted (st', some run)

unfoldable pub set_status : Store → ℕ → EntityStatus → Verdict AuthorityError Store
unfolding root_only
set_status st id status = root_only st id >>= λ e.
    if same_status status e.status
    then granted st
    else granted (
        set_entity e.id (λ x. record x { status = status })
          (record_change Action.status_changed e.id none (Noted.state e.status) (Noted.state status)
            st))

unfoldable pub set_ambiguous : Store → ℕ → Bool → Verdict AuthorityError Store
unfolding get
set_ambiguous st id ambiguous = get st id >>= λ e.
    if same_flag ambiguous e.ambiguous
    then granted st
    else granted (
        set_entity e.id (λ x. record x { ambiguous = ambiguous })
          (record_change Action.ambiguous_changed e.id none (Noted.flag e.ambiguous)
            (Noted.flag ambiguous) st))

abbrev pub skip_spaces : (ℕ → Bool) → Word → Word
skip_spaces space [] = []
skip_spaces space (c ∷ text) =
    let rest = skip_spaces space text in if space c then rest else c ∷ text

-- Without the white space at the end.
abbrev pub trim_end : (ℕ → Bool) → Word → Word
trim_end space [] = []
trim_end space (c ∷ text) = elim (trim_end space text) [
  | [] ↦ if space c then [] else c ∷ []
  | d ∷ ds ↦ c ∷ d ∷ ds
]

abbrev pub note_or_none : Word → Option Word
note_or_none [] = none
note_or_none (c ∷ text) = some (c ∷ text)

-- `note.strip() if note and note.strip() else None`
abbrev pub stripped : (ℕ → Bool) → Option Word → Option Word
stripped space none = none
stripped space (some note) = note_or_none (trim_end space (skip_spaces space note))

unfoldable pub set_note : (ℕ → Bool) → Store → ℕ → Option Word → Verdict AuthorityError Store
unfolding get
set_note space st id note =
    get st id >>= λ e. granted (set_entity e.id (λ x. record x { note = stripped space note }) st)

abbrev pub add_pair : ℕ × ℕ → Store → Store
add_pair p st =
    if any (is_pair p) st.distinct
    then st
    else record_change Action.distinct_added p.0 (some p.1) Noted.nothing Noted.nothing
        (record st { distinct = record { a_id = p.0; b_id = p.1 } ∷ st.distinct })

unfoldable pub add_distinct : Store → ℕ → ℕ → Verdict AuthorityError Store
unfolding get root_of
add_distinct st a_id b_id =
    if a_id == b_id
    then refused AuthorityError.different_from_itself
    else get st a_id >>= λ x. root_of st x >>= λ a. get st b_id >>= λ y. root_of st y >>= λ b.
        if a.id == b.id
        then refused AuthorityError.already_one
        else granted (add_pair (pair a.id b.id) st)

abbrev pub drop_pair : ℕ × ℕ → Store → Store
drop_pair p st =
    if any (is_pair p) st.distinct
    then record_change Action.distinct_removed p.0 (some p.1) Noted.nothing Noted.nothing
        (record st { distinct = keep (λ d. not (is_pair p d)) st.distinct })
    else st

unfoldable pub remove_distinct : Store → ℕ → ℕ → Verdict AuthorityError Store
unfolding get root_of
remove_distinct st a_id b_id = get st a_id >>= λ x. root_of st x >>= λ a.
    get st b_id >>= λ y. root_of st y >>= λ b. granted (drop_pair (pair a.id b.id) st)
