-- ===== src/Entities/Changes.antt =====
-- The changes that a user makes to the authority file (backend/app/entities/authority.py). Each
-- function returns the new tables, with the run that was started, or the refusal: a request that is
-- refused is rolled back as a whole.
use newsintel.Prelude.{
  ℕ, Option, Bool, update_where, if◌then◌else◌, List, keep, false, ◌==◌, some, not, any, ◌∷◌, none,
  ◌++◌, is_some, [], ◌&&◌, ◌||◌, true, ltb, eq_opt, ◌+◌,
}
use newsintel.Prelude.Results.{Verdict, granted, refused, ◌>>=◌}
use newsintel.Entities.Store.{
  Entity, Store, Run, Relation, AuthorityError, find_entity, Action, qid, RunKind, in_use,
  is_distinct, Noted, is_variant_of, is_linked, related, EntityType,
}

abbrev pub differ? : Option ℕ → Option ℕ → Bool
differ? none b = false
differ? (some a) none = false
differ? (some a) (some b) = not (a == b)

-- Why `variant` may not join `root`, or `none`.
unfoldable pub merge_problem :
    Entity → Entity → Bool → Bool → Option ℕ → Option ℕ → Option AuthorityError
merge_problem variant root distinct linked variant_qid root_qid =
    if variant.id == root.id
    then some AuthorityError.into_itself
    else if is_some variant.authority_id
    then some (
        if is_variant_of root.id variant
        then AuthorityError.already_variant
        else AuthorityError.variant_of_another)
    else if distinct
    then some AuthorityError.marked_different
    else if linked
    then some AuthorityError.linked
    else if differ? variant_qid root_qid
    then some AuthorityError.wikidata_differs
    else none

-- `_problem`
unfoldable pub problem : Store → Entity → Entity → Option AuthorityError
unfolding merge_problem
problem st variant root =
    merge_problem variant root (is_distinct st variant.id root.id) (is_linked st variant.id root.id)
      (qid st variant.id) (qid st root.id)

-- `_get` and `_locked`
unfoldable pub get : Store → ℕ → Verdict AuthorityError Entity
get st id = elim (find_entity st.entities id) [
  | none ↦ refused AuthorityError.not_found
  | some e ↦ granted e
]

abbrev pub root_from : Option ℕ → Store → Entity → Verdict AuthorityError Entity
root_from none st e = granted e
root_from (some id) st e = get st id

-- `_root_of`
unfoldable pub root_of : Store → Entity → Verdict AuthorityError Entity
unfolding get
root_of st e = root_from e.authority_id st e

abbrev pub refuse : Option AuthorityError → Store → Verdict AuthorityError Store
refuse none st = granted st
refuse (some e) st = refused e

abbrev pub record_change : Action → ℕ → Option ℕ → Noted → Noted → Store → Store
record_change action entity_id other_id before after st = record st {
  changes =
      st.changes
      ++ record {
        action = action;
        entity_id = entity_id;
        other_id = other_id;
        before = before;
        after = after;
      }
        ∷ [];
}

abbrev pub set_entity : ℕ → (Entity → Entity) → Store → Store
set_entity id f st = record st { entities = update_where (λ e. e.id == id) f st.entities }

-- The root's Wikidata link and identifiers go to its new root.
abbrev pub move_external_ids : ℕ → ℕ → Store → Store
move_external_ids variant root st = elim (qid st variant) [
  | none ↦ st
  | some q ↦
      record_change Action.wikidata_linked root (some variant) Noted.nothing (Noted.link q variant)
        (record st {
          external_ids =
              update_where (λ x. x.entity_id == variant) (λ x. record x { entity_id = root })
                st.external_ids;
        })
]

abbrev pub move_claims : ℕ → ℕ → Store → Store
move_claims variant root st = record st {
  claims = update_where (λ c. c.root_id == variant) (λ c. record c { root_id = root }) st.claims;
}

abbrev pub replace_id : ℕ → ℕ → ℕ → ℕ
replace_id variant root id = if id == variant then root else id

-- The link between the root and the other end, a symmetric one with the smaller id first.
abbrev pub moved_relation : ℕ → ℕ → Relation → Relation
moved_relation variant root r =
    let subject = replace_id variant root r.subject_id in
    let object = replace_id variant root r.object_id in
    if r.relation_type == related && ltb object subject
    then record r { subject_id = object; object_id = subject }
    else record r { subject_id = subject; object_id = object }

abbrev pub same_relation : Relation → Relation → Bool
same_relation r other =
    not (other.id == r.id)
    && (other.subject_id == r.subject_id
        && (other.relation_type == r.relation_type
            && (other.object_id == r.object_id && eq_opt other.valid_from r.valid_from)))

abbrev pub move_relation : ℕ → ℕ → Relation → List Relation → List Relation
move_relation variant root r relations =
    let moved = moved_relation variant root r in
    if any (same_relation moved) relations
    then keep (λ other. not (other.id == r.id)) relations
    else update_where (λ other. other.id == r.id) (λ other. moved) relations

abbrev pub move_each : ℕ → ℕ → List Relation → List Relation → List Relation
move_each variant root [] relations = relations
move_each variant root (r ∷ moving) relations =
    move_each variant root moving (move_relation variant root r relations)

-- The variant's see-also links become the root's; one the root already has is dropped.
unfoldable pub move_relations : ℕ → ℕ → Store → Store
move_relations variant root st = record st {
  relations =
      move_each variant root
        (keep (λ r. r.subject_id == variant || r.object_id == variant) st.relations) st.relations;
}

abbrev pub drop_type : Option EntityType → Entity → Store → Store
drop_type none e st = st
drop_type (some t) e st =
    set_entity e.id (λ x. record x { preferred_type = none })
      (record_change Action.type_changed e.id none (Noted.kind t) (Noted.kind e.entity_type) st)

abbrev pub drop_hidden : Bool → Entity → Store → Store
drop_hidden false e st = st
drop_hidden true e st =
    set_entity e.id (λ x. record x { hidden = false })
      (record_change Action.hidden_changed e.id none (Noted.flag true) (Noted.flag false) st)

-- A root about to become a variant gives up its own type and its mark.
unfoldable pub drop_root_choices : Entity → Store → Store
drop_root_choices e st = drop_hidden e.hidden e (drop_type e.preferred_type e st)

abbrev pub new_run : RunKind → ℕ → ℕ → Bool → ℕ → Run
new_run kind entity_id root events id = record {
  id = id;
  kind = kind;
  entity_id = entity_id;
  root = root;
  phase = none;
  after = none;
  events = events;
  running = true;
}

-- `_start_run`
unfoldable pub start_run : RunKind → ℕ → ℕ → Bool → Store → Store × Run
start_run kind entity_id root events st =
    let run = new_run kind entity_id root events st.next_id in
    (record st { runs = st.runs ++ run ∷ []; next_id = st.next_id + 1 }, run)

-- What `merge` and `adopt` move, before the variant is tied to the root.
unfoldable pub hand_over : Entity → Entity → Store → Store
unfolding move_relations drop_root_choices
hand_over variant root st = drop_root_choices variant (
    move_claims variant.id root.id
      (move_external_ids variant.id root.id (move_relations variant.id root.id st)))

abbrev pub tie : Entity → Entity → Store → Store
tie variant root st =
    record_change Action.merged variant.id (some root.id) (Noted.authority none)
      (Noted.authority (some root.id))
      (set_entity variant.id (λ e. record e { authority_id = some root.id }) st)

-- The variant's own variants follow it to the new root.
abbrev pub follow : ℕ → ℕ → Store → Store
follow variant root st = record st {
  entities =
      update_where (is_variant_of variant) (λ e. record e { authority_id = some root }) st.entities;
}

unfoldable pub merge : Store → ℕ → ℕ → Verdict AuthorityError (Store × Run)
unfolding get root_of problem hand_over start_run
merge st variant_id target_id = get st variant_id >>= λ variant. get st target_id >>= λ target.
    root_of st target >>= λ root. refuse (problem st variant root) st >>= λ _. granted (
      start_run RunKind.merge variant.id root.id false
        (tie variant root (follow variant.id root.id (hand_over variant root st))))

unfoldable pub adopt : Store → ℕ → ℕ → Verdict AuthorityError Store
unfolding get problem in_use hand_over
adopt st variant_id root_id = get st variant_id >>= λ variant. get st root_id >>= λ root.
    refuse (problem st variant root) st >>= λ _.
    if in_use st variant.id
    then refused AuthorityError.in_use_already
    else granted (tie variant root (hand_over variant root st))

abbrev pub untie : Entity → ℕ → Store → Store
untie variant root st =
    record_change Action.split variant.id (some root) (Noted.authority (some root))
      (Noted.authority none) (set_entity variant.id (λ e. record e { authority_id = none }) st)

abbrev pub split_from : Option ℕ → Store → Entity → Verdict AuthorityError (Store × Run)
split_from none st variant = refused AuthorityError.not_a_variant
split_from (some root) st variant =
    granted (start_run RunKind.split variant.id root false (untie variant root st))

unfoldable pub split : Store → ℕ → Verdict AuthorityError (Store × Run)
unfolding get start_run
split st variant_id = get st variant_id >>= λ variant. split_from variant.authority_id st variant

-- `_root_only`
unfoldable pub root_only : Store → ℕ → Verdict AuthorityError Entity
unfolding get
root_only st id = get st id >>= λ e.
    if is_some e.authority_id then refused AuthorityError.change_its_root else granted e
