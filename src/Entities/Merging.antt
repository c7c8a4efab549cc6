-- ===== src/Entities/Merging.antt =====
-- `merge`, `adopt` and `split` keep the names flat (backend/app/entities/authority.py).
use newsintel.Entities.Flat.Kept.{at_id, root_edit-IsFlat, is_root?-updated}
use newsintel.Entities.Flat.Tied.{no_choices, points_to}
use newsintel.Entities.Flat.{
  IsFlat, is_root?, find_entity-id, is_fine, find_entity-update_where, updated,
}
use newsintel.Prelude.{
  ℕ, refl, Option, List, ◌≡◌, some, none, Option-cases, is_some, true, false, Bool, inl, ◌==◌, inr,
  arith, subst, update_where, ap, ◌∙◌, sym,
}
use newsintel.Prelude.Results.{Verdict, granted, refused, Ensures, Ensures-map}
use newsintel.Entities.Store.{Entity, Store, AuthorityError, find_entity, qid, EntityType}
use newsintel.Entities.Changes.{
  get, root_of, refuse, problem, merge_problem, move_external_ids, root_from, drop_type,
  drop_root_choices, drop_hidden, hand_over, move_relations, move_claims,
}

pub get-Ensures :
    (st : Store) (id : ℕ) → Ensures (λ e. find_entity st.entities id ≡ some e) (get st id)
unfolding get
get-Ensures st id = go (find_entity st.entities id)
  where
    go :
        (o : Option Entity)
        → Ensures
            (λ e. o ≡ some e)
            (elim o as (λ x. Verdict AuthorityError Entity) [
              | none ↦ refused AuthorityError.not_found
              | some e ↦ granted e
            ])
    go none = tt
    go (some e) = refl

pub refuse-Ensures :
    (p : Option AuthorityError) (st : Store) → Ensures (λ x. p ≡ none) (refuse p st)
refuse-Ensures none st = refl
refuse-Ensures (some e) st = tt

pub found_root :
    (entities : List Entity) (id : ℕ) (e : Entity)
    → find_entity entities id ≡ some e
    → is_some e.authority_id ≡ false
    → is_root? (find_entity entities e.id) ≡ true
found_root entities id e h free =
    let at : e.id ≡ id = find_entity-id entities id e h in rw (at, h) (ground arith)

root_of_variant :
    (entities : List Entity) (id a : ℕ) (e : Entity)
    → IsFlat entities
    → find_entity entities id ≡ some e
    → e.authority_id ≡ some a
    → is_root? (find_entity entities a) ≡ true
root_of_variant entities id a e flat h link =
    let fine : is_fine (λ a. is_root? (find_entity entities a)) (some e) ≡ true =
      subst (λ o. is_fine (λ a. is_root? (find_entity entities a)) o ≡ true) h (flat id) in
    pointed (λ a. is_root? (find_entity entities a)) a e link fine
  where
    pointed :
        (roots : ℕ → Bool) (a : ℕ) (e : Entity)
        → e.authority_id ≡ some a
        → is_fine roots (some e) ≡ true
        → roots a ≡ true
    pointed roots a e link fine = ground arith

root_from-Ensures :
    (st : Store) (id : ℕ) (e : Entity) (link : Option ℕ)
    → IsFlat st.entities
    → find_entity st.entities id ≡ some e
    → e.authority_id ≡ link
    → Ensures (λ r. is_root? (find_entity st.entities r.id) ≡ true) (root_from link st e)
root_from-Ensures st id e none flat h link = found_root st.entities id e h (ap is_some link)
root_from-Ensures st id e (some a) flat h link =
    let root = root_of_variant st.entities id a e flat h link in
    Ensures-map (λ r. find_entity st.entities a ≡ some r)
      (λ r. is_root? (find_entity st.entities r.id) ≡ true) (get st a)
      (λ r found. let at = find_entity-id st.entities a r found in rw at root) (get-Ensures st a)

pub root_of-Ensures :
    (st : Store) (id : ℕ) (e : Entity)
    → IsFlat st.entities
    → find_entity st.entities id ≡ some e
    → Ensures (λ r. is_root? (find_entity st.entities r.id) ≡ true) (root_of st e)
unfolding root_of
root_of-Ensures st id e flat h = root_from-Ensures st id e e.authority_id flat h refl

pub problem-none :
    (st : Store) (variant root : Entity)
    → problem st variant root ≡ none
    → (is_some variant.authority_id ≡ false) × ((root.id == variant.id) ≡ false)
unfolding problem merge_problem
problem-none st variant root h = ground arith

-- What giving up its choices leaves of a root.
pub record IsDropped (v : Entity) (entities entities' : List Entity) : Type 0 where
  pub flat : IsFlat entities'
  pub points :
      (w a : ℕ) → points_to w (find_entity entities' a) ≡ points_to w (find_entity entities a)
  pub roots : (a : ℕ) → is_root? (find_entity entities' a) ≡ is_root? (find_entity entities a)
  pub free : no_choices (find_entity entities' v.id) ≡ true

move_external_ids-entities :
    (variant root : ℕ) (st : Store) → (move_external_ids variant root st).entities ≡ st.entities
move_external_ids-entities variant root st = elim (Option-cases (qid st variant)) [
  | inl n ↦ rw (move_external_ids, n) refl
  | inr (q, s) ↦ rw (move_external_ids, s) refl
]

-- The row of the root after an update of its choices.
points_to-updated :
    (w : ℕ) (p : Entity → Bool) (f : Entity → Entity) (o : Option Entity)
    → ((e : Entity) → (f e).authority_id ≡ e.authority_id)
    → points_to w (updated p f o) ≡ points_to w o
points_to-updated w p f none links = refl
points_to-updated w p f (some e) links = ground (arith, links e)

set_choices :
    (entities : List Entity) (id : ℕ) (x : Entity) (f : Entity → Entity)
    → find_entity entities id ≡ some x
    → is_some x.authority_id ≡ false
    → ((e : Entity) → (f e).id ≡ e.id)
    → ((e : Entity) → (f e).authority_id ≡ e.authority_id)
    → IsFlat entities
    → IsFlat (update_where (at_id id) f entities)
      × (find_entity (update_where (at_id id) f entities) id ≡ some (f x))
      × ((a : ℕ)
          → is_root? (find_entity (update_where (at_id id) f entities) a)
            ≡ is_root? (find_entity entities a))
      × ((w a : ℕ)
          → points_to w (find_entity (update_where (at_id id) f entities) a)
            ≡ points_to w (find_entity entities a))
set_choices entities id x f h free ids links flat =
    let at : x.id ≡ id = find_entity-id entities id x h in
    (
      root_edit-IsFlat entities id x f h free ids links flat,
      rw (find_entity-update_where (at_id id) f entities id ids, h) (ground arith),
      λ a.
          rw (find_entity-update_where (at_id id) f entities a ids)
            (is_root?-updated (at_id id) f (find_entity entities a) links),
      λ w a.
          rw (find_entity-update_where (at_id id) f entities a ids)
            (points_to-updated w (at_id id) f (find_entity entities a) links),
    )

-- After the type is given up, the root's row is `now`.
record IsUntyped (id : ℕ) (now : Entity) (entities entities' : List Entity) : Type 0 where
  flat : IsFlat entities'
  points : (w a : ℕ) → points_to w (find_entity entities' a) ≡ points_to w (find_entity entities a)
  roots : (a : ℕ) → is_root? (find_entity entities' a) ≡ is_root? (find_entity entities a)
  found : find_entity entities' id ≡ some now
  untied : is_some now.authority_id ≡ false
  untyped : is_some now.preferred_type ≡ false

drop_type-IsUntyped :
    (st : Store) (v x : Entity) (type : Option EntityType)
    → find_entity st.entities v.id ≡ some x
    → x.preferred_type ≡ type
    → is_some x.authority_id ≡ false
    → IsFlat st.entities
    → (now : Entity) × (now.hidden ≡ x.hidden)
      × IsUntyped v.id now st.entities (drop_type type v st).entities
drop_type-IsUntyped st v x none h t free flat = (
  x,
  refl,
  record {
    flat = flat;
    points = λ w a. refl;
    roots = λ a. refl;
    found = h;
    untied = free;
    untyped = ap is_some t;
  },
)
drop_type-IsUntyped st v x (some s) h t free flat =
    let (flat', found', roots', points') =
      set_choices st.entities v.id x (λ e. record e { preferred_type = none }) h free (λ e. refl)
        (λ e. refl) flat in
    (
      record x { preferred_type = none },
      refl,
      record {
        flat = flat';
        points = points';
        roots = roots';
        found = found';
        untied = free;
        untyped = refl;
      },
    )

drop_hidden-IsDropped :
    (st : Store) (v now : Entity) (entities : List Entity) (mark : Bool)
    → now.hidden ≡ mark
    → IsUntyped v.id now entities st.entities
    → IsDropped v entities (drop_hidden mark v st).entities
drop_hidden-IsDropped st v now entities false h u = record {
  flat = u.flat;
  points = u.points;
  roots = u.roots;
  free = rw u.found (ground (arith, u.untyped));
}
drop_hidden-IsDropped st v now entities true h u =
    let (flat', found', roots', points') =
      set_choices st.entities v.id now (λ e. record e { hidden = false }) u.found u.untied
        (λ e. refl) (λ e. refl) u.flat in
    record {
      flat = flat';
      points = λ w a. points' w a ∙ u.points w a;
      roots = λ a. roots' a ∙ u.roots a;
      free = rw found' (ground (arith, u.untyped));
    }

drop_root_choices-IsDropped :
    (st : Store) (v : Entity)
    → find_entity st.entities v.id ≡ some v
    → is_some v.authority_id ≡ false
    → IsFlat st.entities
    → IsDropped v st.entities (drop_root_choices v st).entities
unfolding drop_root_choices
drop_root_choices-IsDropped st v h free flat =
    let (now, mark, u) = drop_type-IsUntyped st v v v.preferred_type h refl free flat in
    drop_hidden-IsDropped (drop_type v.preferred_type v st) v now st.entities v.hidden mark u

pub hand_over-IsDropped :
    (st : Store) (v root : Entity)
    → find_entity st.entities v.id ≡ some v
    → is_some v.authority_id ≡ false
    → IsFlat st.entities
    → IsDropped v st.entities (hand_over v root st).entities
unfolding hand_over move_relations
hand_over-IsDropped st v root h free flat =
    let moved =
      move_claims v.id root.id (move_external_ids v.id root.id (move_relations v.id root.id st)) in
    let same : moved.entities ≡ st.entities =
      move_external_ids-entities v.id root.id (move_relations v.id root.id st) in
    let d = drop_root_choices-IsDropped moved v (rw same h) free (subst IsFlat (sym same) flat) in
    subst (λ es. IsDropped v es (drop_root_choices v moved).entities) same d
