-- ===== src/Entities/Flat/Kept.antt =====
-- Which updates of the names keep them flat (backend/app/entities/authority.py).
use newsintel.Entities.Flat.{
  IsFlat, is_root?, is_fine, updated, find_entity-update_where, find_entity-id,
}
use newsintel.Prelude.{
  ℕ, refl, Bool, ◌≡◌, List, ◌==◌, Option, not, true, is_some, update_where, some, ◌&&◌,
  Option-cases, arith, inl, none, inr, false, Bool-cases, sym, ◌∙◌, ap, subst,
}
use newsintel.Entities.Store.{Entity, find_entity}

abbrev pub at_id : ℕ → Entity → Bool
at_id id e = e.id == id

pub is_fine_mono :
    (root root' : ℕ → Bool) (o : Option Entity)
    → ((a : ℕ) → root a ≡ true → root' a ≡ true)
    → is_fine root o ≡ true
    → is_fine root' o ≡ true
is_fine_mono root root' none more h = refl
is_fine_mono root root' (some e) more h = elim (Option-cases e.authority_id) [
  | inl n ↦ rw n refl
  | inr (a, s) ↦
      let good : root a && (not (is_some e.preferred_type) && not e.hidden) ≡ true = ground arith in
      let still = more a (ground arith) in rw s (ground arith)
]

-- What an update of one entity needs: it leaves the id and the link alone, and gives choices to
-- roots only.
pub record IsEdit (f : Entity → Entity) : Type 0 where
  pub ids : (e : Entity) → (f e).id ≡ e.id
  pub links : (e : Entity) → (f e).authority_id ≡ e.authority_id
  pub choices :
      (e : Entity)
      → not (is_some (f e).preferred_type) && not (f e).hidden
        ≡ not (is_some e.preferred_type) && not e.hidden

pub is_root?-updated :
    (p : Entity → Bool) (f : Entity → Entity) (o : Option Entity)
    → ((e : Entity) → (f e).authority_id ≡ e.authority_id)
    → is_root? (updated p f o) ≡ is_root? o
is_root?-updated p f none links = refl
is_root?-updated p f (some e) links = ground (arith, links e)

is_fine-updated :
    (p : Entity → Bool) (f : Entity → Entity) (root : ℕ → Bool) (o : Option Entity)
    → IsEdit f
    → is_fine root o ≡ true
    → is_fine root (updated p f o) ≡ true
is_fine-updated p f root none edit h = refl
is_fine-updated p f root (some e) edit h = ground (arith, edit.links e, edit.choices e)

pub edit-IsFlat :
    (entities : List Entity) (p : Entity → Bool) (f : Entity → Entity)
    → IsEdit f
    → IsFlat entities
    → IsFlat (update_where p f entities)
edit-IsFlat entities p f edit flat id =
    let look = find_entity-update_where p f entities in
    rw (look id edit.ids) (
      is_fine_mono (λ a. is_root? (find_entity entities a))
        (λ a. is_root? (find_entity (update_where p f entities) a))
        (updated p f (find_entity entities id))
        (λ a h. rw (look a edit.ids, is_root?-updated p f (find_entity entities a) edit.links) h)
        (is_fine-updated p f _ (find_entity entities id) edit (flat id)))

fine_root :
    (root : ℕ → Bool) (e : Entity) → is_some e.authority_id ≡ false → is_fine root (some e) ≡ true
fine_root root e h = elim (Option-cases e.authority_id) [
  | inl n ↦ rw n refl
  | inr (a, s) ↦ ground arith
]

root_or_same :
    (root : ℕ → Bool) (v : ℕ) (x : Entity) (f : Entity → Entity) (entities : List Entity) (id : ℕ)
    (o : Option Entity)
    → find_entity entities v ≡ some x
    → is_some x.authority_id ≡ false
    → ((e : Entity) → (f e).authority_id ≡ e.authority_id)
    → find_entity entities id ≡ o
    → is_fine root o ≡ true
    → is_fine root (updated (at_id v) f o) ≡ true
root_or_same root v x f entities id none e free links found h = refl
root_or_same root v x f entities id (some y) e free links found h = elim (Bool-cases (y.id == v)) [
  | inl t ↦
      let at : y.id ≡ id = find_entity-id entities id y found in
      let same : id ≡ v = ground (arith, t, at) in
      let is_x : some y ≡ some x = sym found ∙ ap (find_entity entities) same ∙ e in
      let none_y : is_some y.authority_id ≡ false =
        subst
          (λ o. elim o as (λ _. Type 0) [ none ↦ Unit | some z ↦ is_some z.authority_id ≡ false ])
          (sym is_x) free in
      rw t (fine_root root (f y) (ground (arith, links y)))
  | inr n ↦ rw n h
]

-- An update of an entity that is a root may set its choices.
pub root_edit-IsFlat :
    (entities : List Entity) (v : ℕ) (x : Entity) (f : Entity → Entity)
    → find_entity entities v ≡ some x
    → is_some x.authority_id ≡ false
    → ((e : Entity) → (f e).id ≡ e.id)
    → ((e : Entity) → (f e).authority_id ≡ e.authority_id)
    → IsFlat entities
    → IsFlat (update_where (at_id v) f entities)
root_edit-IsFlat entities v x f e root ids links flat id =
    let look = find_entity-update_where (at_id v) f entities in
    let still =
      is_fine_mono (λ a. is_root? (find_entity entities a))
        (λ a. is_root? (find_entity (update_where (at_id v) f entities) a))
        (find_entity entities id)
        (λ a h. rw (look a ids, is_root?-updated (at_id v) f (find_entity entities a) links) h)
        (flat id) in
    rw (look id ids)
      (root_or_same _ v x f entities id (find_entity entities id) e root links refl still)

untie-root :
    (v : ℕ) (o : Option Entity)
    → is_root? o ≡ true
    → is_root? (updated (at_id v) (λ e. record e { authority_id = none }) o) ≡ true
untie-root v none h = h
untie-root v (some e) h = ground arith

untie-fine :
    (root : ℕ → Bool) (v : ℕ) (o : Option Entity)
    → is_fine root o ≡ true
    → is_fine root (updated (at_id v) (λ e. record e { authority_id = none }) o) ≡ true
untie-fine root v none h = h
untie-fine root v (some e) h = elim (Bool-cases (e.id == v)) [ inl t ↦ rw t refl | inr n ↦ rw n h ]

-- A link that is taken back.
pub untie-IsFlat :
    (entities : List Entity) (v : ℕ)
    → IsFlat entities
    → IsFlat (update_where (at_id v) (λ e. record e { authority_id = none }) entities)
untie-IsFlat entities v flat id =
    let look =
      find_entity-update_where (at_id v) (λ e. record e { authority_id = none }) entities in
    rw (look id (λ e. refl)) (
      is_fine_mono (λ a. is_root? (find_entity entities a)) _ _
        (λ a h. rw (look a (λ e. refl)) (untie-root v (find_entity entities a) h))
        (untie-fine _ v (find_entity entities id) (flat id)))
