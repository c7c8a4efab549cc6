-- ===== src/Entities/Flat.antt =====
-- A variant points straight at a root, never at another variant, and carries none of the choices
-- that are a root's (backend/app/entities/authority.py, and the checks of entities/models.py).
pub mod Kept
pub mod Tied
use newsintel.Prelude.{
  ℕ, refl, List, Bool, ◌≡◌, Option, true, some, if◌then◌else◌, update_where, none, arith, ◌∷◌,
  false, ◌&&◌, Bool-cases, not, ◌==◌, is_some, inl, inr, [],
}
use newsintel.Entities.Store.{Entity, find_entity}

abbrev pub is_root? : Option Entity → Bool
is_root? none = false
is_root? (some e) = not (is_some e.authority_id)

-- A root, or a variant of a root that has no choices of its own; `root` tells which ids are roots'.
abbrev pub is_fine : (ℕ → Bool) → Option Entity → Bool
is_fine root none = true
is_fine root (some e) = elim (e.authority_id) [
  | none ↦ true
  | some a ↦ root a && (not (is_some e.preferred_type) && not e.hidden)
]

-- The entities as a map from ids.
abbrev pub IsFlatMap : (ℕ → Option Entity) → Type 0
IsFlatMap look = (id : ℕ) → is_fine (λ a. is_root? (look a)) (look id) ≡ true

-- For every id, the entity with that id is a root, or a variant of a root and without choices.
abbrev pub IsFlat : List Entity → Type 0
IsFlat entities = IsFlatMap (find_entity entities)

abbrev pub updated : (Entity → Bool) → (Entity → Entity) → Option Entity → Option Entity
updated p f none = none
updated p f (some e) = some (if p e then f e else e)

updated_id :
    (p : Entity → Bool) (f : Entity → Entity) (e : Entity)
    → (f e).id ≡ e.id
    → (if p e then f e else e).id ≡ e.id
updated_id p f e h = ground arith

-- Looking an id up after an update that leaves the ids alone.
pub find_entity-update_where :
    (p : Entity → Bool) (f : Entity → Entity) (entities : List Entity) (id : ℕ)
    → ((e : Entity) → (f e).id ≡ e.id)
    → find_entity (update_where p f entities) id ≡ updated p f (find_entity entities id)
find_entity-update_where p f [] id h = refl
find_entity-update_where p f (e ∷ entities) id h =
    let same = updated_id p f e (h e) in
    let rest = find_entity-update_where p f entities id h in
    elim (Bool-cases (e.id == id)) [ inl t ↦ rw (t, same, t) refl | inr n ↦ rw (n, same, n) rest ]

pub find_entity-id :
    (entities : List Entity) (id : ℕ) (e : Entity) → find_entity entities id ≡ some e → e.id ≡ id
find_entity-id [] id e h = cc
find_entity-id (x ∷ entities) id e h = elim (Bool-cases (x.id == id)) [
  | inl t ↦ let same : x ≡ e = ground arith in ground arith
  | inr n ↦ find_entity-id entities id e (ground arith)
]
