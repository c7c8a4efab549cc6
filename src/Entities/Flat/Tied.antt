-- ===== src/Entities/Flat/Tied.antt =====
-- Tying a root and its variants to another root keeps the names flat (`merge` and `adopt` of
-- backend/app/entities/authority.py).
use newsintel.Entities.Flat.Kept.{at_id, is_fine_mono}
use newsintel.Entities.Flat.{
  is_root?, updated, is_fine, IsFlat, find_entity-update_where, find_entity-id,
}
use newsintel.Prelude.{
  ℕ, refl, some, Option, Bool, List, false, true, ◌≡◌, ◌==◌, not, none, is_some, Option-cases,
  arith, update_where, ◌&&◌, inl, inr, ◌∙◌, Bool-cases, subst, sym,
}
use newsintel.Entities.Store.{Entity, is_variant_of, find_entity}

abbrev pub point_to : ℕ → Entity → Entity
point_to root e = record e { authority_id = some root }

abbrev pub points_to : ℕ → Option Entity → Bool
points_to v none = false
points_to v (some e) = is_variant_of v e

abbrev pub no_choices : Option Entity → Bool
no_choices none = true
no_choices (some e) = not (is_some e.preferred_type) && not e.hidden

pub follow-root :
    (v root : ℕ) (o : Option Entity)
    → is_root? (updated (is_variant_of v) (point_to root) o) ≡ is_root? o
follow-root v root none = refl
follow-root v root (some e) = elim (Option-cases e.authority_id) [
  | inl n ↦ rw n refl
  | inr (a, s) ↦ ground arith
]

pub follow-free :
    (v root : ℕ) (o : Option Entity)
    → no_choices o ≡ true
    → no_choices (updated (is_variant_of v) (point_to root) o) ≡ true
follow-free v root none h = h
follow-free v root (some e) h = ground arith

follow-fine :
    (roots : ℕ → Bool) (v root : ℕ) (o : Option Entity)
    → roots root ≡ true
    → is_fine roots o ≡ true
    → is_fine roots (updated (is_variant_of v) (point_to root) o) ≡ true
follow-fine roots v root none r h = refl
follow-fine roots v root (some e) r h = elim (Option-cases e.authority_id) [
  | inl n ↦ ground arith
  | inr (a, s) ↦ ground arith
]

pub follow-IsFlat :
    (entities : List Entity) (v root : ℕ)
    → is_root? (find_entity entities root) ≡ true
    → IsFlat entities
    → IsFlat (update_where (is_variant_of v) (point_to root) entities)
follow-IsFlat entities v root is_root flat id =
    let look = find_entity-update_where (is_variant_of v) (point_to root) entities in
    rw (look id (λ e. refl)) (
      is_fine_mono (λ a. is_root? (find_entity entities a)) _ _
        (λ a h. rw (look a (λ e. refl)) (follow-root v root (find_entity entities a) ∙ h))
        (follow-fine _ v root (find_entity entities id) is_root (flat id)))

followed :
    (v root : ℕ) (o : Option Entity)
    → (root == v) ≡ false
    → points_to v (updated (is_variant_of v) (point_to root) o) ≡ false
followed v root none ne = refl
followed v root (some e) ne = ground arith

pub follow-points_to :
    (entities : List Entity) (v root id : ℕ)
    → (root == v) ≡ false
    → points_to v (find_entity (update_where (is_variant_of v) (point_to root) entities) id) ≡ false
follow-points_to entities v root id ne =
    rw (find_entity-update_where (is_variant_of v) (point_to root) entities id (λ e. refl))
      (followed v root (find_entity entities id) ne)

untouched :
    (entities : List Entity) (v root a : ℕ)
    → (a == v) ≡ false
    → updated (at_id v) (point_to root) (find_entity entities a) ≡ find_entity entities a
untouched entities v root a ne = go (find_entity entities a) (find_entity-id entities a)
  where
    go :
        (o : Option Entity)
        → ((e : Entity) → o ≡ some e → e.id ≡ a)
        → updated (at_id v) (point_to root) o ≡ o
    go none h = refl
    go (some e) h = let at = h e refl in ground arith

tie-root :
    (entities : List Entity) (v root a : ℕ)
    → (a == v) ≡ false
    → is_root? (find_entity entities a) ≡ true
    → is_root? (find_entity (update_where (at_id v) (point_to root) entities) a) ≡ true
tie-root entities v root a ne h =
    rw
      (
        find_entity-update_where (at_id v) (point_to root) entities a (λ e. refl),
        untouched entities v root a ne,
      )
      h

tied :
    (roots : ℕ → Bool) (v root : ℕ) (o : Option Entity)
    → roots root ≡ true
    → no_choices o ≡ true
    → ((e : Entity) → o ≡ some e → e.id ≡ v)
    → is_fine roots (updated (at_id v) (point_to root) o) ≡ true
tied roots v root none r free ids = refl
tied roots v root (some e) r free ids = let at = ids e refl in ground arith

fine_away :
    (roots roots' : ℕ → Bool) (v : ℕ) (o : Option Entity)
    → points_to v o ≡ false
    → ((a : ℕ) → (a == v) ≡ false → roots a ≡ true → roots' a ≡ true)
    → is_fine roots o ≡ true
    → is_fine roots' o ≡ true
fine_away roots roots' v none away more h = refl
fine_away roots roots' v (some e) away more h = elim (Option-cases e.authority_id) [
  | inl n ↦ rw n refl
  | inr (a, s) ↦
      let good : roots a && (not (is_some e.preferred_type) && not e.hidden) ≡ true =
        ground arith in
      let still = more a (ground arith) (ground arith) in rw s (ground arith)
]

-- The entity becomes a variant; nothing pointed at it, and it had no choices.
pub tie-IsFlat :
    (entities : List Entity) (v root : ℕ)
    → (root == v) ≡ false
    → is_root? (find_entity entities root) ≡ true
    → no_choices (find_entity entities v) ≡ true
    → ((id : ℕ) → points_to v (find_entity entities id) ≡ false)
    → IsFlat entities
    → IsFlat (update_where (at_id v) (point_to root) entities)
tie-IsFlat entities v root ne is_root free alone flat id =
    let look = find_entity-update_where (at_id v) (point_to root) entities id (λ e. refl) in
    elim (Bool-cases (id == v)) [
      | inl t ↦
          let same : v ≡ id = ground arith in
          rw look (
            tied _ v root (find_entity entities id) (tie-root entities v root root ne is_root)
              (subst (λ i. no_choices (find_entity entities i) ≡ true) same free)
              (λ e s. find_entity-id entities id e s ∙ sym same))
      | inr n ↦
          rw (look, untouched entities v root id n)
            (fine_away (λ a. is_root? (find_entity entities a)) _ v (find_entity entities id)
              (alone id) (λ a. tie-root entities v root a) (flat id))
    ]
