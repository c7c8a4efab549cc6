-- ===== src/Entities/Merged.antt =====
-- After a merge, an adoption or a split every variant still points straight at a root
-- (backend/app/entities/authority.py).
use newsintel.Entities.Flat.Kept.{untie-IsFlat}
use newsintel.Entities.Flat.Tied.{
  points_to, point_to, tie-IsFlat, follow-root, follow-free, follow-points_to, follow-IsFlat,
}
use newsintel.Entities.Merging.{
  get-Ensures, root_of-Ensures, refuse-Ensures, problem-none, hand_over-IsDropped,
}
use newsintel.Entities.Flat.{IsFlat, find_entity-id, is_root?, find_entity-update_where}
use newsintel.Prelude.{
  ℕ, refl, List, ◌≡◌, any, some, false, arith, true, ◌∷◌, none, Bool-cases, ◌==◌, inl, inr, [], ◌∙◌,
  update_where, ap, Option, subst, sym,
}
use newsintel.Prelude.Results.{Ensures, Ensures->>=, Ensures-if}
use newsintel.Entities.Store.{Entity, Store, find_entity, in_use, is_variant_of}
use newsintel.Entities.Changes.{
  get, root_of, refuse, problem, merge, adopt, split, start_run, tie, follow, hand_over, split_from,
}

own_row :
    (st : Store) (id : ℕ) (e : Entity)
    → find_entity st.entities id ≡ some e
    → find_entity st.entities e.id ≡ some e
own_row st id e h = ap (find_entity st.entities) (find_entity-id st.entities id e h) ∙ h

merged-IsFlat :
    (st : Store) (v root : Entity)
    → find_entity st.entities v.id ≡ some v
    → is_root? (find_entity st.entities root.id) ≡ true
    → problem st v root ≡ none
    → IsFlat st.entities
    → IsFlat (tie v root (follow v.id root.id (hand_over v root st))).entities
merged-IsFlat st v root h r p flat =
    let (free, ne) = problem-none st v root p in
    let d = hand_over-IsDropped st v root h free flat in
    let es = (hand_over v root st).entities in
    let is_root : is_root? (find_entity es root.id) ≡ true = d.roots root.id ∙ r in
    tie-IsFlat (update_where (is_variant_of v.id) (point_to root.id) es) v.id root.id ne
      (rw (find_entity-update_where (is_variant_of v.id) (point_to root.id) es root.id (λ e. refl))
        (follow-root v.id root.id (find_entity es root.id) ∙ is_root))
      (rw (find_entity-update_where (is_variant_of v.id) (point_to root.id) es v.id (λ e. refl))
        (follow-free v.id root.id (find_entity es v.id) d.free))
      (λ id. follow-points_to es v.id root.id id ne) (follow-IsFlat es v.id root.id is_root d.flat)

-- If every variant points straight at a root and leaves type and mark to it, this is so again after
-- a merge that is not refused: the variant and the variants that it had all point at the new root.
pub merge-IsFlat :
    (st : Store) (variant_id target_id : ℕ)
    → IsFlat st.entities
    → Ensures (λ done. IsFlat done.0.entities) (merge st variant_id target_id)
unfolding merge start_run
merge-IsFlat st variant_id target_id flat =
    Ensures->>= _ _ (get st variant_id) _ (get-Ensures st variant_id) λ v found.
      Ensures->>= _ _ (get st target_id) _ (get-Ensures st target_id) λ t aimed.
        Ensures->>= _ _ (root_of st t) _ (root_of-Ensures st target_id t flat aimed) λ root r.
          Ensures->>= _ _ (refuse (problem st v root) st) _ (refuse-Ensures (problem st v root) st)
            λ x p. merged-IsFlat st v root (own_row st variant_id v found) r p flat

untouched_use :
    (st : Store) (id : ℕ) → in_use st id ≡ false → any (is_variant_of id) st.entities ≡ false
unfolding in_use
untouched_use st id h = ground arith

none_points_to :
    (entities : List Entity) (v id : ℕ)
    → any (is_variant_of v) entities ≡ false
    → points_to v (find_entity entities id) ≡ false
none_points_to [] v id h = refl
none_points_to (e ∷ entities) v id h = elim (Bool-cases (e.id == id)) [
  | inl t ↦ rw t (ground arith)
  | inr n ↦ rw n (none_points_to entities v id (ground arith))
]

adopted-IsFlat :
    (st : Store) (v root : Entity)
    → find_entity st.entities v.id ≡ some v
    → is_root? (find_entity st.entities root.id) ≡ true
    → problem st v root ≡ none
    → in_use st v.id ≡ false
    → IsFlat st.entities
    → IsFlat (tie v root (hand_over v root st)).entities
adopted-IsFlat st v root h r p unused flat =
    let (free, ne) = problem-none st v root p in
    let d = hand_over-IsDropped st v root h free flat in
    tie-IsFlat (hand_over v root st).entities v.id root.id ne (d.roots root.id ∙ r) d.free
      (λ id. d.points v.id id ∙ none_points_to st.entities v.id id (untouched_use st v.id unused))
      d.flat

-- The same for a name that no article uses and no variant points at, which `adopt` ties to a root.
pub adopt-IsFlat :
    (st : Store) (variant_id root_id : ℕ)
    → IsFlat st.entities
    → is_root? (find_entity st.entities root_id) ≡ true
    → Ensures (λ st'. IsFlat st'.entities) (adopt st variant_id root_id)
unfolding adopt
adopt-IsFlat st variant_id root_id flat is_root =
    Ensures->>= _ _ (get st variant_id) _ (get-Ensures st variant_id) λ v found.
      Ensures->>= _ _ (get st root_id) _ (get-Ensures st root_id) λ root aimed.
        Ensures->>= _ _ (refuse (problem st v root) st) _ (refuse-Ensures (problem st v root) st)
          λ x p.
            Ensures-if _ (in_use st v.id) _ _ (λ used. tt)
              (λ unused.
                adopted-IsFlat st v root (own_row st variant_id v found)
                  (subst (λ id. is_root? (find_entity st.entities id) ≡ true)
                    (sym (find_entity-id st.entities root_id root aimed)) is_root)
                  p unused flat)

split_from-IsFlat :
    (st : Store) (v : Entity) (link : Option ℕ)
    → IsFlat st.entities
    → Ensures (λ done. IsFlat done.0.entities) (split_from link st v)
unfolding start_run
split_from-IsFlat st v none flat = tt
split_from-IsFlat st v (some root) flat = untie-IsFlat st.entities v.id flat

-- The same for a split, which makes a variant a root again.
pub split-IsFlat :
    (st : Store) (variant_id : ℕ)
    → IsFlat st.entities
    → Ensures (λ done. IsFlat done.0.entities) (split st variant_id)
unfolding split
split-IsFlat st variant_id flat =
    Ensures->>= _ _ (get st variant_id) _ (get-Ensures st variant_id)
      λ v found. split_from-IsFlat st v v.authority_id flat
