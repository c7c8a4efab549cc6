-- ===== src/Entities/Store/Lookups.antt =====
-- The lookups of backend/app/entities/resolver.py, in_use.py and authority.py.
use newsintel.Entities.Store.Tables.{Entity, Store, Distinct, Relation, ExternalId}
use newsintel.Prelude.Chain.{◌>>=◌}
use newsintel.Prelude.{
  ℕ, Bool, Option, List, if◌then◌else◌, ◌==◌, find, map, leb, eq_opt, any, ltb, keep, some, false,
  member, ◌∷◌, ◌||◌, ◌&&◌, none, ◌++◌, [],
}
use newsintel.Prelude.Sets.{nat_eq, dedupe}
use newsintel.Prelude.Sort.{sort_by}

abbrev pub find_entity : List Entity → ℕ → Option Entity
find_entity entities id = find (λ e. e.id == id) entities

-- The root that an entity stands for.
abbrev pub root_id_of : Entity → ℕ
root_id_of e = elim (e.authority_id) [ none ↦ e.id | some root ↦ root ]

unfoldable pub resolve_root : List Entity → ℕ → Option ℕ
resolve_root entities id = elim (find_entity entities id) [
  | none ↦ none
  | some e ↦ some (root_id_of e)
]

-- The ids of every name of the roots that these ids stand for.
unfoldable pub names_of : List Entity → List ℕ → List ℕ
names_of entities ids =
    let roots = map root_id_of (keep (λ e. member e.id ids) entities) in
    map (λ e. e.id)
      (keep
        (λ e. member e.id roots || elim (e.authority_id) [ none ↦ false | some r ↦ member r roots ])
        entities)

-- `sorted({*requested, *found})`
unfoldable pub expand_for_search : List Entity → List ℕ → List ℕ
unfolding names_of
expand_for_search entities ids = sort_by leb (dedupe (ids ++ names_of entities ids))

unfoldable pub entity_group : List Entity → ℕ → Option (ℕ × List ℕ)
unfolding resolve_root expand_for_search
entity_group entities id =
    resolve_root entities id >>= λ root. some (root, expand_for_search entities (root ∷ []))

abbrev pub is_variant_of : ℕ → Entity → Bool
is_variant_of root e = eq_opt e.authority_id (some root)

unfoldable pub in_use : Store → ℕ → Bool
in_use st id =
    any (λ r. r.entity_id == id || eq_opt r.observed_entity_id (some id)) st.rows
    || any (is_variant_of id) st.entities

abbrev pub variant_before : Entity → Entity → Bool
variant_before a b =
    ltb a.normalized_text b.normalized_text
    || (a.normalized_text == b.normalized_text && leb a.id b.id)

unfoldable pub variants : List Entity → ℕ → List Entity
variants entities root = sort_by variant_before (keep (is_variant_of root) entities)

-- `_pair`
abbrev pub pair : ℕ → ℕ → ℕ × ℕ
pair a b = if ltb a b then (a, b) else (b, a)

abbrev pub is_pair : ℕ × ℕ → Distinct → Bool
is_pair p d = d.a_id == p.0 && d.b_id == p.1

abbrev pub is_distinct : Store → ℕ → ℕ → Bool
is_distinct st a b = any (is_pair (pair a b)) st.distinct

abbrev pub links : ℕ → ℕ → Relation → Bool
links a b r = (r.subject_id == a && r.object_id == b) || (r.subject_id == b && r.object_id == a)

abbrev pub is_linked : Store → ℕ → ℕ → Bool
is_linked st a b = any (links a b) st.relations

abbrev pub first_value : Option ExternalId → Option ℕ
first_value none = none
first_value (some x) = some x.value

abbrev pub qid : Store → ℕ → Option ℕ
qid st id = first_value (find (λ x. x.entity_id == id && x.is_wikidata) st.external_ids)
