-- ===== src/Entities/Histories.antt =====
-- The authority file over any sequence of changes (backend/app/entities/authority.py).
use newsintel.Entities.Merged.{merge-IsFlat}
use newsintel.Entities.Flat.Kept.{edit-IsFlat, at_id, root_edit-IsFlat}
use newsintel.Entities.Merging.{get-Ensures}
use newsintel.Clustering.Features.{Word}
use newsintel.Entities.Flat.{IsFlat, find_entity-id}
use newsintel.Entities.Edits.{
  rename, set_type, set_hidden, set_status, set_ambiguous, set_note, take_holders, ClaimResult,
  same_flag, take_unless, take_linked, chosen_text, take_holder, same_text, chosen_type, stripped,
  write_claim, claim_name, bulk_one, bulk_each, bulk, or_own, BulkAction, claimed_by, first_places,
  is_claim, opt_run, is_own_name, other_holders,
}
use newsintel.Prelude.{
  ℕ, refl, ◌≡◌, Option, some, Bool, List, is_some, ◌∷◌, false, none, update_where, [], ap, ◌∙◌,
  ◌==◌, find, true, ◌++◌, not, subst, sym,
}
use newsintel.Prelude.Results.{Ensures, Ensures->>=, Ensures-if}
use newsintel.Entities.Store.{
  Entity, Store, AuthorityError, find_entity, EntityStatus, EntityType, same_status, same_type?,
  Run,
}
use newsintel.Entities.Changes.{get, root_only, problem, merge, start_run, differ?}

root_only-Ensures :
    (st : Store) (id : ℕ)
    → Ensures
        (λ e. (find_entity st.entities id ≡ some e) × (is_some e.authority_id ≡ false))
        (root_only st id)
unfolding root_only
root_only-Ensures st id =
    Ensures->>= _ _ (get st id) _ (get-Ensures st id)
      λ e found. Ensures-if _ (is_some e.authority_id) _ _ (λ t. tt) (λ n. (found, n))

-- An update of a root's own row by a function that sets its choices.
choices-IsFlat :
    (st : Store) (id : ℕ) (e : Entity) (f : Entity → Entity)
    → ((e : Entity) → (f e).id ≡ e.id)
    → ((e : Entity) → (f e).authority_id ≡ e.authority_id)
    → IsFlat st.entities
    → (find_entity st.entities id ≡ some e) × (is_some e.authority_id ≡ false)
    → IsFlat (update_where (at_id e.id) f st.entities)
choices-IsFlat st id e f ids links flat (found, free) =
    root_edit-IsFlat st.entities e.id e f
      (ap (find_entity st.entities) (find_entity-id st.entities id e found) ∙ found) free ids links
      flat

pub rename-IsFlat :
    (space : ℕ → Bool) (st : Store) (id : ℕ) (text : Option Word) (reindex : Bool)
    → IsFlat st.entities
    → Ensures (λ done. IsFlat done.0.entities) (rename space st id text reindex)
unfolding rename start_run
rename-IsFlat space st id text reindex flat =
    Ensures->>= _ _ (root_only st id) _ (root_only-Ensures st id) λ e root.
      let kept =
        choices-IsFlat st id e (λ x. record x { preferred_text = chosen_text space text })
          (λ e. refl) (λ e. refl) flat root in
      Ensures-if _ (same_text (chosen_text space text) e.preferred_text) _ _ (λ t. flat)
        (λ n. Ensures-if _ reindex _ _ (λ t. kept) (λ n. kept))

pub set_type-IsFlat :
    (st : Store) (id : ℕ) (entity_type : Option EntityType)
    → IsFlat st.entities
    → Ensures (λ done. IsFlat done.0.entities) (set_type st id entity_type)
unfolding set_type start_run
set_type-IsFlat st id entity_type flat =
    Ensures->>= _ _ (root_only st id) _ (root_only-Ensures st id) λ e root.
      Ensures-if _ (same_type? (chosen_type e entity_type) e.preferred_type) _ _ (λ t. flat)
        (λ n.
          choices-IsFlat st id e (λ x. record x { preferred_type = chosen_type e entity_type })
            (λ e. refl) (λ e. refl) flat root)

pub set_hidden-IsFlat :
    (st : Store) (id : ℕ) (hidden : Bool)
    → IsFlat st.entities
    → Ensures (λ done. IsFlat done.0.entities) (set_hidden st id hidden)
unfolding set_hidden start_run
set_hidden-IsFlat st id hidden flat =
    Ensures->>= _ _ (root_only st id) _ (root_only-Ensures st id) λ e root.
      Ensures-if _ (same_flag hidden e.hidden) _ _ (λ t. flat)
        (λ n.
          choices-IsFlat st id e (λ x. record x { hidden = hidden }) (λ e. refl) (λ e. refl) flat
            root)

pub set_status-IsFlat :
    (st : Store) (id : ℕ) (status : EntityStatus)
    → IsFlat st.entities
    → Ensures (λ st'. IsFlat st'.entities) (set_status st id status)
unfolding set_status
set_status-IsFlat st id status flat =
    Ensures->>= _ _ (root_only st id) _ (root_only-Ensures st id) λ e root.
      Ensures-if _ (same_status status e.status) _ _ (λ t. flat)
        (λ n.
          choices-IsFlat st id e (λ x. record x { status = status }) (λ e. refl) (λ e. refl) flat
            root)

pub set_ambiguous-IsFlat :
    (st : Store) (id : ℕ) (ambiguous : Bool)
    → IsFlat st.entities
    → Ensures (λ st'. IsFlat st'.entities) (set_ambiguous st id ambiguous)
unfolding set_ambiguous
set_ambiguous-IsFlat st id ambiguous flat =
    Ensures->>= _ _ (get st id) _ (get-Ensures st id) λ e found.
      Ensures-if _ (same_flag ambiguous e.ambiguous) _ _ (λ t. flat)
        (λ n.
          edit-IsFlat st.entities (at_id e.id) (λ x. record x { ambiguous = ambiguous })
            (record { ids = λ e. refl; links = λ e. refl; choices = λ e. refl }) flat)

pub set_note-IsFlat :
    (space : ℕ → Bool) (st : Store) (id : ℕ) (note : Option Word)
    → IsFlat st.entities
    → Ensures (λ st'. IsFlat st'.entities) (set_note space st id note)
unfolding set_note
set_note-IsFlat space st id note flat = Ensures->>= _ _ (get st id) _ (get-Ensures st id) λ e found.
    edit-IsFlat st.entities (at_id e.id) (λ x. record x { note = stripped space note })
      (record { ids = λ e. refl; links = λ e. refl; choices = λ e. refl }) flat

take_unless-IsFlat :
    (p : Option AuthorityError) (st : Store) (other root : Entity) (result : ClaimResult)
    → IsFlat st.entities
    → Ensures (λ done. IsFlat done.0.entities) (take_unless p st other root result)
take_unless-IsFlat none st other root result flat =
    Ensures->>= _ _ (merge st other.id root.id) _ (merge-IsFlat st other.id root.id flat)
      λ done h. h
take_unless-IsFlat (some e) st other root result flat = flat

take_linked-IsFlat :
    (link : Option ℕ) (st : Store) (other root : Entity) (result : ClaimResult)
    → IsFlat st.entities
    → Ensures (λ done. IsFlat done.0.entities) (take_linked link st other root result)
take_linked-IsFlat none st other root result flat =
    take_unless-IsFlat (problem st other root) st other root result flat
take_linked-IsFlat (some holder) st other root result flat =
    Ensures->>= _ _ (get st holder) _ (get-Ensures st holder) λ x found. flat

take_holders-IsFlat :
    (st : Store) (others : List Entity) (root : Entity) (result : ClaimResult)
    → IsFlat st.entities
    → Ensures (λ done. IsFlat done.0.entities) (take_holders st others root result)
unfolding take_holders
take_holders-IsFlat st [] root result flat = flat
take_holders-IsFlat st (other ∷ others) root result flat =
    Ensures->>= _ _ (take_holder st other root result) _
      (take_linked-IsFlat other.authority_id st other root result flat)
      λ done h. take_holders-IsFlat done.0 others root done.1 h

write_claim-entities :
    (holder : Option ℕ) (root : Entity) (key : ℕ) (st : Store)
    → (write_claim holder root key st).entities ≡ st.entities
write_claim-entities none root key st = refl
write_claim-entities (some id) root key st = refl

pub claim_name-IsFlat :
    (st : Store) (root_id : ℕ) (text : Option ℕ)
    → IsFlat st.entities
    → Ensures (λ done. IsFlat done.0.entities) (claim_name st root_id text)
unfolding claim_name
claim_name-IsFlat st root_id text flat =
    Ensures->>= _ _ (root_only st root_id) _ (root_only-Ensures st root_id) λ root h.
      let key = or_own text root.normalized_text in
      let holder = claimed_by (find (is_claim root.language key) st.claims) in
      Ensures-if _ root.ambiguous _ _ (λ t. tt)
        λ n.
          Ensures-if _ (not (is_own_name st root key)) _ _ (λ t. tt)
            λ own.
              Ensures-if _ (differ? holder (some root.id)) _ _ (λ t. tt)
                λ free.
                  Ensures->>= _ _
                    (take_holders st (other_holders st root key) root
                      (record { runs = []; skipped = [] }))
                    _
                    (take_holders-IsFlat st (other_holders st root key) root
                      (record { runs = []; skipped = [] }) flat)
                    λ done k. subst IsFlat (sym (write_claim-entities holder root key done.0)) k

bulk_one-IsFlat :
    (action : BulkAction) (st : Store) (id : ℕ)
    → IsFlat st.entities
    → Ensures (λ done. IsFlat done.0.entities) (bulk_one action st id)
unfolding bulk_one
bulk_one-IsFlat (BulkAction.into target) st id flat =
    Ensures-if _ (id == target) _ _ (λ t. flat)
      λ n. Ensures->>= _ _ (merge st id target) _ (merge-IsFlat st id target flat) λ done h. h
bulk_one-IsFlat (BulkAction.type_to t) st id flat = set_type-IsFlat st id t flat
bulk_one-IsFlat (BulkAction.status_to status) st id flat =
    Ensures->>= _ _ (set_status st id status) _ (set_status-IsFlat st id status flat) λ st' h. h
bulk_one-IsFlat BulkAction.hide st id flat = set_hidden-IsFlat st id true flat
bulk_one-IsFlat BulkAction.show st id flat = set_hidden-IsFlat st id false flat
bulk_one-IsFlat BulkAction.unknown st id flat = tt

bulk_each-IsFlat :
    (action : BulkAction) (st : Store) (ids : List ℕ) (runs : List Run)
    → IsFlat st.entities
    → Ensures (λ done. IsFlat done.0.entities) (bulk_each action st ids runs)
unfolding bulk_each
bulk_each-IsFlat action st [] runs flat = flat
bulk_each-IsFlat action st (id ∷ ids) runs flat =
    Ensures->>= _ _ (bulk_one action st id) _ (bulk_one-IsFlat action st id flat)
      λ done h. bulk_each-IsFlat action done.0 ids (runs ++ opt_run done.1) h

pub bulk-IsFlat :
    (action : BulkAction) (st : Store) (ids : List ℕ)
    → IsFlat st.entities
    → Ensures (λ done. IsFlat done.0.entities) (bulk action st ids)
unfolding bulk
bulk-IsFlat action st ids flat = bulk_each-IsFlat action st (first_places [] ids) [] flat
