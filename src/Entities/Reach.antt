-- ===== src/Entities/Reach.antt =====
-- The authority file as a state machine: every change of backend/app/entities/authority.py, a scan
-- of its runs, and the names that processing and Wikidata bring.
use newsintel.Prelude.Results.{granted}
use newsintel.Entities.Runs.{scan_authority_runs}
use newsintel.Entities.Edits.{
  rename, set_type, set_hidden, set_status, set_ambiguous, set_note, add_distinct, remove_distinct,
  ClaimResult, claim_name, release_name, BulkAction, bulk,
}
use newsintel.Clustering.Features.{Word}
use newsintel.Entities.Changes.{merge, adopt, split}
use newsintel.Entities.Flat.{is_root?}
use newsintel.Entities.Store.{
  Entity, Store, empty_store, find_entity, Run, EntityType, EntityStatus,
}
use newsintel.Prelude.{ℕ, Bool, ◌++◌, ◌≡◌, ◌∷◌, none, [], true, some, false, Option, List}

-- A new name at the end of the table.
unfoldable pub add_entity : Entity → Store → Store
add_entity e st = record st { entities = st.entities ++ e ∷ [] }

-- One committed transaction. A request that is refused changes nothing, so it is no step.
pub data Step (space : ℕ → Bool) : Store → Store → Type 0 where
  -- A name that no one has yet is a root (nlp/execution.py).
  discovered : (st : Store) (e : Entity) → e.authority_id ≡ none → Step space st (add_entity e st)
  -- A name of a linked item is a variant of the root at once (wikidata/names.py).
  named :
      (st : Store) (e : Entity) (root : ℕ)
      → is_root? (find_entity st.entities root) ≡ true
      → e.authority_id ≡ some root
      → e.preferred_type ≡ none
      → e.hidden ≡ false
      → Step space st (add_entity e st)
  merged :
      (st st' : Store) (variant target : ℕ) (run : Run)
      → merge st variant target ≡ granted (st', run)
      → Step space st st'
  -- Every caller passes a root.
  adopted :
      (st st' : Store) (variant root : ℕ)
      → is_root? (find_entity st.entities root) ≡ true
      → adopt st variant root ≡ granted st'
      → Step space st st'
  split_off :
      (st st' : Store) (variant : ℕ) (run : Run)
      → split st variant ≡ granted (st', run)
      → Step space st st'
  renamed :
      (st st' : Store) (id : ℕ) (text : Option Word) (reindex : Bool) (run : Option Run)
      → rename space st id text reindex ≡ granted (st', run)
      → Step space st st'
  typed :
      (st st' : Store) (id : ℕ) (t : Option EntityType) (run : Option Run)
      → set_type st id t ≡ granted (st', run)
      → Step space st st'
  marked :
      (st st' : Store) (id : ℕ) (hidden : Bool) (run : Option Run)
      → set_hidden st id hidden ≡ granted (st', run)
      → Step space st st'
  settled :
      (st st' : Store) (id : ℕ) (status : EntityStatus)
      → set_status st id status ≡ granted st'
      → Step space st st'
  doubted :
      (st st' : Store) (id : ℕ) (ambiguous : Bool)
      → set_ambiguous st id ambiguous ≡ granted st'
      → Step space st st'
  noted :
      (st st' : Store) (id : ℕ) (note : Option Word)
      → set_note space st id note ≡ granted st'
      → Step space st st'
  told_apart : (st st' : Store) (a b : ℕ) → add_distinct st a b ≡ granted st' → Step space st st'
  let_together :
      (st st' : Store) (a b : ℕ) → remove_distinct st a b ≡ granted st' → Step space st st'
  claimed :
      (st st' : Store) (root : ℕ) (text : Option ℕ) (result : ClaimResult)
      → claim_name st root text ≡ granted (st', result)
      → Step space st st'
  released :
      (st st' : Store) (root text : ℕ) (removed : Bool)
      → release_name st root text ≡ granted (st', removed)
      → Step space st st'
  in_bulk :
      (st st' : Store) (action : BulkAction) (ids : List ℕ) (runs : List Run)
      → bulk action st ids ≡ granted (st', runs)
      → Step space st st'
  scanned : (st : Store) (batch : ℕ) → Step space st (scan_authority_runs batch st).0

-- What any number of steps from an empty database leads to.
pub data Reachable (space : ℕ → Bool) : Store → Type 0 where
  start : Reachable space empty_store
  next : (st st' : Store) → Reachable space st → Step space st st' → Reachable space st'
