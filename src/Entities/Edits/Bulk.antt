-- ===== src/Entities/Edits/Bulk.antt =====
-- One change to several names (backend/app/entities/authority.py).
use newsintel.Entities.Edits.Own.{set_type, set_status, set_hidden}
use newsintel.Prelude.{
  ℕ, Option, if◌then◌else◌, List, ◌++◌, some, ◌∷◌, false, none, ◌==◌, [], true, member,
}
use newsintel.Prelude.Results.{Verdict, granted, refused, ◌>>=◌}
use newsintel.Entities.Store.{Store, Run, AuthorityError, EntityStatus, EntityType}
use newsintel.Entities.Changes.{merge}

-- A bulk action with what it needs.
pub data BulkAction : Type 0 where
  into : ℕ → BulkAction
  type_to : Option EntityType → BulkAction
  status_to : EntityStatus → BulkAction
  hide show unknown : BulkAction

abbrev pub with_run : Store × Run → Store × Option Run
with_run (st, run) = (st, some run)

abbrev pub no_run : Store → Store × Option Run
no_run st = (st, none)

unfoldable pub bulk_one : BulkAction → Store → ℕ → Verdict AuthorityError (Store × Option Run)
unfolding merge set_type set_status set_hidden
bulk_one (BulkAction.into target) st id =
    if id == target
    then granted (st, none)
    else (merge st id target >>= λ done. granted (with_run done))
bulk_one (BulkAction.type_to t) st id = set_type st id t
bulk_one (BulkAction.status_to status) st id =
    set_status st id status >>= λ st'. granted (no_run st')
bulk_one BulkAction.hide st id = set_hidden st id true
bulk_one BulkAction.show st id = set_hidden st id false
bulk_one BulkAction.unknown st id = refused AuthorityError.unknown_action

abbrev pub opt_run : Option Run → List Run
opt_run none = []
opt_run (some run) = run ∷ []

-- One change to several entities: the first refusal refuses them all. The label that the refusal's
-- text gets in front is left out.
unfoldable pub bulk_each :
    BulkAction → Store → List ℕ → List Run → Verdict AuthorityError (Store × List Run)
unfolding bulk_one
bulk_each action st [] runs = granted (st, runs)
bulk_each action st (id ∷ ids) runs =
    bulk_one action st id >>= λ done. bulk_each action done.0 ids (runs ++ opt_run done.1)

-- `dict.fromkeys`: each id once, at its first place.
abbrev pub first_places : List ℕ → List ℕ → List ℕ
first_places seen [] = []
first_places seen (id ∷ ids) =
    let rest = first_places (id ∷ seen) ids in if member id seen then rest else id ∷ rest

unfoldable pub bulk : BulkAction → Store → List ℕ → Verdict AuthorityError (Store × List Run)
unfolding bulk_each
bulk action st ids = bulk_each action st (first_places [] ids) []
