-- ===== src/Entities/Edits/Claims.antt =====
-- The names whose every type a root takes (backend/app/entities/authority.py).
use newsintel.Prelude.Sort.{sort_by}
use newsintel.Prelude.{
  ℕ, Bool, Option, if◌then◌else◌, List, ◌++◌, some, ◌∷◌, false, none, not, any, ◌==◌, ltb, ◌&&◌, [],
  true, ◌||◌, keep, find, leb,
}
use newsintel.Prelude.Results.{Verdict, granted, refused, ◌>>=◌}
use newsintel.Entities.Store.{
  Entity, Store, Run, AuthorityError, NameClaim, EntityType, Action, Noted, same_type,
  is_variant_of,
}
use newsintel.Entities.Changes.{get, root_only, problem, record_change, merge, differ?}

abbrev pub is_claim : ℕ → ℕ → NameClaim → Bool
is_claim language key c = c.language == language && c.normalized_text == key

-- Whether the name is the root's own or one of its variants'.
abbrev pub is_own_name : Store → Entity → ℕ → Bool
is_own_name st root key =
    key == root.normalized_text
    || any
        (λ e. is_variant_of root.id e && (e.language == root.language && e.normalized_text == key))
        st.entities

-- The place of a type in the order of the types' names.
abbrev pub type_rank : EntityType → ℕ
type_rank EntityType.event = 0
type_rank EntityType.gpe = 1
type_rank EntityType.location = 2
type_rank EntityType.org = 3
type_rank EntityType.other = 4
type_rank EntityType.person = 5
type_rank EntityType.product = 6
type_rank EntityType.topic = 7

abbrev pub claim_before : Entity → Entity → Bool
claim_before a b =
    ltb (type_rank a.entity_type) (type_rank b.entity_type)
    || (same_type a.entity_type b.entity_type && leb a.id b.id)

-- Every other entity of that name that is no variant of the root.
abbrev pub other_holders : Store → Entity → ℕ → List Entity
other_holders st root key = sort_by claim_before (
    keep
      (λ e.
        e.language == root.language
        && (e.normalized_text == key && (not (e.id == root.id) && not (is_variant_of root.id e))))
      st.entities)

-- The runs that a claim starts and the entities it skips.
pub record ClaimResult : Type 0 where
  pub runs : List Run
  pub skipped : List ℕ

abbrev pub skip : ℕ → ClaimResult → ClaimResult
skip id result = record result { skipped = result.skipped ++ id ∷ [] }

abbrev pub add_run : Run → ClaimResult → ClaimResult
add_run run result = record result { runs = result.runs ++ run ∷ [] }

abbrev pub take_unless :
    Option AuthorityError
    → Store
    → Entity
    → Entity
    → ClaimResult
    → Verdict AuthorityError (Store × ClaimResult)
take_unless (some e) st other root result = granted (st, skip other.id result)
take_unless none st other root result =
    merge st other.id root.id >>= λ done. granted (done.0, add_run done.1 result)

abbrev pub take_linked :
    Option ℕ → Store → Entity → Entity → ClaimResult → Verdict AuthorityError (Store × ClaimResult)
take_linked (some holder) st other root result =
    get st holder >>= λ _. granted (st, skip other.id result)
take_linked none st other root result = take_unless (problem st other root) st other root result

-- One of the other holders: a variant stays, a root merges unless it may not.
abbrev pub take_holder :
    Store → Entity → Entity → ClaimResult → Verdict AuthorityError (Store × ClaimResult)
take_holder st other root result = take_linked other.authority_id st other root result

unfoldable pub take_holders :
    Store → List Entity → Entity → ClaimResult → Verdict AuthorityError (Store × ClaimResult)
unfolding get problem merge
take_holders st [] root result = granted (st, result)
take_holders st (other ∷ others) root result =
    take_holder st other root result >>= λ done. take_holders done.0 others root done.1

abbrev pub claimed_by : Option NameClaim → Option ℕ
claimed_by none = none
claimed_by (some c) = some c.root_id

abbrev pub write_claim : Option ℕ → Entity → ℕ → Store → Store
write_claim (some holder) root key st = st
write_claim none root key st =
    record_change Action.claim_added root.id none Noted.nothing (Noted.name key) (record st {
      claims =
          record { language = root.language; normalized_text = key; root_id = root.id } ∷ st.claims;
    })

abbrev pub or_own : Option ℕ → ℕ → ℕ
or_own none own = own
or_own (some key) own = key

unfoldable pub claim_name : Store → ℕ → Option ℕ → Verdict AuthorityError (Store × ClaimResult)
unfolding root_only take_holders
claim_name st root_id normalized_text = root_only st root_id >>= λ root.
    if root.ambiguous
    then refused AuthorityError.ambiguous_name
    else let key = or_own normalized_text root.normalized_text in
      if not (is_own_name st root key)
      then refused AuthorityError.not_own_name
      else let holder = claimed_by (find (is_claim root.language key) st.claims) in
        if differ? holder (some root.id)
        then refused AuthorityError.claimed_already
        else take_holders st (other_holders st root key) root (record { runs = []; skipped = [] })
          >>= λ done. granted (write_claim holder root key done.0, done.1)

-- With whether there was such a claim.
unfoldable pub release_name : Store → ℕ → ℕ → Verdict AuthorityError (Store × Bool)
unfolding root_only
release_name st root_id normalized_text = root_only st root_id >>= λ root.
    let is_removed =
      λ (c : NameClaim). is_claim root.language normalized_text c && c.root_id == root.id in
    if any is_removed st.claims
    then granted (
      record_change Action.claim_removed root.id none (Noted.name normalized_text) Noted.nothing
          (record st { claims = keep (λ c. not (is_removed c)) st.claims }),
      true,
    )
    else granted (st, false)
