-- ===== src/Entities/Store/Tables.antt =====
-- The tables of backend/app/entities/models.py, and the refusals of entities/authority.py.
-- Languages, normalised texts, Wikidata ids and partial dates are numbers, in the order of their
-- texts: the code compares and orders them.
use newsintel.Prelude.{ℕ, Bool, Option, List, ◌==◌, true, some, false, none, []}
use newsintel.Prelude.Sets.{nat_eq}
use newsintel.Clustering.Features.{Word}
use newsintel.Entities.Mentions.{Occurrence}

pub data EntityType : Type 0 where
  person org gpe location event product topic other : EntityType

-- The place of a type in `ENTITY_TYPES`.
abbrev pub type_index : EntityType → ℕ
type_index EntityType.person = 0
type_index EntityType.org = 1
type_index EntityType.gpe = 2
type_index EntityType.location = 3
type_index EntityType.event = 4
type_index EntityType.product = 5
type_index EntityType.topic = 6
type_index EntityType.other = 7

abbrev pub same_type : EntityType → EntityType → Bool
same_type a b = type_index a == type_index b

abbrev pub same_type? : Option EntityType → Option EntityType → Bool
same_type? none none = true
same_type? (some a) (some b) = same_type a b
same_type? _ _ = false

pub data NameSource : Type 0 where
  ner seed wikidata user : NameSource

pub data EntityStatus : Type 0 where
  provisional established : EntityStatus

abbrev pub same_status : EntityStatus → EntityStatus → Bool
same_status EntityStatus.provisional EntityStatus.provisional = true
same_status EntityStatus.established EntityStatus.established = true
same_status _ _ = false

pub record Entity : Type 0 where
  pub id : ℕ
  pub language : ℕ
  pub entity_type : EntityType
  pub normalized_text : ℕ
  pub display_text : Word
  pub authority_id : Option ℕ
  pub preferred_text : Option Word
  pub status : EntityStatus
  pub ambiguous : Bool
  pub note : Option Word
  pub preferred_type : Option EntityType
  pub hidden : Bool
  pub name_source : NameSource

-- `Entity.kind`
abbrev pub kind_of : Entity → EntityType
kind_of e = elim (e.preferred_type) [ none ↦ e.entity_type | some t ↦ t ]

pub record NameClaim : Type 0 where
  pub language : ℕ
  pub normalized_text : ℕ
  pub root_id : ℕ

pub record Distinct : Type 0 where
  pub a_id : ℕ
  pub b_id : ℕ

-- `related` is the symmetric type of link; the others are numbers from 1 on.
pub record Relation : Type 0 where
  pub id : ℕ
  pub subject_id : ℕ
  pub relation_type : ℕ
  pub object_id : ℕ
  pub valid_from : Option ℕ

abbrev pub related : ℕ
related = 0

-- An external identifier; `value` is the Wikidata id for the scheme `wikidata`.
pub record ExternalId : Type 0 where
  pub entity_id : ℕ
  pub is_wikidata : Bool
  pub value : ℕ

-- A row of `article_nlp_entities`, without what nothing here changes or reads.
pub record ArticleEntity : Type 0 where
  pub id : ℕ
  pub article_id : ℕ
  pub entity_id : ℕ
  pub observed_entity_id : Option ℕ
  pub original_label : Option Word
  pub occurrence_count : ℕ
  pub relevance : ℕ
  pub occurrences : List Occurrence
  pub is_current : Bool

pub data Action : Type 0 where
  merged split renamed status_changed ambiguous_changed distinct_added distinct_removed : Action
  wikidata_linked type_changed hidden_changed claim_added claim_removed : Action

-- What a change notes of the values before and after it.
pub data Noted : Type 0 where
  nothing : Noted
  authority : Option ℕ → Noted
  text : Option Word → Noted
  kind : EntityType → Noted
  flag : Bool → Noted
  state : EntityStatus → Noted
  name : ℕ → Noted
  link : ℕ → ℕ → Noted

pub record Change : Type 0 where
  pub action : Action
  pub entity_id : ℕ
  pub other_id : Option ℕ
  pub before : Noted
  pub after : Noted

pub data RunKind : Type 0 where
  merge split reindex : RunKind

pub data Phase : Type 0 where
  move reindex : Phase

-- A run with its cursor, which the table holds as JSON. `phase` is `none` before a first article
-- was reindexed.
pub record Run : Type 0 where
  pub id : ℕ
  pub kind : RunKind
  pub entity_id : ℕ
  pub root : ℕ
  pub phase : Option Phase
  pub after : Option ℕ
  pub events : Bool
  pub running : Bool

-- `indexing` are the articles asked to be reindexed and `recomputed` those whose events were
-- recomputed, the latest first; `next_id` is the next row's id.
pub record Store : Type 0 where
  pub entities : List Entity
  pub claims : List NameClaim
  pub distinct : List Distinct
  pub relations : List Relation
  pub external_ids : List ExternalId
  pub rows : List ArticleEntity
  pub changes : List Change
  pub runs : List Run
  pub indexing : List ℕ
  pub recomputed : List ℕ
  pub next_id : ℕ

abbrev pub empty_store : Store
empty_store = record {
  entities = [];
  claims = [];
  distinct = [];
  relations = [];
  external_ids = [];
  rows = [];
  changes = [];
  runs = [];
  indexing = [];
  recomputed = [];
  next_id = 0;
}

-- Why a change is refused; `status_code` is the HTTP status that goes with it.
pub data AuthorityError : Type 0 where
  not_found into_itself already_variant variant_of_another marked_different linked : AuthorityError
  wikidata_differs in_use_already not_a_variant change_its_root ambiguous_name not_own_name :
      AuthorityError
  claimed_already unknown_action different_from_itself already_one unknown_type : AuthorityError

abbrev pub status_code : AuthorityError → ℕ
status_code AuthorityError.not_found = 404
status_code AuthorityError.into_itself = 422
status_code AuthorityError.not_own_name = 422
status_code AuthorityError.unknown_action = 422
status_code AuthorityError.different_from_itself = 422
status_code AuthorityError.unknown_type = 422
status_code _ = 409
