-- ===== src/Search/Deliveries.antt =====
-- The revisions of an article in the search index (backend/app/search/service.py and indexing.py).
-- What Elasticsearch answers is the outcome that `_acknowledge` gets.
use newsintel.Prelude.Text.{codes}
use newsintel.Jobs.Leasing.{
  Row, Retries, claimable, record_failure, release, Failure, Status, claim, second,
}
use newsintel.Prelude.{
  ℕ, List, Bool, Option, if◌then◌else◌, keep, update_where, ◌*◌, true, find, some, ◌∷◌, ◌==◌, any,
  none, not, eq_opt, false, ◌+◌, ◌&&◌, [],
}

pub data TargetRole : Type 0 where
  current replacement retained : TargetRole

pub record SearchIndexTarget : Type 0 where
  pub id : ℕ
  pub role : TargetRole

pub record ArticleSearchState : Type 0 where
  pub article_id : ℕ
  pub requested_revision : ℕ

pub record SearchDelivery : Type 0 where
  pub id : ℕ
  pub article_id : ℕ
  pub target_id : ℕ
  pub requested_revision : ℕ
  pub indexed_revision : ℕ
  pub row : Row

-- `next_id` is the id of the next delivery.
pub record Index : Type 0 where
  pub states : List ArticleSearchState
  pub targets : List SearchIndexTarget
  pub deliveries : List SearchDelivery
  pub next_id : ℕ

-- `search_retries`: the argument is the setting `search_max_attempts`.
abbrev pub search_retries : ℕ → Retries
search_retries max_attempts = record {
  base = 5 * second;
  cap = 3600 * second;
  max_attempts = some max_attempts;
}

abbrev pub is_live : SearchIndexTarget → Bool
is_live target = elim (target.role) [
  | TargetRole.current ↦ true
  | TargetRole.replacement ↦ true
  | TargetRole.retained ↦ false
]

abbrev pub find_state : List ArticleSearchState → ℕ → Option ArticleSearchState
find_state states article = find (λ s. s.article_id == article) states

-- The revision that was asked for last; a missing state is as good as revision 0.
abbrev pub revision_in : Option ArticleSearchState → ℕ
revision_in none = 0
revision_in (some s) = s.requested_revision

abbrev pub revision_of : List ArticleSearchState → ℕ → ℕ
revision_of states article = revision_in (find_state states article)

abbrev pub raise_revision :
    Option ArticleSearchState → ℕ → List ArticleSearchState → List ArticleSearchState
raise_revision none article states =
    record { article_id = article; requested_revision = 1 } ∷ states
raise_revision (some s) article states =
    update_where (λ x. x.article_id == article)
      (λ x. record x { requested_revision = s.requested_revision + 1 }) states

abbrev pub queued_row : ℕ → Row
queued_row now = record {
  status = Status.queued;
  attempt_count = 0;
  next_attempt_at = now;
  claim_token = none;
  claim_expires_at = none;
  error_category = none;
  error_message = none;
  completed_at = none;
}

abbrev pub new_delivery : ℕ → ℕ → ℕ → ℕ → ℕ → SearchDelivery
new_delivery id article target revision now = record {
  id = id;
  article_id = article;
  target_id = target;
  requested_revision = revision;
  indexed_revision = 0;
  row = queued_row now;
}

-- The delivery is asked for the new revision and due at once; its claim and its attempts stay.
abbrev pub requeued : ℕ → ℕ → SearchDelivery → SearchDelivery
requeued revision now d = record d {
  requested_revision = revision;
  row = record d.row {
    status = Status.queued;
    next_attempt_at = now;
    error_category = none;
    error_message = none;
  };
}

abbrev pub is_delivery : ℕ → ℕ → SearchDelivery → Bool
is_delivery article target d = d.article_id == article && d.target_id == target

abbrev pub request_target : ℕ → ℕ → ℕ → ℕ → Index → Index
request_target article revision now target st =
    if any (is_delivery article target) st.deliveries
    then record st {
      deliveries = update_where (is_delivery article target) (requeued revision now) st.deliveries;
    }
    else record st {
      deliveries = new_delivery st.next_id article target revision now ∷ st.deliveries;
      next_id = st.next_id + 1;
    }

unfoldable pub request_targets : ℕ → ℕ → ℕ → List SearchIndexTarget → Index → Index
request_targets article revision now [] st = st
request_targets article revision now (target ∷ targets) st =
    request_targets article revision now targets (request_target article revision now target.id st)

-- The new revision, and the tables.
unfoldable pub request_indexing : ℕ → ℕ → Index → ℕ × Index
unfolding request_targets
request_indexing article now st =
    let states = raise_revision (find_state st.states article) article st.states in
    let revision = revision_of states article in
    (
      revision,
      request_targets article revision now (keep is_live st.targets)
          (record st { states = states }),
    )

abbrev pub at_delivery : ℕ → (SearchDelivery → SearchDelivery) → Index → Index
at_delivery id f st = record st { deliveries = update_where (λ d. d.id == id) f st.deliveries }

abbrev pub claimed_delivery : ℕ → ℕ → ℕ → SearchDelivery → SearchDelivery
claimed_delivery token now lease d =
    if claimable d.row now then record d { row = claim d.row token now lease true } else d

-- The delivery as it was claimed, if it was.
abbrev pub claim_of : Option SearchDelivery → ℕ → ℕ → ℕ → Option SearchDelivery
claim_of none token now lease = none
claim_of (some d) token now lease =
    if claimable d.row now then some (claimed_delivery token now lease d) else none

unfoldable pub claim_delivery : ℕ → ℕ → ℕ → ℕ → Index → Index × Option SearchDelivery
unfolding claimable claim
claim_delivery id token now lease st = (
  at_delivery id (claimed_delivery token now lease) st,
  claim_of (find (λ d. d.id == id) st.deliveries) token now lease,
)

pub data Outcome : Type 0 where
  success duplicate : Outcome
  transient permanent : List ℕ → Outcome

abbrev pub delivery_failure : List ℕ → List ℕ → Bool → Failure
delivery_failure category message is_permanent = record {
  category = category;
  message = message;
  permanent = is_permanent;
  retry_after = none;
}

abbrev pub done_row : Row → Row
done_row row = record row { status = Status.succeeded; error_category = none; error_message = none }

-- The outcome of the revision that was still the one asked for.
abbrev pub settle : ℕ → ℕ → Outcome → ℕ → SearchDelivery → SearchDelivery
settle max_attempts revision Outcome.success now d = record d {
  indexed_revision = revision;
  row = done_row d.row;
}
settle max_attempts revision Outcome.duplicate now d = record d {
  indexed_revision = revision;
  row = done_row d.row;
}
settle max_attempts revision (Outcome.transient error) now d = record d {
  row =
      record_failure d.row now (delivery_failure (codes "elasticsearch_transient") error false)
        (search_retries max_attempts) d.row.attempt_count;
}
settle max_attempts revision (Outcome.permanent error) now d = record d {
  row =
      record_failure d.row now (delivery_failure (codes "document") error true)
        (search_retries max_attempts) d.row.attempt_count;
}

abbrev pub freed : SearchDelivery → SearchDelivery
freed d = record d { row = release d.row }

abbrev pub acknowledged : ℕ → ℕ → ℕ → Outcome → ℕ → SearchDelivery → SearchDelivery
acknowledged max_attempts token revision outcome now d =
    if not (eq_opt d.row.claim_token (some token))
    then d
    else if not (d.requested_revision == revision)
    then freed d
    else settle max_attempts revision outcome now (freed d)

-- `_acknowledge`; the error text is the outcome's, or the one of the code when there is none.
unfoldable pub acknowledge : ℕ → ℕ → ℕ → ℕ → Outcome → ℕ → Index → Index
unfolding release record_failure
acknowledge max_attempts id token revision outcome now st =
    at_delivery id (acknowledged max_attempts token revision outcome now) st

abbrev pub failed_delivery : ℕ → ℕ → Failure → ℕ → SearchDelivery → SearchDelivery
failed_delivery max_attempts token failure now d =
    if eq_opt d.row.claim_token (some token)
    then record d {
      row = record_failure d.row now failure (search_retries max_attempts) d.row.attempt_count;
    }
    else d

-- `_fail`
unfoldable pub fail : ℕ → ℕ → ℕ → Failure → ℕ → Index → Index
unfolding record_failure
fail max_attempts id token failure now st =
    at_delivery id (failed_delivery max_attempts token failure now) st
