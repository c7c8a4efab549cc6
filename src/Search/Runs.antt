-- ===== src/Search/Runs.antt =====
-- Requests, claims and outcomes of deliveries in any order (backend/app/search/service.py and
-- indexing.py).
use newsintel.Search.Requests.{request_indexing-IsFresh}
use newsintel.Search.Fresh.{
  IsFresh, at_delivery-IsFresh, claimed_delivery-Keeps, acknowledged-Keeps, failed_delivery-Keeps,
}
use newsintel.Jobs.Leasing.{claim, release, record_failure, Failure, exhausted, claimable, Status}
use newsintel.Search.Deliveries.{
  Index, claim_delivery, SearchIndexTarget, request_indexing, acknowledge, Outcome, fail,
  SearchDelivery, requeued, acknowledged, claimed_delivery, failed_delivery,
}
use newsintel.Prelude.{ℕ, List, [], ◌≤◌, ◌+◌, ◌≡◌, true, ==_refl, arith}

abbrev pub empty_index : List SearchIndexTarget → Index
empty_index targets = record { states = []; targets = targets; deliveries = []; next_id = 0 }

-- One committed transaction. A worker may answer with any revision that it loaded, however late.
pub data Step (max_attempts : ℕ) : Index → Index → Type 0 where
  requested :
      (st : Index) (article now : ℕ) → Step max_attempts st (request_indexing article now st).1
  taken :
      (st : Index) (id token now lease : ℕ)
      → Step max_attempts st (claim_delivery id token now lease st).0
  answered :
      (st : Index) (id token revision : ℕ) (outcome : Outcome) (now : ℕ)
      → Step max_attempts st (acknowledge max_attempts id token revision outcome now st)
  broke :
      (st : Index) (id token : ℕ) (failure : Failure) (now : ℕ)
      → Step max_attempts st (fail max_attempts id token failure now st)

pub data Reach (max_attempts : ℕ) : Index → Type 0 where
  start : (targets : List SearchIndexTarget) → Reach max_attempts (empty_index targets)
  next :
      (st st' : Index) → Reach max_attempts st → Step max_attempts st st' → Reach max_attempts st'

Step-IsFresh :
    (max_attempts : ℕ) (st st' : Index) → Step max_attempts st st' → IsFresh st → IsFresh st'
unfolding claim_delivery acknowledge fail
Step-IsFresh max_attempts st _ (requested _ article now) h =
    request_indexing-IsFresh article now st h
Step-IsFresh max_attempts st _ (taken _ id token now lease) h =
    at_delivery-IsFresh id (claimed_delivery token now lease) st
      (claimed_delivery-Keeps token now lease) h
Step-IsFresh max_attempts st _ (answered _ id token revision outcome now) h =
    at_delivery-IsFresh id (acknowledged max_attempts token revision outcome now) st
      (acknowledged-Keeps max_attempts token revision outcome now) h
Step-IsFresh max_attempts st _ (broke _ id token failure now) h =
    at_delivery-IsFresh id (failed_delivery max_attempts token failure now) st
      (failed_delivery-Keeps max_attempts token failure now) h

-- After any sequence of requests, claims, outcomes and failures, from an index without deliveries,
-- no delivery has indexed a revision beyond the one that it was asked for, none is asked for one
-- beyond the latest of its article, and a delivery that has succeeded has indexed the revision that
-- it was last asked for.
pub Reach-IsFresh : (max_attempts : ℕ) (st : Index) → Reach max_attempts st → IsFresh st
Reach-IsFresh max_attempts _ (start targets) = tt
Reach-IsFresh max_attempts _ (next st st' before step) =
    Step-IsFresh max_attempts st st' step (Reach-IsFresh max_attempts st before)

-- A delivery that was claimed as often as the limit on attempts, or once less, even if every one of
-- those attempts succeeded, fails for good at its next transient failure after a new request: if it
-- is claimable when the next claim comes, neither the request nor a success starts the count again.
pub transient_failure_fails :
    (max_attempts revision token now now' now'' lease : ℕ) (error : List ℕ) (d : SearchDelivery)
    → max_attempts ≤ d.row.attempt_count + 1
    → claimable (requeued revision now d).row now' ≡ true
    → (acknowledged max_attempts token revision
        (Outcome.transient error)
        now''
        (claimed_delivery token now' lease (requeued revision now d))).row.status
      ≡ Status.failed
unfolding claim release record_failure exhausted
transient_failure_fails max_attempts revision token now now' now'' lease error d le h =
    rw (h, ==_refl token, ==_refl revision) (ground arith)
