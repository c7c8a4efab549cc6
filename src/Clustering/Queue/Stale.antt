-- ===== src/Clustering/Queue/Stale.antt =====
-- Work that was loaded before a request stays unpublished, whatever happens in between
-- (backend/app/clustering/service.py and execution.py).
use newsintel.Clustering.Queue.Grows.{
  Grows, generation_in, IsKeyed, request_on-Grows, same-Grows, asked_of, claim_found-Grows,
  find-keyed, renew_found-states, asked_of-put_state, publish_found-Grows, put_state-IsKeyed,
  fail_found-Grows,
}
use newsintel.Clustering.Queue.Runs.{Step}
use newsintel.Clustering.Queue.{
  ArticleClusterState, Queue, ClusterJob, find_state, LoadedJob, publish_found, requested_again,
  request_clustering, publish, claim_job, find_job, renew_lease, fail_job,
}
use newsintel.Prelude.{
  ℕ, refl, ◌≡◌, ◌≤◌, ◌<◌, arith, Option, some, find, subst, ◌==◌, none, sym, ◌+◌,
}

Step-Grows : (q q' : Queue) → Step q q' → Grows q.states q'.states
unfolding request_clustering claim_job renew_lease publish fail_job
Step-Grows q _ (Step.requests article_id state_id job_id now fresh) =
    request_on-Grows (find (λ s. s.article_id == article_id) q.states) q article_id state_id job_id
      now refl fresh
Step-Grows q _ (Step.claims job_id token now lease) =
    claim_found-Grows (find_job q job_id) q token now lease
Step-Grows q q' (Step.renews job_id token now lease _ h) =
    same-Grows q.states q'.states (renew_found-states (find_job q job_id) q q' token now lease h)
Step-Grows q q' (Step.publishes loaded token now _ same h) =
    publish_found-Grows (find_job q loaded.job_id) (find_state q loaded.state_id) q q' loaded token
      now refl h
Step-Grows q _ (Step.fails job_id token now failure) =
    fail_found-Grows (find_job q job_id) q token now failure

-- What any number of transactions makes of a queue.
pub data Follows (q : Queue) : Queue → Type 0 where
  here : Follows q q
  next : {p r : Queue} → Follows q p → Step p r → Follows q r

Follows-Grows : (q r : Queue) → Follows q r → Grows q.states r.states
Follows-Grows q _ Follows.here keyed = same-Grows q.states q.states refl keyed
Follows-Grows q r (Follows.next {p = p} before step) keyed =
    let (keyed', more) = Follows-Grows q p before keyed in
    let (keyed'', again) = Step-Grows p r step keyed' in
    (keyed'', λ id. let first = more id in let second = again id in omega arith)

stale_publish :
    (job : Option ClusterJob) (found : Option ArticleClusterState) (q : Queue) (loaded : LoadedJob)
    (token now : ℕ)
    → loaded.generation < generation_in found
    → publish_found job found q loaded token now ≡ none
stale_publish none found q loaded token now lt = refl
stale_publish (some job) none q loaded token now lt = refl
stale_publish (some job) (some s) q loaded token now lt = ground arith

requested-asked_of :
    (q : Queue) (article_id state_id job_id now : ℕ) (state : ArticleClusterState)
    → IsKeyed q.states
    → find (λ s. s.article_id == article_id) q.states ≡ some state
    → IsKeyed (request_clustering q article_id state_id job_id now).states
      × (asked_of (request_clustering q article_id state_id job_id now).states state.id
          ≡ state.requested_generation + 1)
unfolding request_clustering
requested-asked_of q article_id state_id job_id now state keyed e =
    let at = find-keyed (λ s. s.article_id == article_id) q.states state keyed e in
    let after = asked_of-put_state (requested_again state) q.states state.id in
    rw e (put_state-IsKeyed (requested_again state) q.states keyed, ground (arith, after, at))

-- Work that was loaded for an article is never published once the article has been asked for again:
-- not at any time after the request, whoever holds the claim, and whatever requests, claims,
-- renewals, publications and failures come in between. The ids of the states are a key of their
-- table, and the work was loaded for a generation that had been asked for before the request.
pub request_clustering-publish :
    (q later : Queue) (article_id state_id job_id now : ℕ) (state : ArticleClusterState)
    (loaded : LoadedJob) (token t : ℕ)
    → IsKeyed q.states
    → find (λ s. s.article_id == article_id) q.states ≡ some state
    → loaded.state_id ≡ state.id
    → loaded.generation ≤ state.requested_generation
    → Follows (request_clustering q article_id state_id job_id now) later
    → publish later loaded token t ≡ none
unfolding publish
request_clustering-publish q later article_id state_id job_id now state loaded token t keyed e at
      old follows =
    let asked = request_clustering q article_id state_id job_id now in
    let (keyed', first) = requested-asked_of q article_id state_id job_id now state keyed e in
    let (keyed'', grown) = Follows-Grows asked later follows keyed' in
    let more = grown state.id in
    stale_publish (find_job later loaded.job_id) (find_state later loaded.state_id) later loaded
      token t (subst (λ id. loaded.generation < asked_of later.states id) (sym at) (omega arith))
