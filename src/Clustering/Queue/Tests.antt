-- ===== src/Clustering/Queue/Tests.antt =====
-- A run of the queue of clustering jobs: a request, a claim, a second request, a late publication.
use newsintel.Clustering.Queue.Grows.{IsKeyed}
use newsintel.Clustering.Queue.Stale.{Follows, request_clustering-publish}
use newsintel.Clustering.Queue.Requests.{request_clustering-keep}
use newsintel.Jobs.Leasing.{claim, claimable, Status, holds, is_active}
use newsintel.Clustering.Queue.Generations.{IsSound}
use newsintel.Clustering.Queue.{
  Queue, request_clustering, LoadedJob, load_job, ArticleClusterState, claim_job, publish,
  new_state, new_job, requested_again,
}
use newsintel.Prelude.{refl, keep, ◌≡◌, ◌==◌, ◌∷◌, none, ◌&&◌, [], find, some, arith, refl}
use newsintel.Clustering.Queue.Runs.{Reach, Step, Reach-IsSound}

abbrev once : Queue
once = record { states = new_state 1 50 ∷ []; jobs = new_job (new_state 1 50) 7 100 ∷ [] }

once-Reach : Reach once
unfolding request_clustering
once-Reach = Reach.next Reach.here (Step.requests 50 1 7 100 refl)

Reach-IsSound_example : IsSound once
Reach-IsSound_example = Reach-IsSound once once-Reach

abbrev working : Queue
working = (claim_job once 7 900 110 300).0

abbrev work : LoadedJob
work = record { job_id = 7; state_id = 1; article_id = 50; generation = 1 }

work-loaded : load_job working 7 900 120 ≡ some work
unfolding load_job claim_job claim claimable holds
work-loaded = refl

abbrev claimed_state : ArticleClusterState
claimed_state = record (new_state 1 50) { status = Status.running }

working-state : find (λ s. s.article_id == 50) working.states ≡ some claimed_state
unfolding claim_job claim claimable
working-state = refl

-- The article is asked for again, and another worker claims the new job before the old one is done.
abbrev asked_again : Queue
asked_again = request_clustering working 50 2 8 130

abbrev taken_over : Queue
taken_over = (claim_job asked_again 8 901 135 300).0

taken_over-Follows : Follows asked_again taken_over
taken_over-Follows = Follows.next Follows.here (Step.claims 8 901 135 300)

working-IsKeyed : IsKeyed working.states
unfolding claim_job claim claimable
working-IsKeyed = (refl, tt)

request_clustering-publish_example : publish taken_over work 900 140 ≡ none
request_clustering-publish_example =
    request_clustering-publish working taken_over 50 2 8 130 claimed_state work 900 140
      working-IsKeyed working-state refl (omega arith) taken_over-Follows

request_clustering-keep_example :
    keep
      (λ j. j.state_id == 1 && is_active j.row.status)
      (request_clustering working 50 2 8 130).jobs
    ≡ new_job (requested_again claimed_state) 8 130 ∷ []
request_clustering-keep_example =
    request_clustering-keep working 50 2 8 130 claimed_state working-state
