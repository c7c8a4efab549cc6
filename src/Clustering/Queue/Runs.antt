-- ===== src/Clustering/Queue/Runs.antt =====
-- The queue of clustering jobs over any sequence of requests, claims, renewals, publications and
-- failures (backend/app/clustering/service.py and execution.py).
use newsintel.Clustering.Queue.Requests.{request_clustering-IsSound}
use newsintel.Jobs.Leasing.{Failure}
use newsintel.Clustering.Queue.Operations.{
  claim_job-IsSound, renew_lease-IsSound, publish-IsSound, fail_job-IsSound,
}
use newsintel.Clustering.Queue.Generations.{IsSound, is_loaded_from}
use newsintel.Clustering.Queue.{
  Queue, request_clustering, claim_job, renew_lease, LoadedJob, publish, fail_job,
}
use newsintel.Prelude.{ℕ, any, [], ◌==◌, ◌≡◌, false, some, All, true}

-- One transaction on the queue. A new state's id is a new one; a claim is published for what the
-- job's row gave when it was loaded.
pub data Step (q : Queue) : Queue → Type 0 where
  requests :
      (article_id state_id job_id now : ℕ)
      → any (λ s. s.id == state_id) q.states ≡ false
      → Step q (request_clustering q article_id state_id job_id now)
  claims : (job_id token now lease : ℕ) → Step q (claim_job q job_id token now lease).0
  renews :
      (job_id token now lease : ℕ) (q' : Queue)
      → renew_lease q job_id token now lease ≡ some q'
      → Step q q'
  publishes :
      (loaded : LoadedJob) (token now : ℕ) (q' : Queue)
      → All (λ j. is_loaded_from loaded j ≡ true) q.jobs
      → publish q loaded token now ≡ some q'
      → Step q q'
  fails : (job_id token now : ℕ) (failure : Failure) → Step q (fail_job q job_id token now failure)

abbrev pub empty : Queue
empty = record { states = []; jobs = [] }

-- The queues that steps lead to from the empty tables.
pub data Reach : Queue → Type 0 where
  here : Reach empty
  next : {q q' : Queue} → Reach q → Step q q' → Reach q'

Step-IsSound : (q q' : Queue) → IsSound q → Step q q' → IsSound q'
Step-IsSound q q' sound (Step.requests article_id state_id job_id now fresh) =
    request_clustering-IsSound q article_id state_id job_id now sound fresh
Step-IsSound q q' sound (Step.claims job_id token now lease) =
    claim_job-IsSound q job_id token now lease sound
Step-IsSound q q' sound (Step.renews job_id token now lease x h) =
    renew_lease-IsSound q job_id token now lease x sound h
Step-IsSound q q' sound (Step.publishes loaded token now x same h) =
    publish-IsSound q loaded token now x sound same h
Step-IsSound q q' sound (Step.fails job_id token now failure) =
    fail_job-IsSound q job_id token now failure sound

-- Whatever the order of requests, claims, renewals, publications and failures, the queue is sound:
-- a job that is not finished is of the generation its state last asked for, no state has completed
-- more than was asked for, one that has succeeded has completed the last generation asked for, and
-- only a job that is not finished has a claim.
pub Reach-IsSound : (q : Queue) → Reach q → IsSound q
Reach-IsSound q Reach.here = record { current = tt; settled = tt; claims = tt; known = tt }
Reach-IsSound q (Reach.next {q = p} reach step) = Step-IsSound p q (Reach-IsSound p reach) step
