-- ===== src/Clustering/Queue.antt =====
-- The queue of clustering jobs: backend/app/clustering/service.py and clustering/execution.py over
-- the tables of clustering/models.py. A claim's lease is that of Jobs/Leasing.
-- The algorithm version is a constant of the code, and the columns that only hold it are left out.
use newsintel.Prelude.Chain.{◌>>=◌}
use newsintel.Prelude.{
  ◌*◌, ℕ, List, none, ◌+◌, Option, some, find, update_where, ◌∷◌, ◌==◌, if◌then◌else◌, ◌&&◌, true,
}
pub mod Generations
pub mod Sound
pub mod Operations
pub mod Requests
pub mod Runs
pub mod Grows
pub mod Stale
mod Tests
use newsintel.Jobs.Leasing.{
  Row, Status, Retries, Failure, claim, claimable, holds, release, renew, record_failure, second,
  is_active,
}

-- `CLUSTER_RETRIES`
abbrev pub cluster_retries : Retries
cluster_retries = record { base = 30 * second; cap = 900 * second; max_attempts = some 5 }

pub record ArticleClusterState : Type 0 where
  pub id : ℕ
  pub article_id : ℕ
  pub requested_generation : ℕ
  pub completed_generation : ℕ
  pub status : Status

pub record ClusterJob : Type 0 where
  pub id : ℕ
  pub state_id : ℕ
  pub article_id : ℕ
  pub generation : ℕ
  pub row : Row

pub record Queue : Type 0 where
  pub states : List ArticleClusterState
  pub jobs : List ClusterJob

abbrev pub find_job : Queue → ℕ → Option ClusterJob
find_job q id = find (λ j. j.id == id) q.jobs

abbrev pub find_state : Queue → ℕ → Option ArticleClusterState
find_state q id = find (λ s. s.id == id) q.states

-- The row of that key becomes the given one.
abbrev pub put_job : ClusterJob → List ClusterJob → List ClusterJob
put_job job jobs = update_where (λ j. j.id == job.id) (λ j. job) jobs

abbrev pub put_state : ArticleClusterState → List ArticleClusterState → List ArticleClusterState
put_state state states = update_where (λ s. s.id == state.id) (λ s. state) states

-- The new row's columns as their defaults give them.
abbrev pub queued_row : ℕ → Row
queued_row now = record {
  status = Status.queued;
  attempt_count = 0;
  next_attempt_at = now;
  claim_token = none;
  claim_expires_at = none;
  error_category = none;
  error_message = none;
  completed_at = some none;
}

abbrev pub new_job : ArticleClusterState → ℕ → ℕ → ClusterJob
new_job state id now = record {
  id = id;
  state_id = state.id;
  article_id = state.article_id;
  generation = state.requested_generation;
  row = queued_row now;
}

abbrev pub new_state : ℕ → ℕ → ArticleClusterState
new_state id article_id = record {
  id = id;
  article_id = article_id;
  requested_generation = 1;
  completed_generation = 0;
  status = Status.queued;
}

abbrev pub superseded_row : Row → Row
superseded_row row = record row {
  status = Status.superseded;
  claim_token = none;
  claim_expires_at = none;
}

-- `UPDATE cluster_jobs SET status = 'superseded' …` of the state's jobs that are not finished.
unfoldable pub supersede : ℕ → List ClusterJob → List ClusterJob
supersede state_id jobs =
    update_where (λ j. j.state_id == state_id && is_active j.row.status)
      (λ j. record j { row = superseded_row j.row }) jobs

abbrev pub requested_again : ArticleClusterState → ArticleClusterState
requested_again state = record state {
  requested_generation = state.requested_generation + 1;
  status = Status.queued;
}

abbrev pub request_on : Option ArticleClusterState → Queue → ℕ → ℕ → ℕ → ℕ → Queue
request_on none q article_id state_id job_id now =
    let state = new_state state_id article_id in
    record { states = state ∷ q.states; jobs = new_job state job_id now ∷ q.jobs }
request_on (some found) q article_id state_id job_id now =
    let state = requested_again found in
    record {
      states = put_state state q.states;
      jobs = new_job state job_id now ∷ supersede state.id q.jobs;
    }

-- `state_id` and `job_id` are the ids that a new row would get.
unfoldable pub request_clustering : Queue → ℕ → ℕ → ℕ → ℕ → Queue
request_clustering q article_id state_id job_id now =
    request_on (find (λ s. s.article_id == article_id) q.states) q article_id state_id job_id now

abbrev pub with_row : ClusterJob → Row → ClusterJob
with_row job row = record job { row = row }

abbrev pub with_status : ArticleClusterState → Status → ArticleClusterState
with_status state status = record state { status = status }

-- `job.status = "superseded"`: the claim columns stay.
abbrev pub give_up : Queue → ClusterJob → Queue × Option ClusterJob
give_up q job = (
  record q { jobs = put_job (with_row job (record job.row { status = Status.superseded })) q.jobs },
  none,
)

abbrev pub claim_under :
    Option ArticleClusterState → Queue → ClusterJob → ℕ → ℕ → ℕ → Queue × Option ClusterJob
claim_under none q job token now lease = give_up q job
claim_under (some state) q job token now lease =
    if state.requested_generation == job.generation
    then (let claimed = with_row job (claim job.row token now lease true) in
        (
          record {
            states = put_state (with_status state Status.running) q.states;
            jobs = put_job claimed q.jobs;
          },
          some claimed,
        ))
    else give_up q job

abbrev pub claim_found : Option ClusterJob → Queue → ℕ → ℕ → ℕ → Queue × Option ClusterJob
claim_found none q token now lease = (q, none)
claim_found (some job) q token now lease =
    if claimable job.row now
    then claim_under (find_state q job.state_id) q job token now lease
    else (q, none)

unfoldable pub claim_job : Queue → ℕ → ℕ → ℕ → ℕ → Queue × Option ClusterJob
claim_job q job_id token now lease = claim_found (find_job q job_id) q token now lease

pub record LoadedJob : Type 0 where
  pub job_id : ℕ
  pub state_id : ℕ
  pub article_id : ℕ
  pub generation : ℕ

abbrev pub load_under : Option ArticleClusterState → ClusterJob → Option LoadedJob
load_under none job = none
load_under (some state) job =
    if state.requested_generation == job.generation
    then some (record {
      job_id = job.id;
      state_id = state.id;
      article_id = job.article_id;
      generation = job.generation;
    })
    else none

abbrev pub load_found : Option ClusterJob → Queue → ℕ → ℕ → Option LoadedJob
load_found none q token now = none
load_found (some job) q token now =
    if holds job.row token now then load_under (find_state q job.state_id) job else none

unfoldable pub load_job : Queue → ℕ → ℕ → ℕ → Option LoadedJob
load_job q job_id token now = load_found (find_job q job_id) q token now

abbrev pub renew_found : Option ClusterJob → Queue → ℕ → ℕ → ℕ → Option Queue
renew_found none q token now lease = none
renew_found (some job) q token now lease = renew job.row token now lease >>= λ row.
    some (record q { jobs = put_job (with_row job row) q.jobs })

-- `none` when the claim is no longer the holder's.
unfoldable pub renew_lease : Queue → ℕ → ℕ → ℕ → ℕ → Option Queue
renew_lease q job_id token now lease = renew_found (find_job q job_id) q token now lease

-- A finished row: released, without an error, completed now.
abbrev pub succeeded_row : Row → ℕ → Row
succeeded_row row now = record (release (record row { status = Status.succeeded })) {
  error_category = none;
  error_message = none;
  completed_at = some (some now);
}

abbrev pub completed : ArticleClusterState → ClusterJob → ArticleClusterState
completed state job = record state {
  completed_generation = job.generation;
  status = Status.succeeded;
}

abbrev pub publish_found :
    Option ClusterJob → Option ArticleClusterState → Queue → LoadedJob → ℕ → ℕ → Option Queue
publish_found none state q loaded token now = none
publish_found (some job) none q loaded token now = none
publish_found (some job) (some state) q loaded token now =
    if holds job.row token now && state.requested_generation == loaded.generation
    then some (record {
      states = put_state (completed state job) q.states;
      jobs = put_job (with_row job (succeeded_row job.row now)) q.jobs;
    })
    else none

-- What `_publish` does to the queue once the clusterer has answered; `none` is StaleClaim, which
-- rolls the whole transaction back.
unfoldable pub publish : Queue → LoadedJob → ℕ → ℕ → Option Queue
publish q loaded token now =
    publish_found (find_job q loaded.job_id) (find_state q loaded.state_id) q loaded token now

abbrev pub set_status :
    Option ArticleClusterState → Status → List ArticleClusterState → List ArticleClusterState
set_status none status states = states
set_status (some state) status states = put_state (with_status state status) states

abbrev pub fail_found : Option ClusterJob → Queue → ℕ → ℕ → Failure → Queue
fail_found none q token now failure = q
fail_found (some job) q token now failure =
    if holds job.row token now
    then (let row = record_failure job.row now failure cluster_retries job.row.attempt_count in
        record {
          states = set_status (find_state q job.state_id) row.status q.states;
          jobs = put_job (with_row job row) q.jobs;
        })
    else q

-- `_record_failure`, with the category and the message that the exception gives.
unfoldable pub fail_job : Queue → ℕ → ℕ → ℕ → Failure → Queue
fail_job q job_id token now failure = fail_found (find_job q job_id) q token now failure
