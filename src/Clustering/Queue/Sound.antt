-- ===== src/Clustering/Queue/Sound.antt =====
-- Writing a row of the queue of backend/app/clustering keeps the queue sound.
use newsintel.Prelude.Every.{All-map, All-find, All-update_where}
use newsintel.Clustering.Queue.Generations.{
  IsSound, claims_active, is_current, is_settled, put_state-current, put_state-known,
}
use newsintel.Jobs.Leasing.{holds, Row, is_active}
use newsintel.Clustering.Queue.{
  Queue, ClusterJob, ArticleClusterState, find_job, find_state, put_job, put_state, with_row,
}
use newsintel.Prelude.{
  ℕ, Bool, List, find, All, ◌≡◌, some, false, true, any, ◌⊎◌, arith, ◌∷◌, ◌==◌, inl, [], inr,
}

pub current_job :
    (q : Queue) (p : ClusterJob → Bool) (job : ClusterJob)
    → IsSound q
    → find p q.jobs ≡ some job
    → All (λ s. is_current s job ≡ true) q.states
current_job q p job sound e =
    All-map (λ s. All (λ j. is_current s j ≡ true) q.jobs) (λ s. is_current s job ≡ true)
      (λ s h. (All-find (λ j. is_current s j ≡ true) p q.jobs job e h).0) q.states sound.current

put_job-current :
    (job : ClusterJob) (jobs : List ClusterJob) (states : List ArticleClusterState)
    → All (λ s. is_current s job ≡ true) states
    → All (λ s. All (λ j. is_current s j ≡ true) jobs) states
    → All (λ s. All (λ j. is_current s j ≡ true) (put_job job jobs)) states
put_job-current job jobs [] k h = tt
put_job-current job jobs (s ∷ states) k h = (
  All-update_where (λ j. is_current s j ≡ true) (λ j. j.id == job.id) (λ j. job) jobs
      (λ j same old. k.0) h.0,
  put_job-current job jobs states k.1 h.1,
)

write_job-IsSound :
    (q : Queue) (job : ClusterJob)
    → IsSound q
    → All (λ s. is_current s job ≡ true) q.states
    → claims_active job ≡ true
    → any (λ s. s.id == job.state_id) q.states ≡ true
    → IsSound (record q { jobs = put_job job q.jobs })
write_job-IsSound q job sound current claims known = record {
  current = put_job-current job q.jobs q.states current sound.current;
  settled = sound.settled;
  claims =
      All-update_where (λ j. claims_active j ≡ true) (λ j. j.id == job.id) (λ j. job) q.jobs
        (λ j same old. claims) sound.claims;
  known =
      All-update_where (λ j. any (λ s. s.id == j.state_id) q.states ≡ true) (λ j. j.id == job.id)
        (λ j. job) q.jobs (λ j same old. known) sound.known;
}

pub write_state-IsSound :
    (q : Queue) (state : ArticleClusterState)
    → IsSound q
    → All (λ j. is_current state j ≡ true) q.jobs
    → is_settled state ≡ true
    → IsSound (record q { states = put_state state q.states })
write_state-IsSound q state sound current settled = record {
  current = put_state-current state q.states q.jobs sound.current current;
  settled =
      All-update_where (λ s. is_settled s ≡ true) (λ s. s.id == state.id) (λ s. state) q.states
        (λ s same old. settled) sound.settled;
  claims = sound.claims;
  known = put_state-known state q.states q.jobs sound.known;
}

-- The row of a job that is finished, or still active, is current where the job was.
with_row-current :
    (job : ClusterJob) (row : Row) (states : List ArticleClusterState)
    → is_active row.status ≡ false ⊎ (is_active job.row.status ≡ true)
    → All (λ s. is_current s job ≡ true) states
    → All (λ s. is_current s (with_row job row) ≡ true) states
with_row-current job row [] k h = tt
with_row-current job row (s ∷ states) (inl k) h =
    (ground arith, with_row-current job row states (inl k) h.1)
with_row-current job row (s ∷ states) (inr k) h =
    (ground (arith, h.0), with_row-current job row states (inr k) h.1)

pub find_job-write :
    (q : Queue) (id : ℕ) (job : ClusterJob) (row : Row)
    → IsSound q
    → find_job q id ≡ some job
    → is_active row.status ≡ false ⊎ (is_active job.row.status ≡ true)
    → claims_active (with_row job row) ≡ true
    → IsSound (record q { jobs = put_job (with_row job row) q.jobs })
find_job-write q id job row sound e k claims =
    write_job-IsSound q (with_row job row) sound
      (with_row-current job row q.states k (current_job q (λ j. j.id == id) job sound e)) claims
      (All-find (λ j. any (λ s. s.id == j.state_id) q.states ≡ true) (λ j. j.id == id) q.jobs job e
        sound.known).0

pub find_state-current :
    (q : Queue) (id : ℕ) (state : ArticleClusterState)
    → IsSound q
    → find_state q id ≡ some state
    → All (λ j. is_current state j ≡ true) q.jobs
find_state-current q id state sound e =
    (All-find (λ s. All (λ j. is_current s j ≡ true) q.jobs) (λ s. s.id == id) q.states state e
      sound.current).0

pub find_state-settled :
    (q : Queue) (id : ℕ) (state : ArticleClusterState)
    → IsSound q
    → find_state q id ≡ some state
    → is_settled state ≡ true
find_state-settled q id state sound e =
    (All-find (λ s. is_settled s ≡ true) (λ s. s.id == id) q.states state e sound.settled).0

pub find_job-claims :
    (q : Queue) (id : ℕ) (job : ClusterJob)
    → IsSound q
    → find_job q id ≡ some job
    → claims_active job ≡ true
find_job-claims q id job sound e =
    (All-find (λ j. claims_active j ≡ true) (λ j. j.id == id) q.jobs job e sound.claims).0

pub holds-active :
    (job : ClusterJob) (token now : ℕ)
    → claims_active job ≡ true
    → holds job.row token now ≡ true
    → is_active job.row.status ≡ true
unfolding holds
holds-active job token now claims h = ground arith
