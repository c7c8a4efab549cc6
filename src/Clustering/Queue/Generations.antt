-- ===== src/Clustering/Queue/Generations.antt =====
-- What holds of the states and the jobs of the queue after any sequence of requests, claims,
-- renewals, publications and failures (backend/app/clustering/service.py and execution.py).

use newsintel.Prelude.Every.{All-update_where}
use newsintel.Jobs.Leasing.{is_succeeded, is_active}
use newsintel.Clustering.Queue.{
  ArticleClusterState, ClusterJob, Queue, put_state, supersede, requested_again, LoadedJob,
}
use newsintel.Prelude.{
  refl, ℕ, Bool, All, List, not, leb, ◌≡◌, any, ◌==◌, ◌&&◌, is_some, true, ◌||◌, ◌∷◌, arith, [],
  ◌∙◌,
}

-- The job is finished, or it is of the generation that its state last asked for.
abbrev pub is_current : ArticleClusterState → ClusterJob → Bool
is_current state job =
    not (job.state_id == state.id)
    || (not (is_active job.row.status) || job.generation == state.requested_generation)

-- No generation is completed before it is asked for, and a state that has succeeded has completed
-- the generation last asked for.
abbrev pub is_settled : ArticleClusterState → Bool
is_settled state =
    leb state.completed_generation state.requested_generation
    && (not (is_succeeded state.status) || state.completed_generation == state.requested_generation)

-- Only a job that is not finished has a claim.
abbrev pub claims_active : ClusterJob → Bool
claims_active job = not (is_some job.row.claim_token) || is_active job.row.status

-- The row of the loaded job still has the state and the generation that were loaded: no operation
-- writes these columns.
abbrev pub is_loaded_from : LoadedJob → ClusterJob → Bool
is_loaded_from loaded job =
    not (job.id == loaded.job_id)
    || (job.state_id == loaded.state_id && job.generation == loaded.generation)

pub record IsSound (q : Queue) : Type 0 where
  pub current : All (λ s. All (λ j. is_current s j ≡ true) q.jobs) q.states
  pub settled : All (λ s. is_settled s ≡ true) q.states
  pub claims : All (λ j. claims_active j ≡ true) q.jobs
  pub known : All (λ j. any (λ s. s.id == j.state_id) q.states ≡ true) q.jobs

pub any-put_state :
    (state : ArticleClusterState) (states : List ArticleClusterState) (id : ℕ)
    → any (λ s. s.id == id) (put_state state states) ≡ any (λ s. s.id == id) states
any-put_state state [] id = refl
any-put_state state (s ∷ states) id = ground (arith, any-put_state state states id)

pub supersede-current :
    (state : ArticleClusterState) (jobs : List ClusterJob)
    → All (λ j. is_current (requested_again state) j ≡ true) (supersede state.id jobs)
unfolding supersede
supersede-current state [] = tt
supersede-current state (j ∷ jobs) = (ground arith, supersede-current state jobs)

pub supersede-keeps :
    (state_id : ℕ) (s : ArticleClusterState) (jobs : List ClusterJob)
    → All (λ j. is_current s j ≡ true) jobs
    → All (λ j. is_current s j ≡ true) (supersede state_id jobs)
unfolding supersede
supersede-keeps state_id s [] h = tt
supersede-keeps state_id s (j ∷ jobs) h = (ground arith, supersede-keeps state_id s jobs h.1)

pub supersede-claims :
    (state_id : ℕ) (jobs : List ClusterJob)
    → All (λ j. claims_active j ≡ true) jobs
    → All (λ j. claims_active j ≡ true) (supersede state_id jobs)
unfolding supersede
supersede-claims state_id [] h = tt
supersede-claims state_id (j ∷ jobs) h = (ground arith, supersede-claims state_id jobs h.1)

pub supersede-known :
    (state_id : ℕ) (states : List ArticleClusterState) (jobs : List ClusterJob)
    → All (λ j. any (λ s. s.id == j.state_id) states ≡ true) jobs
    → All (λ j. any (λ s. s.id == j.state_id) states ≡ true) (supersede state_id jobs)
unfolding supersede
supersede-known state_id states [] h = tt
supersede-known state_id states (j ∷ jobs) h =
    (ground (arith, h.0), supersede-known state_id states jobs h.1)

pub put_state-current :
    (state : ArticleClusterState) (states : List ArticleClusterState) (jobs : List ClusterJob)
    → All (λ s. All (λ j. is_current s j ≡ true) jobs) states
    → All (λ j. is_current state j ≡ true) jobs
    → All (λ s. All (λ j. is_current s j ≡ true) jobs) (put_state state states)
put_state-current state states jobs h k =
    All-update_where (λ s. All (λ j. is_current s j ≡ true) jobs) (λ s. s.id == state.id)
      (λ s. state) states (λ s same old. k) h

pub put_state-known :
    (state : ArticleClusterState) (states : List ArticleClusterState) (jobs : List ClusterJob)
    → All (λ j. any (λ s. s.id == j.state_id) states ≡ true) jobs
    → All (λ j. any (λ s. s.id == j.state_id) (put_state state states) ≡ true) jobs
put_state-known state states [] h = tt
put_state-known state states (j ∷ jobs) h =
    (any-put_state state states j.state_id ∙ h.0, put_state-known state states jobs h.1)
