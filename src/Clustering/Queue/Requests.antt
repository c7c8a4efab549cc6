-- ===== src/Clustering/Queue/Requests.antt =====
-- What a request does to the queue (`request_clustering` of backend/app/clustering/service.py).
use newsintel.Jobs.Leasing.{is_active}
use newsintel.Prelude.Every.{All-update_where, All-find}
use newsintel.Clustering.Queue.Generations.{
  IsSound, is_settled, supersede-claims, is_current, supersede-current, put_state-known,
  supersede-keeps, supersede-known,
}
use newsintel.Clustering.Queue.{
  Queue, request_clustering, ArticleClusterState, request_on, requested_again, ClusterJob, new_job,
  new_state, supersede, put_state,
}
use newsintel.Prelude.{
  ℕ, Option, any, [], ◌==◌, find, ◌≡◌, false, some, All, true, none, refl, List, Bool, arith, ◌∷◌,
  ◌+◌, Bool-cases, inl, sym, inr, subst, ◌∙◌, if◌then◌else◌, keep, ◌&&◌, ==_refl,
}

fresh_state-current :
    (state_id article_id : ℕ) (states : List ArticleClusterState) (jobs : List ClusterJob)
    → All (λ j. any (λ s. s.id == j.state_id) states ≡ true) jobs
    → any (λ s. s.id == state_id) states ≡ false
    → All (λ j. is_current (new_state state_id article_id) j ≡ true) jobs
fresh_state-current state_id article_id states [] h fresh = tt
fresh_state-current state_id article_id states (j ∷ jobs) h fresh = (
  elim (Bool-cases (j.state_id == state_id)) [
    | inl e ↦
        let same : j.state_id ≡ state_id = ground (arith, e) in
        let wrong : true ≡ false =
          sym (subst (λ id. any (λ s. s.id == id) states ≡ true) same h.0) ∙ fresh in
        cc
    | inr e ↦ ground arith
  ],
  fresh_state-current state_id article_id states jobs h.1 fresh,
)

add_job-current :
    (job : ClusterJob) (states : List ArticleClusterState) (jobs : List ClusterJob)
    → any (λ s. s.id == job.state_id) states ≡ false
    → All (λ s. All (λ j. is_current s j ≡ true) jobs) states
    → All (λ s. All (λ j. is_current s j ≡ true) (job ∷ jobs)) states
add_job-current job [] jobs fresh h = tt
add_job-current job (s ∷ states) jobs fresh h =
    ((ground arith, h.0), add_job-current job states jobs (ground arith) h.1)

add_state-known :
    (state : ArticleClusterState) (states : List ArticleClusterState) (jobs : List ClusterJob)
    → All (λ j. any (λ s. s.id == j.state_id) states ≡ true) jobs
    → All (λ j. any (λ s. s.id == j.state_id) (state ∷ states) ≡ true) jobs
add_state-known state states [] h = tt
add_state-known state states (j ∷ jobs) h =
    (ground (arith, h.0), add_state-known state states jobs h.1)

again_one :
    (state s : ArticleClusterState) (job : ClusterJob) (jobs : List ClusterJob) (same : Bool)
    → (s.id == state.id) ≡ same
    → job.state_id ≡ state.id
    → job.generation ≡ state.requested_generation + 1
    → All (λ j. is_current s j ≡ true) jobs
    → All
        (λ j. is_current (if same then requested_again state else s) j ≡ true)
        (job ∷ supersede state.id jobs)
again_one state s job jobs true e at gen h = (ground arith, supersede-current state jobs)
again_one state s job jobs false e at gen h = (ground arith, supersede-keeps state.id s jobs h)

again-current :
    (state : ArticleClusterState) (job : ClusterJob) (states : List ArticleClusterState)
    (jobs : List ClusterJob)
    → job.state_id ≡ state.id
    → job.generation ≡ state.requested_generation + 1
    → All (λ s. All (λ j. is_current s j ≡ true) jobs) states
    → All
        (λ s. All (λ j. is_current s j ≡ true) (job ∷ supersede state.id jobs))
        (put_state (requested_again state) states)
again-current state job [] jobs at gen h = tt
again-current state job (s ∷ states) jobs at gen h = (
  again_one state s job jobs (s.id == state.id) refl at gen h.0,
  again-current state job states jobs at gen h.1,
)

pub find-any_id :
    (p : ArticleClusterState → Bool) (states : List ArticleClusterState)
    (state : ArticleClusterState)
    → find p states ≡ some state
    → any (λ s. s.id == state.id) states ≡ true
find-any_id p [] state e = cc
find-any_id p (s ∷ states) state e = elim (Bool-cases (p s)) [
  | inl t ↦ let same : s.id ≡ state.id = ground arith in ground arith
  | inr f ↦ ground (arith, find-any_id p states state (ground arith))
]

again-settled :
    (state : ArticleClusterState)
    → is_settled state ≡ true
    → is_settled (requested_again state) ≡ true
again-settled state h = ground arith

request_on-IsSound :
    (q : Queue) (article_id state_id job_id now : ℕ) (found : Option ArticleClusterState)
    → IsSound q
    → find (λ s. s.article_id == article_id) q.states ≡ found
    → any (λ s. s.id == state_id) q.states ≡ false
    → IsSound (request_on found q article_id state_id job_id now)
request_on-IsSound q article_id state_id job_id now none sound e fresh = record {
  current = (
    (ground arith, fresh_state-current state_id article_id q.states q.jobs sound.known fresh),
    add_job-current (new_job (new_state state_id article_id) job_id now) q.states q.jobs fresh
        sound.current,
  );
  settled = (refl, sound.settled);
  claims = (refl, sound.claims);
  known =
      (ground arith, add_state-known (new_state state_id article_id) q.states q.jobs sound.known);
}
request_on-IsSound q article_id state_id job_id now (some state) sound e fresh = record {
  current =
      again-current state (new_job (requested_again state) job_id now) q.states q.jobs refl refl
        sound.current;
  settled =
      All-update_where (λ s. is_settled s ≡ true) (λ s. s.id == state.id)
        (λ s. requested_again state) q.states
        (λ s same old.
          again-settled state
            (All-find (λ s. is_settled s ≡ true) (λ s. s.article_id == article_id) q.states state e
              sound.settled).0)
        sound.settled;
  claims = (refl, supersede-claims state.id q.jobs sound.claims);
  known =
      put_state-known (requested_again state) q.states
        (new_job (requested_again state) job_id now ∷ supersede state.id q.jobs)
        (
          find-any_id (λ s. s.article_id == article_id) q.states state e,
          supersede-known state.id q.states q.jobs sound.known,
        );
}

pub request_clustering-IsSound :
    (q : Queue) (article_id state_id job_id now : ℕ)
    → IsSound q
    → any (λ s. s.id == state_id) q.states ≡ false
    → IsSound (request_clustering q article_id state_id job_id now)
unfolding request_clustering
request_clustering-IsSound q article_id state_id job_id now sound fresh =
    request_on-IsSound q article_id state_id job_id now
      (find (λ s. s.article_id == article_id) q.states) sound refl fresh

supersede-keep :
    (state_id : ℕ) (jobs : List ClusterJob)
    → keep (λ j. j.state_id == state_id && is_active j.row.status) (supersede state_id jobs) ≡ []
unfolding supersede
supersede-keep state_id [] = refl
supersede-keep state_id (j ∷ jobs) = ground (arith, supersede-keep state_id jobs)

-- However many jobs of an article are waiting or running, a new request leaves exactly one that is
-- not finished: the new one, which asks for the next generation.
pub request_clustering-keep :
    (q : Queue) (article_id state_id job_id now : ℕ) (state : ArticleClusterState)
    → find (λ s. s.article_id == article_id) q.states ≡ some state
    → keep
        (λ j. j.state_id == state.id && is_active j.row.status)
        (request_clustering q article_id state_id job_id now).jobs
      ≡ new_job (requested_again state) job_id now ∷ []
unfolding request_clustering
request_clustering-keep q article_id state_id job_id now state e =
    rw (e, supersede-keep state.id q.jobs, ==_refl state.id)
