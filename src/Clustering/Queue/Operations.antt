-- ===== src/Clustering/Queue/Operations.antt =====
-- Every operation of backend/app/clustering/service.py and execution.py on a job that exists keeps the
-- queue sound.
use newsintel.Clustering.Queue.Sound.{
  find_job-write, write_state-IsSound, holds-active, find_state-current, find_job-claims,
  current_job, find_state-settled,
}
use newsintel.Prelude.Chain.{>>=-eq-some}
use mathlib.Core.Option.{some-injective}
use newsintel.Prelude.Every.{All-find, any-find-none}
use newsintel.Clustering.Queue.Generations.{
  IsSound, claims_active, is_current, is_settled, is_loaded_from,
}
use newsintel.Jobs.Leasing.{
  holds, Row, Failure, is_active, claimable, release, renew, record_failure, Status, claim, Retries,
  is_succeeded,
}
use newsintel.Clustering.Queue.{
  Queue, ClusterJob, publish, renew_lease, fail_job, claim_job, ArticleClusterState, LoadedJob,
  find_job, find_state, put_job, put_state, with_row, publish_found, renew_found, fail_found,
  claim_found, claim_under, succeeded_row, cluster_retries, completed, set_status, with_status,
}
use newsintel.Prelude.{
  ℕ, All, ◌≡◌, some, false, true, any, arith, ◌==◌, inl, inr, subst, Option, Bool-cases, refl, none,
  ◌&&◌, is_some, sym, ◌∙◌, then_branch,
}

loaded_generation :
    (q : Queue) (loaded : LoadedJob) (job : ClusterJob)
    → All (λ j. is_loaded_from loaded j ≡ true) q.jobs
    → find_job q loaded.job_id ≡ some job
    → job.generation ≡ loaded.generation
loaded_generation q loaded job same e =
    let (from, found) =
      All-find (λ j. is_loaded_from loaded j ≡ true) (λ j. j.id == loaded.job_id) q.jobs job e
        same in
    ground arith

some-IsSound : (x y : Queue) → some x ≡ some y → IsSound x → IsSound y
some-IsSound x y e sound = subst IsSound (some-injective x y e) sound

publish_found-IsSound :
    (q : Queue) (loaded : LoadedJob) (token now : ℕ) (q' : Queue) (job : Option ClusterJob)
    (state : Option ArticleClusterState)
    → IsSound q
    → All (λ j. is_loaded_from loaded j ≡ true) q.jobs
    → find_job q loaded.job_id ≡ job
    → find_state q loaded.state_id ≡ state
    → publish_found job state q loaded token now ≡ some q'
    → IsSound q'
unfolding release
publish_found-IsSound q loaded token now q' none state sound same e e' h = cc
publish_found-IsSound q loaded token now q' (some job) none sound same e e' h = cc
publish_found-IsSound q loaded token now q' (some job) (some state) sound same e e' h =
    elim (Bool-cases (holds job.row token now && state.requested_generation == loaded.generation)) [
      | inl c ↦
          (let row = succeeded_row job.row now in
            let jobs = put_job (with_row job row) q.jobs in
            let sound1 = find_job-write q loaded.job_id job row sound e (inl refl) refl in
            let gen = loaded_generation q loaded job same e in
            let settled : is_settled (completed state job) ≡ true = ground arith in
            some-IsSound (record { states = put_state (completed state job) q.states; jobs = jobs })
              q'
              (sym (
                  then_branch
                    (holds job.row token now && state.requested_generation == loaded.generation)
                    (some
                      (record { states = put_state (completed state job) q.states; jobs = jobs }))
                    none c)
                ∙ h)
              (write_state-IsSound (record q { jobs = jobs }) (completed state job) sound1
                (find_state-current (record q { jobs = jobs }) loaded.state_id state sound1 e')
                settled))
      | inr c ↦ ground arith
    ]

pub publish-IsSound :
    (q : Queue) (loaded : LoadedJob) (token now : ℕ) (q' : Queue)
    → IsSound q
    → All (λ j. is_loaded_from loaded j ≡ true) q.jobs
    → publish q loaded token now ≡ some q'
    → IsSound q'
unfolding publish
publish-IsSound q loaded token now q' sound same h =
    publish_found-IsSound q loaded token now q' (find_job q loaded.job_id)
      (find_state q loaded.state_id) sound same refl refl h

renew-active :
    (row : Row) (token now lease : ℕ) (row' : Row)
    → renew row token now lease ≡ some row'
    → (is_active row.status ≡ true) × (is_active row'.status ≡ true)
unfolding renew
renew-active row token now lease row' h = ground arith

active-claims :
    (job : ClusterJob) (row : Row)
    → is_active row.status ≡ true
    → claims_active (with_row job row) ≡ true
active-claims job row h = ground arith

renew_found-IsSound :
    (q : Queue) (job_id token now lease : ℕ) (q' : Queue) (job : Option ClusterJob)
    → IsSound q
    → find_job q job_id ≡ job
    → renew_found job q token now lease ≡ some q'
    → IsSound q'
renew_found-IsSound q job_id token now lease q' none sound e h = cc
renew_found-IsSound q job_id token now lease q' (some job) sound e h =
    let (row, r, h') =
      >>=-eq-some (renew job.row token now lease)
        (λ row. some (record q { jobs = put_job (with_row job row) q.jobs })) h in
    let active = renew-active job.row token now lease row r in
    some-IsSound (record q { jobs = put_job (with_row job row) q.jobs }) q' h'
      (find_job-write q job_id job row sound e (inr active.0) (active-claims job row active.1))

pub renew_lease-IsSound :
    (q : Queue) (job_id token now lease : ℕ) (q' : Queue)
    → IsSound q
    → renew_lease q job_id token now lease ≡ some q'
    → IsSound q'
unfolding renew_lease
renew_lease-IsSound q job_id token now lease q' sound h =
    renew_found-IsSound q job_id token now lease q' (find_job q job_id) sound refl h

record_failure-released :
    (row : Row) (now : ℕ) (failure : Failure) (retries : Retries) (attempts : ℕ)
    → (is_some (record_failure row now failure retries attempts).claim_token ≡ false)
      × (is_succeeded (record_failure row now failure retries attempts).status ≡ false)
unfolding record_failure release
record_failure-released row now failure retries attempts = ground arith

set_status-IsSound :
    (q : Queue) (id : ℕ) (state : Option ArticleClusterState) (status : Status)
    → IsSound q
    → find_state q id ≡ state
    → is_succeeded status ≡ false
    → IsSound (record q { states = set_status state status q.states })
set_status-IsSound q id none status sound e h = sound
set_status-IsSound q id (some state) status sound e h =
    write_state-IsSound q (with_status state status) sound (find_state-current q id state sound e)
      (ground (arith, find_state-settled q id state sound e))

fail_found-IsSound :
    (q : Queue) (job_id token now : ℕ) (failure : Failure) (job : Option ClusterJob)
    → IsSound q
    → find_job q job_id ≡ job
    → IsSound (fail_found job q token now failure)
fail_found-IsSound q job_id token now failure none sound e = sound
fail_found-IsSound q job_id token now failure (some job) sound e =
    elim (Bool-cases (holds job.row token now)) [
      | inl c ↦
          let row = record_failure job.row now failure cluster_retries job.row.attempt_count in
          let free =
            record_failure-released job.row now failure cluster_retries job.row.attempt_count in
          let active = holds-active job token now (find_job-claims q job_id job sound e) c in
          rw c (
            set_status-IsSound (record q { jobs = put_job (with_row job row) q.jobs }) job.state_id
              (find_state q job.state_id) row.status
              (find_job-write q job_id job row sound e (inr active) (ground arith)) refl free.1)
      | inr c ↦ rw c sound
    ]

pub fail_job-IsSound :
    (q : Queue) (job_id token now : ℕ) (failure : Failure)
    → IsSound q
    → IsSound (fail_job q job_id token now failure)
unfolding fail_job
fail_job-IsSound q job_id token now failure sound =
    fail_found-IsSound q job_id token now failure (find_job q job_id) sound refl

claimable-active : (row : Row) (now : ℕ) → claimable row now ≡ true → is_active row.status ≡ true
unfolding claimable
claimable-active row now h = ground arith

claim-active :
    (row : Row) (token now lease : ℕ) → is_active (claim row token now lease true).status ≡ true
unfolding claim
claim-active row token now lease = refl

claim_under-IsSound :
    (q : Queue) (job_id token now lease : ℕ) (job : ClusterJob) (state : Option ArticleClusterState)
    → IsSound q
    → find_job q job_id ≡ some job
    → find_state q job.state_id ≡ state
    → claimable job.row now ≡ true
    → IsSound (claim_under state q job token now lease).0
claim_under-IsSound q job_id token now lease job none sound e e' c =
    let known =
      (All-find (λ j. any (λ s. s.id == j.state_id) q.states ≡ true) (λ j. j.id == job_id) q.jobs
        job e sound.known).0 in
    let unknown = any-find-none (λ s. s.id == job.state_id) q.states e' in cc
claim_under-IsSound q job_id token now lease job (some state) sound e e' c =
    elim (Bool-cases (state.requested_generation == job.generation)) [
      | inl g ↦
          (let row = claim job.row token now lease true in
            let sound1 =
              find_job-write q job_id job row sound e (inr (claimable-active job.row now c))
                (active-claims job row (claim-active job.row token now lease)) in
            rw g (
              set_status-IsSound (record q { jobs = put_job (with_row job row) q.jobs })
                job.state_id (some state) Status.running sound1 e' refl))
      | inr g ↦
          (let active = claimable-active job.row now c in
            let here =
              (All-find (λ s. is_current s job ≡ true) (λ s. s.id == job.state_id) q.states state e'
                (current_job q (λ j. j.id == job_id) job sound e)) in
            let wrong : true ≡ false = ground (arith, here.0, here.1) in cc)
    ]

claim_found-IsSound :
    (q : Queue) (job_id token now lease : ℕ) (job : Option ClusterJob)
    → IsSound q
    → find_job q job_id ≡ job
    → IsSound (claim_found job q token now lease).0
claim_found-IsSound q job_id token now lease none sound e = sound
claim_found-IsSound q job_id token now lease (some job) sound e =
    elim (Bool-cases (claimable job.row now)) [
      | inl c ↦ rw c (
          claim_under-IsSound q job_id token now lease job (find_state q job.state_id) sound e refl
            c)
      | inr c ↦ rw c sound
    ]

pub claim_job-IsSound :
    (q : Queue) (job_id token now lease : ℕ)
    → IsSound q
    → IsSound (claim_job q job_id token now lease).0
unfolding claim_job
claim_job-IsSound q job_id token now lease sound =
    claim_found-IsSound q job_id token now lease (find_job q job_id) sound refl
