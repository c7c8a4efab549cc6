-- ===== src/Clustering/Queue/Grows.antt =====
-- No transaction on the queue loses a state or asks for an older generation
-- (backend/app/clustering/service.py and execution.py).
use mathlib.Core.Option.{some-injective}
use newsintel.Prelude.Chain.{>>=-eq-some}
use newsintel.Clustering.Queue.Requests.{find-any_id}
use newsintel.Jobs.Leasing.{Status, Failure, claimable, holds, renew, record_failure}
use newsintel.Clustering.Queue.{
  ArticleClusterState, put_state, Queue, ClusterJob, request_on, find_state, claim_found,
  set_status, renew_found, LoadedJob, new_state, claim_under, with_status, fail_found,
  publish_found, requested_again, cluster_retries, completed, put_job, with_row, succeeded_row,
}
use newsintel.Prelude.{
  ℕ, refl, ◌≡◌, ◌∙◌, ◌≤◌, arith, List, Option, ◌∷◌, some, find, subst, any, Bool, ◌==◌, none, sym,
  Bool-cases, if◌then◌else◌, false, [], inl, ◌&&◌, inr, is_some, ==_refl, ap, then_branch,
}

-- The primary key of `article_cluster_states`.
abbrev pub IsKeyed : List ArticleClusterState → Type 0
IsKeyed [] = Unit
IsKeyed (s ∷ states) = (any (λ x. x.id == s.id) states ≡ false) × IsKeyed states

abbrev pub generation_in : Option ArticleClusterState → ℕ
generation_in none = 0
generation_in (some s) = s.requested_generation

-- The generation that the state with that id was last asked for, 0 without one.
abbrev pub asked_of : List ArticleClusterState → ℕ → ℕ
asked_of states id = generation_in (find (λ s. s.id == id) states)

-- No state goes, and none is asked for less than before.
abbrev pub Grows : List ArticleClusterState → List ArticleClusterState → Type 0
Grows states states' =
    IsKeyed states → IsKeyed states' × ((id : ℕ) → asked_of states id ≤ asked_of states' id)

pub same-Grows :
    (states states' : List ArticleClusterState) → states' ≡ states → Grows states states'
same-Grows states states' e keyed = (
  subst IsKeyed (sym e) keyed,
  λ id. subst (λ x. asked_of states id ≤ asked_of x id) (sym e) (omega arith),
)

find-absent :
    (id : ℕ) (states : List ArticleClusterState)
    → any (λ s. s.id == id) states ≡ false
    → find (λ s. s.id == id) states ≡ none
find-absent id [] h = refl
find-absent id (s ∷ states) h = ground (arith, find-absent id states)

any-put_state :
    (s : ArticleClusterState) (states : List ArticleClusterState) (id : ℕ)
    → any (λ x. x.id == id) (put_state s states) ≡ any (λ x. x.id == id) states
any-put_state s [] id = refl
any-put_state s (x ∷ states) id = ground (arith, any-put_state s states id)

pub put_state-IsKeyed :
    (s : ArticleClusterState) (states : List ArticleClusterState)
    → IsKeyed states
    → IsKeyed (put_state s states)
put_state-IsKeyed s [] h = tt
put_state-IsKeyed s (x ∷ states) h = elim (Bool-cases (x.id == s.id)) [
  | inl t ↦ rw t (
    any-put_state s states s.id
        ∙ subst (λ i. any (λ y. y.id == i) states ≡ false) (ground arith) h.0,
    put_state-IsKeyed s states h.1,
  )
  | inr n ↦ rw n (any-put_state s states x.id ∙ h.0, put_state-IsKeyed s states h.1)
]

pub asked_of-put_state :
    (s : ArticleClusterState) (states : List ArticleClusterState) (id : ℕ)
    → asked_of (put_state s states) id ≡ (
        if id == s.id && is_some (find (λ x. x.id == id) states)
        then s.requested_generation
        else asked_of states id)
asked_of-put_state s [] id = ground arith
asked_of-put_state s (x ∷ states) id = ground (arith, asked_of-put_state s states id)

-- A state that is found by any column is the one of its id.
pub find-keyed :
    (p : ArticleClusterState → Bool) (states : List ArticleClusterState) (s : ArticleClusterState)
    → IsKeyed states
    → find p states ≡ some s
    → find (λ x. x.id == s.id) states ≡ some s
find-keyed p [] s keyed h = cc
find-keyed p (x ∷ states) s keyed h = elim (Bool-cases (p x)) [
  | inl t ↦
      let same : x ≡ s = ground arith in
      subst (λ z. find (λ y. y.id == z.id) (x ∷ states) ≡ some z) same (rw (==_refl x.id) refl)
  | inr n ↦
      let found : find p states ≡ some s = ground arith in
      let rest = find-keyed p states s keyed.1 found in
      elim (Bool-cases (x.id == s.id)) [
        | inl t ↦
            let there = find-any_id p states s found in
            let gone : any (λ y. y.id == s.id) states ≡ false =
              subst (λ i. any (λ y. y.id == i) states ≡ false) (ground arith) keyed.0 in
            ground arith
        | inr e ↦ rw e rest
      ]
]

put_state-Grows :
    (p : ArticleClusterState → Bool) (states : List ArticleClusterState)
    (s s' : ArticleClusterState)
    → find p states ≡ some s
    → s'.id ≡ s.id
    → s.requested_generation ≤ s'.requested_generation
    → Grows states (put_state s' states)
put_state-Grows p states s s' found own le keyed = (
  put_state-IsKeyed s' states keyed,
  λ id.
      let after = asked_of-put_state s' states id in
      let at = find-keyed p states s keyed found in
      elim (Bool-cases (id == s'.id)) [
        | inl t ↦
            let found' : find (λ x. x.id == id) states ≡ some s =
              subst (λ i. find (λ x. x.id == i) states ≡ some s) (ground arith) at in
            let was : asked_of states id ≡ s.requested_generation = ap generation_in found' in
            ground (arith, after, found', was)
        | inr n ↦ ground (arith, after)
      ],
)

add_state-Grows :
    (s : ArticleClusterState) (states : List ArticleClusterState)
    → any (λ x. x.id == s.id) states ≡ false
    → Grows states (s ∷ states)
add_state-Grows s states fresh keyed = (
  (fresh, keyed),
  λ id. elim (Bool-cases (s.id == id)) [
    | inl t ↦
        let gone : asked_of states id ≡ 0 = ap generation_in (
          find-absent id states
            (subst (λ i. any (λ x. x.id == i) states ≡ false) (ground arith) fresh)) in
        rw t (omega arith)
    | inr n ↦ rw n (omega arith)
  ],
)

pub request_on-Grows :
    (found : Option ArticleClusterState) (q : Queue) (article_id state_id job_id now : ℕ)
    → find (λ s. s.article_id == article_id) q.states ≡ found
    → any (λ s. s.id == state_id) q.states ≡ false
    → Grows q.states (request_on found q article_id state_id job_id now).states
request_on-Grows none q article_id state_id job_id now h fresh =
    add_state-Grows (new_state state_id article_id) q.states fresh
request_on-Grows (some s) q article_id state_id job_id now h fresh =
    put_state-Grows (λ s. s.article_id == article_id) q.states s (requested_again s) h refl
      (omega arith)

claim_under-Grows :
    (found : Option ArticleClusterState) (q : Queue) (job : ClusterJob) (token now lease : ℕ)
    → find_state q job.state_id ≡ found
    → Grows q.states (claim_under found q job token now lease).0.states
claim_under-Grows none q job token now lease h = same-Grows q.states q.states refl
claim_under-Grows (some s) q job token now lease h =
    elim (Bool-cases (s.requested_generation == job.generation)) [
      | inl t ↦ rw t (
          put_state-Grows (λ x. x.id == job.state_id) q.states s (with_status s Status.running) h
            refl (omega arith))
      | inr n ↦ rw n (same-Grows q.states q.states refl)
    ]

pub claim_found-Grows :
    (found : Option ClusterJob) (q : Queue) (token now lease : ℕ)
    → Grows q.states (claim_found found q token now lease).0.states
claim_found-Grows none q token now lease = same-Grows q.states q.states refl
claim_found-Grows (some job) q token now lease = elim (Bool-cases (claimable job.row now)) [
  | inl t ↦ rw t (claim_under-Grows (find_state q job.state_id) q job token now lease refl)
  | inr n ↦ rw n (same-Grows q.states q.states refl)
]

set_status-Grows :
    (found : Option ArticleClusterState) (id : ℕ) (status : Status)
    (states : List ArticleClusterState)
    → find (λ x. x.id == id) states ≡ found
    → Grows states (set_status found status states)
set_status-Grows none id status states h = same-Grows states states refl
set_status-Grows (some s) id status states h =
    put_state-Grows (λ x. x.id == id) states s (with_status s status) h refl (omega arith)

pub fail_found-Grows :
    (found : Option ClusterJob) (q : Queue) (token now : ℕ) (failure : Failure)
    → Grows q.states (fail_found found q token now failure).states
fail_found-Grows none q token now failure = same-Grows q.states q.states refl
fail_found-Grows (some job) q token now failure = elim (Bool-cases (holds job.row token now)) [
  | inl t ↦ rw t (
      set_status-Grows (find_state q job.state_id) job.state_id
        (record_failure job.row now failure cluster_retries job.row.attempt_count).status q.states
        refl)
  | inr n ↦ rw n (same-Grows q.states q.states refl)
]

pub renew_found-states :
    (found : Option ClusterJob) (q q' : Queue) (token now lease : ℕ)
    → renew_found found q token now lease ≡ some q'
    → q'.states ≡ q.states
renew_found-states none q q' token now lease h = cc
renew_found-states (some job) q q' token now lease h =
    let (row, e, same) = >>=-eq-some (renew job.row token now lease) _ h in
    sym (ap (λ (x : Queue). x.states) (some-injective _ _ same))

pub publish_found-Grows :
    (job : Option ClusterJob) (found : Option ArticleClusterState) (q q' : Queue)
    (loaded : LoadedJob) (token now : ℕ)
    → find_state q loaded.state_id ≡ found
    → publish_found job found q loaded token now ≡ some q'
    → Grows q.states q'.states
publish_found-Grows none found q q' loaded token now h e = cc
publish_found-Grows (some job) none q q' loaded token now h e = cc
publish_found-Grows (some job) (some s) q q' loaded token now h e =
    elim (Bool-cases (holds job.row token now && s.requested_generation == loaded.generation)) [
      | inl t ↦
          let written : Queue = record {
            states = put_state (completed s job) q.states;
            jobs = put_job (with_row job (succeeded_row job.row now)) q.jobs;
          } in
          let same : written ≡ q' = some-injective written q' (
            sym (
              then_branch (holds job.row token now && s.requested_generation == loaded.generation)
                (some written) none t)
            ∙ e) in
          subst (λ (x : Queue). Grows q.states x.states) same
            (put_state-Grows (λ x. x.id == loaded.state_id) q.states s (completed s job) h refl
              (omega arith))
      | inr n ↦ ground arith
    ]
