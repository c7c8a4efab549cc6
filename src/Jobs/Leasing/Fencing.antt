-- ===== src/Jobs/Leasing/Fencing.antt =====
-- The life of one queue row under any interleaving of workers, sweeps and requests: a step for
-- each way in which the queues of articles, annotations, clustering and search deliveries change a
-- row. Every token is drawn fresh, as `uuid4` promises.
use newsintel.Prelude.{
  ℕ, ◌+◌, ◌≡◌, Bool, true, false, none, some, List, ◌∷◌, arith, member, eq_opt, ◌||◌, is_some, not,
  Option,
}
use newsintel.Jobs.Leasing.{
  Status, is_active, Row, Retries, Failure, claimable, claim, holds, release, renew, record_failure,
  leased,
}

-- The row, the clock and the tokens that were ever issued for it.
pub record World : Type 0 where
  pub row : Row
  pub now : ℕ
  pub issued : List ℕ

-- What a worker whose token stands in the row, a sweep or a request may do next. The worker of the
-- search deliveries tests the token alone before it ends an attempt (search/indexing.py), the
-- others test the lease too; the guard here is what all of them test.
pub data Step (w : World) : World → Type 0 where
  ticks : (d : ℕ) → Step w (record w { now = w.now + d })
  claims :
      (token lease : ℕ) (count_attempt : Bool)
      → member token w.issued ≡ false
      → claimable w.row w.now ≡ true
      → Step w (record w {
        row = claim w.row token w.now lease count_attempt;
        issued = token ∷ w.issued;
      })
  renews :
      (token lease : ℕ) (row' : Row)
      → renew w.row token w.now lease ≡ some row'
      → Step w (record w { row = row' })
  finishes :
      (token : ℕ)
      → eq_opt w.row.claim_token (some token) ≡ true
      → Step w (record w { row = record (release w.row) { status = Status.succeeded } })
  fails :
      (token : ℕ) (failure : Failure) (retries : Retries) (attempts : ℕ)
      → eq_opt w.row.claim_token (some token) ≡ true
      → Step w (record w { row = record_failure w.row w.now failure retries attempts })
  -- A newer revision was asked for meanwhile (search/indexing.py): the row stays queued.
  lets_go :
      (token : ℕ)
      → eq_opt w.row.claim_token (some token) ≡ true
      → Step w (record w { row = release w.row })
  -- A fetched article goes on with its extraction, or one whose page is gone is fetched again
  -- (articles/processing.py).
  goes_on :
      (token due : ℕ)
      → eq_opt w.row.claim_token (some token) ≡ true
      → Step w (record w {
        row = record (release w.row) { status = Status.queued; next_attempt_at = due };
      })
  supersedes : Step w (record w { row = record (release w.row) { status = Status.superseded } })
  -- The columns that no claim reads may change at any time.
  notes :
      (attempts : ℕ) (category message : Option (List ℕ)) (completed : Option (Option ℕ))
      → Step w (record w {
        row = record w.row {
          attempt_count = attempts;
          error_category = category;
          error_message = message;
          completed_at = completed;
        };
      })
  -- A claim that finds the job's generation outdated: the claim columns stay as they were
  -- (`claim_job` of clustering/service.py and nlp/service.py).
  gives_up :
      claimable w.row w.now ≡ true
      → Step w (record w { row = record w.row { status = Status.superseded } })
  requeues :
      Step w (record w { row = record w.row { status = Status.queued; next_attempt_at = w.now } })

pub data Reach (v : World) : World → Type 0 where
  here : Reach v v
  next : {w x : World} → Reach v w → Step w x → Reach v x

-- A token that is issued and no longer stands in the row.
pub record Lost (token : ℕ) (w : World) : Type 0 where
  pub was_issued : member token w.issued ≡ true
  pub replaced : eq_opt w.row.claim_token (some token) ≡ false

Step-Lost : (token : ℕ) {v w : World} → Step v w → Lost token v → Lost token w
unfolding claim renew release record_failure
Step-Lost token (ticks d) h = ground arith
Step-Lost token (claims t lease count_attempt fresh free) h = ground arith
Step-Lost token (renews t lease row' e) h = ground arith
Step-Lost token (finishes t held) h = ground arith
Step-Lost token (fails t failure retries attempts held) h = ground arith
Step-Lost token (lets_go t held) h = ground arith
Step-Lost token (goes_on t due held) h = ground arith
Step-Lost token (notes attempts category message completed) h = ground arith
Step-Lost token (gives_up free) h = ground arith
Step-Lost token supersedes h = ground arith
Step-Lost token requeues h = ground arith

Reach-Lost : (token : ℕ) {v w : World} → Reach v w → Lost token v → Lost token w
Reach-Lost token here h = h
Reach-Lost token (next r st) h = Step-Lost token st (Reach-Lost token r h)

-- Once a token no longer stands in the row, it never holds the row again, after any sequence of
-- steps, so a worker whose claim was taken over can neither finish, fail nor renew the row.
pub lost_token_never_holds :
    (token lease : ℕ) (v w : World)
    → Reach v w
    → member token v.issued ≡ true
    → eq_opt v.row.claim_token (some token) ≡ false
    → (holds w.row token w.now ≡ false) × (renew w.row token w.now lease ≡ none)
unfolding holds renew
lost_token_never_holds token lease v w r issued replaced =
    let l : Lost token w =
      Reach-Lost token r (record { was_issued = issued; replaced = replaced }) in
    let e : eq_opt w.row.claim_token (some token) ≡ false = l.replaced in ground arith

-- `row.status` is one that a worker's outcome ends a row with.
abbrev pub is_done : Status → Bool
is_done Status.succeeded = true
is_done Status.failed = true
is_done _ = false

-- A claim's two columns are set and cleared together, a row that has succeeded or failed has none,
-- and what a row that is not active may still have in them has run out.
pub record IsConsistent (w : World) : Type 0 where
  pub together : is_some w.row.claim_token ≡ is_some w.row.claim_expires_at
  pub done : (not (is_done w.row.status) || not (is_some w.row.claim_token)) ≡ true
  pub lapsed : (is_active w.row.status || not (leased w.row w.now)) ≡ true

Step-IsConsistent : {v w : World} → Step v w → IsConsistent v → IsConsistent w
unfolding claim claimable renew holds leased release record_failure
Step-IsConsistent (ticks d) h = ground arith
Step-IsConsistent (claims t lease count_attempt fresh free) h = ground arith
Step-IsConsistent (renews t lease row' e) h = ground arith
Step-IsConsistent (finishes t held) h = ground arith
Step-IsConsistent (fails t failure retries attempts held) h = ground arith
Step-IsConsistent (lets_go t held) h = ground arith
Step-IsConsistent (goes_on t due held) h = ground arith
Step-IsConsistent (notes attempts category message completed) h = ground arith
Step-IsConsistent (gives_up free) h = ground arith
Step-IsConsistent supersedes h = ground arith
Step-IsConsistent requeues h = ground arith

keeps_IsConsistent : {v w : World} → Reach v w → IsConsistent v → IsConsistent w
keeps_IsConsistent here h = h
keeps_IsConsistent (next r st) h = Step-IsConsistent st (keeps_IsConsistent r h)

-- From a consistent row every sequence of steps leads to a consistent row: the claim's columns are
-- set and cleared together, a row that has succeeded or failed has no claim, and a superseded one
-- may keep a claim only after its lease has run out.
pub Reach-IsConsistent : (v w : World) → Reach v w → IsConsistent v → IsConsistent w
Reach-IsConsistent v w r h = keeps_IsConsistent r h
