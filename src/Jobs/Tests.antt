-- ===== src/Jobs/Tests.antt =====
-- Runs of the lease protocol of backend/app/jobs on a small queue.
use newsintel.Jobs.Leasing.Claims.{
  due-eq-claimable, claim_runs_out, claim_excludes, heartbeat_interval_bounds, renew_extends,
}
use newsintel.Jobs.Leasing.Retrying.{backoff_doubles, claim_passes_limit, record_failure-claimable}
use newsintel.Prelude.{
  ◌+◌, ◌*◌, ◌≡◌, refl, true, false, none, some, [], ◌∷◌, arith, min, ◌≤◌, if◌then◌else◌, ◌<◌, ◌==◌,
  max, leb, ◌||◌, take, is_some, ◌&&◌, ltb,
}
use newsintel.Prelude.Int.{pos}
use newsintel.Jobs.Leasing.{
  Status, Row, Retries, Failure, second, backoff, due, claim, renew, claimable, exhausted, holds,
  heartbeat_interval, record_failure, leased,
}
use newsintel.Jobs.Leasing.Fencing.{
  World, Reach, Step, IsConsistent, Reach-IsConsistent, lost_token_never_holds,
}

abbrev fresh_row : Row
fresh_row = record {
  status = Status.queued;
  attempt_count = 0;
  next_attempt_at = 100;
  claim_token = none;
  claim_expires_at = none;
  error_category = none;
  error_message = none;
  completed_at = some none;
}

-- `CLUSTER_RETRIES`
abbrev retries : Retries
retries = record { base = 30 * second; cap = 900 * second; max_attempts = some 5 }

abbrev failure : Failure
failure = record {
  category = b'c' ∷ [];
  message = b'e' ∷ b'r' ∷ [];
  permanent = false;
  retry_after = none;
}

backoff-retries :
    (backoff retries 1 none ≡ 30 * second)
    × (backoff retries 4 none ≡ 240 * second)
    × (backoff retries 6 none ≡ 900 * second)
    × (backoff retries 2 (some (pos 7)) ≡ 7)
unfolding backoff
backoff-retries = (refl, refl, refl, refl)

due-eq-claimable_example : due fresh_row 100 ≡ claimable fresh_row 100
due-eq-claimable_example = due-eq-claimable fresh_row 100

claim_excludes_example :
    let row' = claim fresh_row 7 100 50 true in
    (holds row' 8 149 ≡ (7 == 8)) × (claimable row' 149 ≡ false)
claim_excludes_example = claim_excludes fresh_row 7 100 50 true 8 149 (omega arith)

claim_runs_out_example :
    let row' = claim fresh_row 7 100 50 true in
    (holds row' 7 150 ≡ false) × (claimable row' 150 ≡ true)
claim_runs_out_example = claim_runs_out fresh_row 7 100 50 true 150 (omega arith) (omega arith)

abbrev claimed_row : Row
claimed_row = record fresh_row {
  status = Status.running;
  attempt_count = 1;
  claim_token = some 7;
  claim_expires_at = some 150;
}

abbrev renewed_row : Row
renewed_row = record claimed_row { claim_expires_at = some 170 }

renewed : renew (claim fresh_row 7 100 50 true) 7 120 50 ≡ some renewed_row
unfolding renew claim holds leased
renewed = refl

renew_extends_example :
    (is_some (renew (claim fresh_row 7 100 50 true) 8 130 50) ≡ (7 == 8 && ltb 130 150))
    × (120 < 150)
    × (holds renewed_row 8 130 ≡ (7 == 8 && ltb 130 170))
    × (claimable renewed_row 130 ≡ (leb 100 130 && leb 170 130))
    × (renewed_row.attempt_count ≡ (claim fresh_row 7 100 50 true).attempt_count)
renew_extends_example = renew_extends fresh_row renewed_row 7 100 50 true 120 50 8 130 renewed

heartbeat_interval_bounds_example :
    (second ≤ heartbeat_interval (300 * second))
    × (heartbeat_interval (300 * second) ≤ 30 * second)
    × (heartbeat_interval (300 * second) * 3 ≤ max (300 * second) (3 * second))
    × (min (300 * second) (90 * second) < (heartbeat_interval (300 * second) + 1) * 3)
heartbeat_interval_bounds_example = heartbeat_interval_bounds (300 * second)

backoff_doubles_example :
    (backoff retries 1 none ≡ min retries.cap retries.base)
    × (backoff retries 5 none ≡ min retries.cap (2 * backoff retries 4 none))
backoff_doubles_example = backoff_doubles retries 3

record_failure-claimable_example :
    let row' = record_failure claimed_row 120 failure retries 1 in
    let final = failure.permanent || exhausted retries 1 in
    (row'.claim_token ≡ none)
    × (row'.claim_expires_at ≡ none)
    × (row'.attempt_count ≡ 1)
    × (row'.error_category ≡ some failure.category)
    × (row'.error_message ≡ some (take 1000 failure.message))
    × (row'.status ≡ (if final then Status.failed else Status.retrying))
    × (row'.completed_at ≡ (
        if final && is_some claimed_row.completed_at
        then some (some 120)
        else claimed_row.completed_at))
    × (claimable row' 30_000_120
        ≡ (if final then false else leb (120 + backoff retries 1 failure.retry_after) 30_000_120))
record_failure-claimable_example =
    record_failure-claimable claimed_row 120 failure retries 1 30_000_120

abbrev spent_row : Row
spent_row = record claimed_row { attempt_count = 5 }

claim_passes_limit_example :
    (claimable spent_row 200 ≡ true)
    × (exhausted retries (claim spent_row 9 200 50 true).attempt_count ≡ true)
    × (spent_row.attempt_count < (claim spent_row 9 200 50 true).attempt_count)
unfolding exhausted
claim_passes_limit_example =
    claim_passes_limit spent_row retries 150 9 200 50 refl refl (omega arith) (omega arith) refl

abbrev later : World
later = record { row = claimed_row; now = 200; issued = 7 ∷ [] }

-- Another worker takes the row over once the lease has run out.
abbrev taken : World
unfolding claim
taken = record { row = claim claimed_row 9 200 50 true; now = 200; issued = 9 ∷ 7 ∷ [] }

abbrev moved_on : World
unfolding claim
moved_on = record taken { now = 230 }

taken-Reach : Reach taken moved_on
unfolding claim
taken-Reach = Reach.next Reach.here (Step.ticks 30)

lost_token_never_holds_example :
    (holds moved_on.row 7 moved_on.now ≡ false) × (renew moved_on.row 7 moved_on.now 50 ≡ none)
unfolding claim
lost_token_never_holds_example = lost_token_never_holds 7 50 taken moved_on taken-Reach refl refl

-- The claim runs out, and the next worker finds the job's generation outdated.
abbrev outdated : World
outdated = record later { row = record claimed_row { status = Status.superseded } }

claimed_row-claimable : claimable claimed_row 200 ≡ true
unfolding claimable leased
claimed_row-claimable = refl

abbrev waiting : World
waiting = record { row = fresh_row; now = 100; issued = [] }

abbrev begun : World
unfolding claim
begun = record { row = claim fresh_row 7 100 50 true; now = 100; issued = 7 ∷ [] }

fresh_row-claimable : claimable fresh_row 100 ≡ true
unfolding claimable leased
fresh_row-claimable = refl

outdated-Reach : Reach waiting outdated
unfolding claim
outdated-Reach =
    Reach.next
      (Reach.next (Reach.next Reach.here (Step.claims 7 50 true refl fresh_row-claimable))
        (Step.ticks 100))
      (Step.gives_up claimed_row-claimable)

waiting-IsConsistent : IsConsistent waiting
unfolding leased
waiting-IsConsistent = record { together = refl; done = refl; lapsed = refl }

Reach-IsConsistent_example : IsConsistent outdated
Reach-IsConsistent_example = Reach-IsConsistent waiting outdated outdated-Reach waiting-IsConsistent
