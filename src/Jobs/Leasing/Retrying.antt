-- ===== src/Jobs/Leasing/Retrying.antt =====
-- How a queue retries: the backoff, the outcome of a failed attempt, and the limit on attempts
-- (backend/app/jobs/leasing.py).
use native.Mathlib.Nat.{pow-succ'}
use newsintel.Prelude.{
  ℕ, zero, suc, ◌+◌, ◌-◌, ◌*◌, ◌^◌, ◌≤◌, ◌<◌, ◌≡◌, ap, true, false, ◌||◌, Option, none, some, arith,
  leb, if◌then◌else◌, take, min, ◌&&◌, is_some,
}
use newsintel.Prelude.Int.{ℤ}
use newsintel.Jobs.Leasing.{
  Status, Row, Retries, Failure, backoff, exhausted, claimable, claim, record_failure, release,
  leased,
}

-- A wait is never longer than the queue's cap, whatever the server asked for.
pub backoff-le-cap :
    (retries : Retries) (attempt : ℕ) (retry_after : Option ℤ)
    → backoff retries attempt retry_after ≤ retries.cap
unfolding backoff
backoff-le-cap retries attempt none = omega arith
backoff-le-cap retries attempt (some wanted) = omega arith

suc_sub_one : (n : ℕ) → suc n - 1 ≡ n
suc_sub_one n = omega arith

exponent_step : (n : ℕ) → 2 ^ (suc (suc n) - 1) ≡ 2 * 2 ^ (suc n - 1)
exponent_step n = rw (suc_sub_one (suc n), suc_sub_one n) (pow-succ' 2 n)

-- Without a Retry-After the first wait is the base, each later one is twice the one before it,
-- both within the cap.
pub backoff_doubles :
    (retries : Retries) (attempt : ℕ)
    → (backoff retries 1 none ≡ min retries.cap retries.base)
      × (backoff retries (suc (suc attempt)) none
          ≡ min retries.cap (2 * backoff retries (suc attempt) none))
unfolding backoff
backoff_doubles retries attempt =
    (omega arith, omega (arith, ap (λ (t : ℕ). retries.base * t) (exponent_step attempt)))

-- One attempt: a claim at `now` that counts it, and the failure that its worker records.
abbrev attempt_fails : Retries → Failure → ℕ → ℕ → ℕ → Row → Row
attempt_fails retries failure token now lease row =
    let row' = claim row token now lease true in
    record_failure row' now failure retries row'.attempt_count

-- `n` attempts in a row that all fail.
abbrev pub attempts_fail : ℕ → Retries → Failure → ℕ → ℕ → ℕ → Row → Row
attempts_fail zero retries failure token now lease row = row
attempts_fail (suc n) retries failure token now lease row =
    attempt_fails retries failure token now lease
      (attempts_fail n retries failure token now lease row)

-- A failed attempt releases the row, keeps its attempts, and notes the category and the first 1000
-- characters of the message. When the failure is permanent or the limit is used up the row has
-- failed, with the time of its end if the table has that column, and is never claimable; otherwise
-- it is claimable again exactly from the end of its backoff on.
pub record_failure-claimable :
    (row : Row) (now : ℕ) (failure : Failure) (retries : Retries) (attempts t : ℕ)
    → let row' = record_failure row now failure retries attempts in
      let final = failure.permanent || exhausted retries attempts in
      (row'.claim_token ≡ none)
      × (row'.claim_expires_at ≡ none)
      × (row'.attempt_count ≡ row.attempt_count)
      × (row'.error_category ≡ some failure.category)
      × (row'.error_message ≡ some (take 1000 failure.message))
      × (row'.status ≡ (if final then Status.failed else Status.retrying))
      × (row'.completed_at
          ≡ (if final && is_some row.completed_at then some (some now) else row.completed_at))
      × (claimable row' t
          ≡ (if final then false else leb (now + backoff retries attempts failure.retry_after) t))
unfolding record_failure release claimable leased
record_failure-claimable row now failure retries attempts t = (
  ground arith,
  ground arith,
  ground arith,
  ground arith,
  ground arith,
  ground arith,
  ground arith,
  ground arith,
)

-- The limit is not tested by a claim: when a worker dies, its row may be claimed again after the
-- lease however many attempts were made, and the count passes the limit.
pub claim_passes_limit :
    (row : Row) (retries : Retries) (expires token now lease : ℕ)
    → row.status ≡ Status.running
    → row.claim_expires_at ≡ some expires
    → expires ≤ now
    → row.next_attempt_at ≤ now
    → exhausted retries row.attempt_count ≡ true
    → (claimable row now ≡ true)
      × (exhausted retries (claim row token now lease true).attempt_count ≡ true)
      × (row.attempt_count < (claim row token now lease true).attempt_count)
unfolding claimable claim exhausted
claim_passes_limit row retries expires token now lease run lapsed over due_by spent =
    (ground arith, ground arith, ground arith)
