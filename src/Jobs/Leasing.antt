-- ===== src/Jobs/Leasing.antt =====
-- backend/app/jobs/leasing.py: claims, leases and retries of a queue table's row.
-- Times are whole microseconds since an epoch, as a Python datetime stores them, and durations
-- are whole microseconds. A claim token is a number: the code only compares it.
pub mod Claims
pub mod Retrying
pub mod Fencing
use newsintel.Prelude.{
  ℕ, ◌+◌, ◌-◌, ◌*◌, ◌/◌, ◌^◌, Bool, true, false, not, ◌&&◌, ◌||◌, Option, none, some, List, ltb,
  leb, if◌then◌else◌, eq_opt, take, min, max,
}
use newsintel.Prelude.Int.{ℤ, pos_part}

-- The values of a job's status column (`JOB_STATUSES` of clustering/models.py).
pub data Status : Type 0 where
  queued running retrying succeeded failed superseded : Status

-- `row.status in ACTIVE_STATUSES`
abbrev pub is_active : Status → Bool
is_active Status.queued = true
is_active Status.running = true
is_active Status.retrying = true
is_active Status.succeeded = false
is_active Status.failed = false
is_active Status.superseded = false

-- `row.status == "succeeded"`
abbrev pub is_succeeded : Status → Bool
is_succeeded Status.succeeded = true
is_succeeded _ = false

-- `row.status == "running"`
abbrev pub is_running : Status → Bool
is_running Status.running = true
is_running Status.queued = false
is_running Status.retrying = false
is_running Status.succeeded = false
is_running Status.failed = false
is_running Status.superseded = false

abbrev pub second : ℕ
second = 1_000_000

abbrev pub message_chars : ℕ
message_chars = 1000

-- The columns of a queue row that the functions read and write. `completed_at` is `none` for a
-- table that has no such column, and `some none` for a null.
pub record Row : Type 0 where
  pub status : Status
  pub attempt_count : ℕ
  pub next_attempt_at : ℕ
  pub claim_token : Option ℕ
  pub claim_expires_at : Option ℕ
  pub error_category : Option (List ℕ)
  pub error_message : Option (List ℕ)
  pub completed_at : Option (Option ℕ)

-- `base_seconds` and `cap_seconds` in microseconds.
pub record Retries : Type 0 where
  pub base : ℕ
  pub cap : ℕ
  pub max_attempts : Option ℕ

-- `2 ** max(0, attempt - 1)`: subtraction on ℕ stops at 0. A negative Retry-After counts as 0.
unfoldable pub backoff : Retries → ℕ → Option ℤ → ℕ
backoff retries attempt none = min retries.cap (retries.base * 2 ^ (attempt - 1))
backoff retries attempt (some wanted) = min retries.cap (pos_part wanted)

unfoldable pub exhausted : Retries → ℕ → Bool
exhausted retries attempts = elim (retries.max_attempts) [
  | none ↦ false
  | some limit ↦ leb limit attempts
]

unfoldable pub leased : Row → ℕ → Bool
leased row now = elim (row.claim_expires_at) [ none ↦ false | some expires ↦ ltb now expires ]

unfoldable pub claimable : Row → ℕ → Bool
unfolding leased
claimable row now = is_active row.status && (leb row.next_attempt_at now && not (leased row now))

-- `due`, the same test as a SQL filter, with the null test written out.
unfoldable pub due : Row → ℕ → Bool
due row now =
    is_active row.status
    && (leb row.next_attempt_at now
        && elim (row.claim_expires_at) [ none ↦ true | some expires ↦ leb expires now ])

-- `uuid.uuid4().hex` is the argument `token`.
unfoldable pub claim : Row → ℕ → ℕ → ℕ → Bool → Row
claim row token now lease count_attempt = record row {
  claim_token = some token;
  claim_expires_at = some (now + lease);
  status = Status.running;
  attempt_count = if count_attempt then row.attempt_count + 1 else row.attempt_count;
}

unfoldable pub holds : Row → ℕ → ℕ → Bool
unfolding leased
holds row token now = eq_opt row.claim_token (some token) && leased row now

unfoldable pub release : Row → Row
release row = record row { claim_token = none; claim_expires_at = none }

-- The new row, or `none` when the claim is no longer the holder's.
unfoldable pub renew : Row → ℕ → ℕ → ℕ → Option Row
unfolding holds
renew row token now lease =
    if not (is_running row.status) || not (holds row token now)
    then none
    else some (record row { claim_expires_at = some (now + lease) })

-- `if hasattr(row, "completed_at"): row.completed_at = now`
abbrev stamp : Option (Option ℕ) → ℕ → Option (Option ℕ)
stamp none now = none
stamp (some _) now = some (some now)

-- A failed attempt's outcome, as the caller reports it.
pub record Failure : Type 0 where
  pub category : List ℕ
  pub message : List ℕ
  pub permanent : Bool
  pub retry_after : Option ℤ

unfoldable pub record_failure : Row → ℕ → Failure → Retries → ℕ → Row
unfolding release exhausted backoff
record_failure row now failure retries attempts =
    let row' : Row = record (release row) {
      error_category = some failure.category;
      error_message = some (take message_chars failure.message);
    } in
    if failure.permanent || exhausted retries attempts
    then record row' { status = Status.failed; completed_at = stamp row'.completed_at now }
    else record row' {
      status = Status.retrying;
      next_attempt_at = now + backoff retries attempts failure.retry_after;
    }

-- `max(1.0, min(30.0, lease_seconds / 3))`, in microseconds.
unfoldable pub heartbeat_interval : ℕ → ℕ
heartbeat_interval lease = max second (min (30 * second) (lease / 3))
