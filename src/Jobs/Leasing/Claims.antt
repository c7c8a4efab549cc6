-- ===== src/Jobs/Leasing/Claims.antt =====
-- What a claim on a row excludes, how long it lasts, and what renewing it does
-- (backend/app/jobs/leasing.py).
use newsintel.Prelude.{
  ℕ, ◌+◌, ◌*◌, ◌≤◌, ◌<◌, ◌≡◌, inl, inr, Bool, true, false, some, arith, ◌==◌, max, Option-cases,
  min, is_some, ◌&&◌, ltb, leb,
}
use newsintel.Jobs.Leasing.{
  Row, claimable, due, claim, holds, renew, second, heartbeat_interval, leased,
}

-- The filter of the sweeps selects exactly the rows that a worker may claim, at every instant.
pub due-eq-claimable : (row : Row) (now : ℕ) → due row now ≡ claimable row now
unfolding due claimable
due-eq-claimable row now = elim (Option-cases row.claim_expires_at) [
  | inl free ↦ rw free (ground arith)
  | inr (expires, e) ↦ rw e (ground arith)
]

-- A claim made at `now` is held by its token, and by no other, at every instant before
-- `now + lease`, and in that time the row is not claimable.
pub claim_excludes :
    (row : Row) (token now lease : ℕ) (count_attempt : Bool) (other t : ℕ)
    → t < now + lease
    → let row' = claim row token now lease count_attempt in
      (holds row' other t ≡ (token == other)) × (claimable row' t ≡ false)
unfolding claim holds claimable
claim_excludes row token now lease count_attempt other t h = (ground arith, ground arith)

-- From `now + lease` on the token no longer holds the row, and the row is claimable if it was due.
pub claim_runs_out :
    (row : Row) (token now lease : ℕ) (count_attempt : Bool) (t : ℕ)
    → now + lease ≤ t
    → row.next_attempt_at ≤ t
    → let row' = claim row token now lease count_attempt in
      (holds row' token t ≡ false) × (claimable row' t ≡ true)
unfolding claim holds claimable
claim_runs_out row token now lease count_attempt t h due_by = (ground arith, ground arith)

-- During the lease of a claim a renewal succeeds for its token alone, and from the end of the lease
-- on for none. A renewal moves the end: the token, and no other, then holds the row until the new
-- lease runs out, and the row is claimable exactly from then on, once it is due; the renewal counts
-- no attempt.
pub renew_extends :
    (row row' : Row) (token now lease : ℕ) (count_attempt : Bool) (t more other u : ℕ)
    → renew (claim row token now lease count_attempt) token t more ≡ some row'
    → (is_some (renew (claim row token now lease count_attempt) other u more)
        ≡ (token == other && ltb u (now + lease)))
      × (t < now + lease)
      × (holds row' other u ≡ (token == other && ltb u (t + more)))
      × (claimable row' u ≡ (leb row.next_attempt_at u && leb (t + more) u))
      × (row'.attempt_count ≡ (claim row token now lease count_attempt).attempt_count)
unfolding claim renew holds leased claimable
renew_extends row row' token now lease count_attempt t more other u h =
    (ground arith, ground arith, ground arith, ground arith, ground arith)

-- As many heartbeats as possible, up to three, come in a lease, at least a second and at most 30 s
-- apart: for a lease between 3 s and 90 s three intervals fit, and an interval that is longer by a
-- microsecond would not fit three times; a shorter lease has one every second, a longer one every
-- 30 s.
pub heartbeat_interval_bounds :
    (lease : ℕ)
    → (second ≤ heartbeat_interval lease)
      × (heartbeat_interval lease ≤ 30 * second)
      × (heartbeat_interval lease * 3 ≤ max lease (3 * second))
      × (min lease (90 * second) < (heartbeat_interval lease + 1) * 3)
unfolding heartbeat_interval
heartbeat_interval_bounds lease = omega arith
