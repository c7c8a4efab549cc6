-- ===== src/Auth/Limits.antt =====
-- backend/app/auth/limits.py: repeated failed sign-ins hold the name for a while.
-- A user name is a number: the code only compares it.
pub mod Holds
use newsintel.Prelude.{
  ℕ, ◌*◌, Option, List, Bool, if◌then◌else◌, none, some, find, false, ltb, ◌||◌, not, ◌∷◌, keep,
  ◌-◌, ◌==◌, leb, ◌+◌, update_where, ◌&&◌, is_some,
}

abbrev pub max_failures : ℕ
max_failures = 10

-- `WINDOW` and `LOCKOUT`, 15 minutes each.
abbrev pub window : ℕ
window = 15 * 60 * 1_000_000

abbrev pub lockout : ℕ
lockout = 15 * 60 * 1_000_000

pub record LoginFailure : Type 0 where
  pub username : ℕ
  pub failures : ℕ
  pub first_failed_at : ℕ
  pub locked_until : Option ℕ

-- What is left of a hold.
abbrev pub hold_left : Option ℕ → ℕ → Option ℕ
hold_left none now = none
hold_left (some until) now = if ltb now until then some (until - now) else none

abbrev pub held : Option LoginFailure → ℕ → Option ℕ
held none now = none
held (some row) now = hold_left row.locked_until now

abbrev pub row_of : ℕ → List LoginFailure → Option LoginFailure
row_of username rows = find (λ r. r.username == username) rows

-- The `retry_after` of the SignInHeld that is raised, or `none`.
unfoldable pub check : List LoginFailure → ℕ → ℕ → Option ℕ
check rows username now = held (row_of username rows) now

abbrev pub hold_passed : Option ℕ → ℕ → Bool
hold_passed none now = false
hold_passed (some until) now = leb until now

-- `first_failed_at < now - WINDOW`
abbrev pub is_old : LoginFailure → ℕ → Bool
is_old row now = ltb (row.first_failed_at + window) now

-- The count starts over, or goes on and holds the name when it reaches the maximum.
unfoldable pub count_failure : LoginFailure → ℕ → LoginFailure
count_failure row now =
    if is_old row now || hold_passed row.locked_until now
    then record row { failures = 1; first_failed_at = now; locked_until = none }
    else record row {
      failures = row.failures + 1;
      locked_until =
          if leb max_failures (row.failures + 1) then some (now + lockout) else row.locked_until;
    }

abbrev pub first_failure : ℕ → ℕ → LoginFailure
first_failure username now = record {
  username = username;
  failures = 1;
  first_failed_at = now;
  locked_until = none;
}

-- Other names' rows that no longer count.
abbrev pub is_forgotten : ℕ → ℕ → LoginFailure → Bool
is_forgotten username now row =
    not (row.username == username)
    && (is_old row now && (not (is_some row.locked_until) || hold_passed row.locked_until now))

abbrev pub record_on : Option LoginFailure → List LoginFailure → ℕ → ℕ → List LoginFailure
record_on none rows username now = first_failure username now ∷ rows
record_on (some row) rows username now =
    update_where (λ r. r.username == username) (λ r. count_failure r now) rows

unfoldable pub failed : List LoginFailure → ℕ → ℕ → List LoginFailure
failed rows username now =
    let left = keep (λ r. not (is_forgotten username now r)) rows in
    record_on (row_of username left) left username now

unfoldable pub succeeded : List LoginFailure → ℕ → List LoginFailure
succeeded rows username = keep (λ r. not (r.username == username)) rows
