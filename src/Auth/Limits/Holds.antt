-- ===== src/Auth/Limits/Holds.antt =====
-- When a name is held (backend/app/auth/limits.py).
use newsintel.Prelude.Every.{All-update_where}
use newsintel.Auth.Limits.{failed}
use newsintel.Auth.Limits.{
  LoginFailure, count_failure, check, row_of, record_on, max_failures, is_forgotten, window,
  lockout,
}
use newsintel.Prelude.{
  ℕ, Option, List, Bool, ◌≡◌, All, if◌then◌else◌, true, keep, some, leb, arith, ◌∷◌, not,
  update_where, none, Bool-cases, ◌==◌, ◌≤◌, is_some, inl, refl, [], ◌+◌, inr, ltb, ◌-◌,
  then_branch, ◌∙◌, ap,
}

-- A name is held exactly from the tenth failure on.
abbrev pub is_fair : LoginFailure → Bool
is_fair row =
    if leb max_failures row.failures
    then is_some row.locked_until
    else not (is_some row.locked_until)

count_failure-is_fair :
    (row : LoginFailure) (now : ℕ) → is_fair row ≡ true → is_fair (count_failure row now) ≡ true
unfolding count_failure
count_failure-is_fair row now h = ground arith

keep-fair :
    (p : LoginFailure → Bool) (rows : List LoginFailure)
    → All (λ r. is_fair r ≡ true) rows
    → All (λ r. is_fair r ≡ true) (keep p rows)
keep-fair p [] h = tt
keep-fair p (r ∷ rows) h = elim (Bool-cases (p r)) [
  | inl t ↦ rw t (h.0, keep-fair p rows h.1)
  | inr f ↦ rw f (keep-fair p rows h.1)
]

record_on-fair :
    (found : Option LoginFailure) (rows : List LoginFailure) (username now : ℕ)
    → All (λ r. is_fair r ≡ true) rows
    → All (λ r. is_fair r ≡ true) (record_on found rows username now)
record_on-fair none rows username now h = (refl, h)
record_on-fair (some row) rows username now h =
    All-update_where (λ r. is_fair r ≡ true) (λ r. r.username == username)
      (λ r. count_failure r now) rows (λ r same old. count_failure-is_fair r now old) h

-- If a name has a hold exactly when ten failures or more are counted for it, for every name, this
-- is so again after another failure of any name.
pub failed-is_fair :
    (rows : List LoginFailure) (username now : ℕ)
    → All (λ r. is_fair r ≡ true) rows
    → All (λ r. is_fair r ≡ true) (failed rows username now)
unfolding failed
failed-is_fair rows username now h =
    let left = keep (λ r. not (is_forgotten username now r)) rows in
    record_on-fair (row_of username left) left username now
      (keep-fair (λ r. not (is_forgotten username now r)) rows h)

keep-row_of :
    (username now : ℕ) (rows : List LoginFailure)
    → row_of username (keep (λ r. not (is_forgotten username now r)) rows) ≡ row_of username rows
keep-row_of username now [] = refl
keep-row_of username now (r ∷ rows) = ground (arith, keep-row_of username now rows)

count_failure-username :
    (row : LoginFailure) (now : ℕ) → (count_failure row now).username ≡ row.username
unfolding count_failure
count_failure-username row now = ground arith

find_row :
    (username now : ℕ) (r : LoginFailure) (rest : List LoginFailure)
    → (r.username == username) ≡ true
    → row_of username (count_failure r now ∷ rest) ≡ some (count_failure r now)
find_row username now r rest t =
    then_branch ((count_failure r now).username == username) (some (count_failure r now))
      (row_of username rest) (ap (λ u. u == username) (count_failure-username r now) ∙ t)

counted_row :
    (username now : ℕ) (row : LoginFailure) (rows : List LoginFailure)
    → row_of username rows ≡ some row
    → row_of username (update_where (λ r. r.username == username) (λ r. count_failure r now) rows)
      ≡ some (count_failure row now)
counted_row username now row [] e = cc
counted_row username now row (r ∷ rows) e = elim (Bool-cases (r.username == username)) [
  | inl t ↦
      let same : r ≡ row = ground arith in
      rw t (
        find_row username now r
          (update_where (λ r. r.username == username) (λ r. count_failure r now) rows) t
        ∙ ap (λ x. some (count_failure x now)) same)
  | inr f ↦ ground (arith, counted_row username now row rows (ground arith))
]

-- The tenth failure within 15 minutes of the first, of a name that is not held, holds the name for
-- 15 minutes and no longer: every sign-in before their end is turned away with the time that is
-- left.
pub failed-check :
    (rows : List LoginFailure) (username now later : ℕ) (row : LoginFailure)
    → row_of username rows ≡ some row
    → row.failures ≡ 9
    → row.locked_until ≡ none
    → now ≤ row.first_failed_at + window
    → check (failed rows username now) username later
      ≡ (if ltb later (now + lockout) then some (now + lockout - later) else none)
unfolding check failed count_failure
failed-check rows username now later row e nine free soon =
    let left = keep (λ r. not (is_forgotten username now r)) rows in
    let found : row_of username left ≡ some row = keep-row_of username now rows ∙ e in
    let after = counted_row username now row left found in rw (found, after) (ground arith)
