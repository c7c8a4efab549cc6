-- ===== src/Auth/Tests.antt =====
-- A name with nine failures (backend/app/auth/limits.py).
use newsintel.Auth.Limits.{failed}
use newsintel.Auth.Limits.Holds.{is_fair, failed-is_fair, failed-check}
use newsintel.Auth.Limits.{LoginFailure, check, lockout}
use newsintel.Prelude.{refl, All, none, ◌≡◌, ◌∷◌, true, [], some, ◌-◌, arith}

abbrev nine_failures : LoginFailure
nine_failures = record { username = 5; failures = 9; first_failed_at = 1000; locked_until = none }

failed-is_fair_example : All (λ r. is_fair r ≡ true) (failed (nine_failures ∷ []) 5 2000)
failed-is_fair_example = failed-is_fair (nine_failures ∷ []) 5 2000 (refl, tt)

failed-check_example : check (failed (nine_failures ∷ []) 5 2000) 5 3000 ≡ some (lockout - 1000)
failed-check_example =
    failed-check (nine_failures ∷ []) 5 2000 3000 nine_failures refl refl refl (omega arith)
