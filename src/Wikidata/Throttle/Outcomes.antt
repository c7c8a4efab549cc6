-- ===== src/Wikidata/Throttle/Outcomes.antt =====
-- What each outcome of a request does to the throttle (backend/app/wikidata/throttle.py).
use newsintel.Prelude.{
  ℕ, ◌+◌, ◌*◌, ◌^◌, ◌<◌, ◌≡◌, Bool, true, false, Option, some, arith, max, min, if◌then◌else◌,
  eq_opt, ltb, none, ◌-◌, refl, ◌∙◌, ap,
}
use newsintel.Wikidata.Throttle.{
  Settings, ThrottleState, Outcome, PauseReason, Wait, after_request, settle_outcome, timedelta,
  add_time, request_gap, or_zero, counted, pause_for, wait_seconds, date, is_repeat,
}

abbrev pub is_failure : Outcome → Bool
is_failure Outcome.ok = false
is_failure Outcome.rate_limited = true
is_failure Outcome.blocked = true
is_failure Outcome.error = true

-- Whether the last answer that limited the rate came less than an hour before.
abbrev pub limited_lately : Option ℕ → ℕ → Bool
limited_lately none finished = false
limited_lately (some last) finished = ltb (finished - last) 3_600_000_000

-- The pause that the settings ask for after each outcome: after a second answer within an hour that
-- limits the rate the longer one, after an error one that doubles with each error before it in a
-- row, up to its cap.
abbrev pub pause_wanted : Settings → ThrottleState → ℕ → Outcome → ℕ
pause_wanted settings state finished Outcome.ok = 0
pause_wanted settings state finished Outcome.rate_limited =
    if limited_lately state.last_rate_limited_at finished
    then max settings.rate_limit_pause settings.repeat_rate_limit_pause
    else settings.rate_limit_pause
pause_wanted settings state finished Outcome.blocked = settings.blocked_pause
pause_wanted settings state finished Outcome.error =
    min (settings.error_pause * 2 ^ state.error_strikes) settings.error_pause_max

abbrev pub reason_of : Outcome → Option PauseReason
reason_of Outcome.ok = none
reason_of Outcome.rate_limited = some PauseReason.rate_limited
reason_of Outcome.blocked = some PauseReason.blocked
reason_of Outcome.error = some PauseReason.error

-- The parts of a request that did not overflow.
pub after_request-eq-some :
    (state : ThrottleState) (started finished : ℕ) (outcome : Outcome) (retry_after : Option ℕ)
    (settings : Settings) (state' : ThrottleState)
    → after_request state started finished outcome retry_after settings ≡ some state'
    → settle_outcome
        (counted state finished (finished + request_gap settings started finished))
        finished
        outcome
        (or_zero retry_after)
        settings
      ≡ some state'
unfolding after_request add_time timedelta
after_request-eq-some state started finished outcome retry_after settings state' h = ground arith

pause_for-eq-some :
    (state : ThrottleState) (finished pause : ℕ) (reason : PauseReason) (state' : ThrottleState)
    → pause_for state finished pause reason ≡ some state'
    → state' ≡ record state { paused_until = some (finished + pause); pause_reason = some reason }
unfolding pause_for add_time
pause_for-eq-some state finished pause reason state' h = ground arith

-- The bookkeeping of a request survives every outcome.
settle_outcome-keeps :
    (state : ThrottleState) (finished : ℕ) (outcome : Outcome) (asked : ℕ) (settings : Settings)
    (state' : ThrottleState)
    → settle_outcome state finished outcome asked settings ≡ some state'
    → (state'.next_request_at ≡ state.next_request_at)
      × (state'.day ≡ state.day)
      × (state'.requests_today ≡ state.requests_today)
unfolding settle_outcome pause_for add_time timedelta
settle_outcome-keeps state finished Outcome.ok asked settings state' h = ground arith
settle_outcome-keeps state finished Outcome.rate_limited asked settings state' h = ground arith
settle_outcome-keeps state finished Outcome.blocked asked settings state' h = ground arith
settle_outcome-keeps state finished Outcome.error asked settings state' h = ground arith

is_repeat-lately :
    (last : Option ℕ) (finished : ℕ) → is_repeat last finished ≡ limited_lately last finished
is_repeat-lately none finished = refl
is_repeat-lately (some last) finished = ground arith

settle_outcome-paused :
    (state : ThrottleState) (finished : ℕ) (outcome : Outcome) (asked : ℕ) (settings : Settings)
    (state' : ThrottleState)
    → settle_outcome state finished outcome asked settings ≡ some state'
    → is_failure outcome ≡ true
    → (state'.paused_until
        ≡ some (finished + max asked (pause_wanted settings state finished outcome)))
      × (state'.pause_reason ≡ reason_of outcome)
unfolding settle_outcome pause_for add_time timedelta
settle_outcome-paused state finished Outcome.ok asked settings state' h f = cc
settle_outcome-paused state finished Outcome.rate_limited asked settings state' h f =
    let same = is_repeat-lately state.last_rate_limited_at finished in
    (ground (arith, same), ground (arith, same))
settle_outcome-paused state finished Outcome.blocked asked settings state' h f =
    (ground arith, ground arith)
settle_outcome-paused state finished Outcome.error asked settings state' h f =
    (ground arith, ground arith)

pause_wanted-counted :
    (settings : Settings) (state : ThrottleState) (finished next : ℕ) (outcome : Outcome)
    → pause_wanted settings (counted state finished next) finished outcome
      ≡ pause_wanted settings state finished outcome
unfolding counted
pause_wanted-counted settings state finished next Outcome.ok = refl
pause_wanted-counted settings state finished next Outcome.rate_limited = refl
pause_wanted-counted settings state finished next Outcome.blocked = refl
pause_wanted-counted settings state finished next Outcome.error = refl

wait_seconds-paused :
    (state : ThrottleState) (t until : ℕ) (reason : Option PauseReason) (settings : Settings)
    → state.paused_until ≡ some until
    → state.pause_reason ≡ reason
    → t < until
    → wait_seconds state t settings ≡ Wait.paused until reason
unfolding wait_seconds
wait_seconds-paused state t until reason settings e r lt = rw (e, r) (ground arith)

-- After a failed request whose arithmetic does not overflow, every call waits in vain until a
-- known time, with the failure's kind as the reason. The time is the answer's end plus the longer
-- of its Retry-After and the pause for its kind: the setting's for a rate limit, the longer
-- of the two settings if the last rate limit came less than an hour before, the setting's for a
-- block, and after an error the first pause doubled for each error before it in a row, up to its cap.
pub after_request_pauses :
    (state : ThrottleState) (started finished : ℕ) (outcome : Outcome) (retry_after : Option ℕ)
    (settings : Settings) (state' : ThrottleState) (t : ℕ)
    → after_request state started finished outcome retry_after settings ≡ some state'
    → is_failure outcome ≡ true
    → t < finished + max (or_zero retry_after) (pause_wanted settings state finished outcome)
    → wait_seconds state' t settings
      ≡ Wait.paused
          (finished + max (or_zero retry_after) (pause_wanted settings state finished outcome))
          (reason_of outcome)
after_request_pauses state started finished outcome retry_after settings state' t h f lt =
    let next = finished + request_gap settings started finished in
    let (until, reason) =
      settle_outcome-paused (counted state finished next) finished outcome (or_zero retry_after)
        settings state'
        (after_request-eq-some state started finished outcome retry_after settings state' h) f in
    wait_seconds-paused state' t
      (finished + max (or_zero retry_after) (pause_wanted settings state finished outcome))
      (reason_of outcome) settings
      (until
        ∙ ap (λ p. some (finished + max (or_zero retry_after) p))
            (pause_wanted-counted settings state finished next outcome))
      reason lt

-- Every answered request whose arithmetic does not overflow is counted on the day it finished,
-- whatever its outcome, and sets the time of the next one to its end plus the gap, which is the
-- longer wait after a slow answer.
pub after_request_counts :
    (state : ThrottleState) (started finished : ℕ) (outcome : Outcome) (retry_after : Option ℕ)
    (settings : Settings) (state' : ThrottleState)
    → after_request state started finished outcome retry_after settings ≡ some state'
    → (state'.next_request_at ≡ some (finished + request_gap settings started finished))
      × (state'.day ≡ some (date finished))
      × (state'.requests_today
          ≡ (if eq_opt state.day (some (date finished)) then state.requests_today else 0) + 1)
unfolding counted
after_request_counts state started finished outcome retry_after settings state' h =
    let next = finished + request_gap settings started finished in
    settle_outcome-keeps (counted state finished next) finished outcome (or_zero retry_after)
      settings state'
      (after_request-eq-some state started finished outcome retry_after settings state' h)

-- For an answer whose arithmetic does not overflow: a success clears the strikes and an error adds
-- one; nothing else changes them.
pub after_request_strikes :
    (state : ThrottleState) (started finished : ℕ) (outcome : Outcome) (retry_after : Option ℕ)
    (settings : Settings) (state' : ThrottleState)
    → after_request state started finished outcome retry_after settings ≡ some state'
    → state'.error_strikes ≡ elim outcome [
      | Outcome.ok ↦ 0
      | Outcome.error ↦ state.error_strikes + 1
      | _ ↦ state.error_strikes
    ]
unfolding after_request counted settle_outcome pause_for add_time timedelta
after_request_strikes state started finished Outcome.ok retry_after settings state' h = ground arith
after_request_strikes state started finished Outcome.rate_limited retry_after settings state' h =
    ground arith
after_request_strikes state started finished Outcome.blocked retry_after settings state' h =
    ground arith
after_request_strikes state started finished Outcome.error retry_after settings state' h =
    ground arith
