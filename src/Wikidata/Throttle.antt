-- ===== src/Wikidata/Throttle.antt =====
-- backend/app/wikidata/throttle.py: the one throttle for every request to Wikidata.
-- Times are whole microseconds since the first midnight that a datetime can hold, in UTC, and
-- durations are whole microseconds; a date is the number of its day.
pub mod Outcomes
pub mod Overflow
pub mod Runs
pub mod Budget
use newsintel.Prelude.{
  ℕ, ◌+◌, ◌-◌, ◌*◌, ◌/◌, ◌^◌, Bool, true, false, not, ◌&&◌, Option, none, some, List, [], ◌∷◌, leb,
  ltb, ◌==◌, if◌then◌else◌, eq_opt, is_some, max, min, ◌≤◌,
}
use newsintel.Prelude.Chain.{◌>>=◌}

abbrev pub day_us : ℕ
day_us = 86_400_000_000

-- A `timedelta` holds fewer than 10 ** 9 days, and a datetime ends with the year 9999: one beyond
-- is an OverflowError, which `none` stands for.
abbrev pub timedelta_limit : ℕ
timedelta_limit = 1_000_000_000 * day_us

abbrev pub datetime_limit : ℕ
datetime_limit = 3_652_059 * day_us

unfoldable pub timedelta : ℕ → Option ℕ
timedelta d = if ltb d timedelta_limit then some d else none

unfoldable pub add_time : ℕ → ℕ → Option ℕ
add_time t d = if ltb (t + d) datetime_limit then some (t + d) else none

pub data PauseReason : Type 0 where
  rate_limited blocked error : PauseReason

pub data Outcome : Type 0 where
  ok rate_limited blocked error : Outcome

-- The fields of `Settings` that the throttle reads, in microseconds.
pub record Settings : Type 0 where
  pub min_interval : ℕ
  pub slow_response : ℕ
  pub slow_wait : ℕ
  pub daily_request_budget : ℕ
  pub rate_limit_pause : ℕ
  pub repeat_rate_limit_pause : ℕ
  pub error_pause : ℕ
  pub error_pause_max : ℕ
  pub blocked_pause : ℕ

-- What the model validator `keep_wikidata_gentle` accepts.
pub record IsGentle (s : Settings) : Type 0 where
  pub interval : 1_000_000 ≤ s.min_interval
  pub slow : 5_000_000 ≤ s.slow_wait
  pub rate_limit : 900_000_000 ≤ s.rate_limit_pause
  pub error : 60_000_000 ≤ s.error_pause

pub record ThrottleState : Type 0 where
  pub next_request_at : Option ℕ
  pub paused_until : Option ℕ
  pub pause_reason : Option PauseReason
  pub error_strikes : ℕ
  pub last_rate_limited_at : Option ℕ
  pub day : Option ℕ
  pub requests_today : ℕ

abbrev pub initial : ThrottleState
initial = record {
  next_request_at = none;
  paused_until = none;
  pause_reason = none;
  error_strikes = 0;
  last_rate_limited_at = none;
  day = none;
  requests_today = 0;
}

unfoldable pub date : ℕ → ℕ
date t = t / day_us

unfoldable pub midnight_after : ℕ → ℕ
unfolding date
midnight_after now = (date now + 1) * day_us

-- What `wait_seconds` returns, or the exception that it raises.
pub data Wait : Type 0 where
  wait : ℕ → Wait
  paused : ℕ → Option PauseReason → Wait
  budget_spent : ℕ → Wait

abbrev pub still_paused : Option ℕ → ℕ → Bool
still_paused none now = false
still_paused (some until) now = ltb now until

abbrev pub wait_until : Option ℕ → ℕ → ℕ
wait_until none now = 0
wait_until (some next) now = next - now

abbrev pub or_zero : Option ℕ → ℕ
or_zero none = 0
or_zero (some x) = x

unfoldable pub wait_seconds : ThrottleState → ℕ → Settings → Wait
unfolding date midnight_after
wait_seconds state now settings =
    if still_paused state.paused_until now
    then Wait.paused (or_zero state.paused_until) state.pause_reason
    else if eq_opt state.day (some (date now))
        && leb settings.daily_request_budget state.requests_today
    then Wait.budget_spent (midnight_after now)
    else Wait.wait (wait_until state.next_request_at now)

-- `REPEAT_WINDOW = timedelta(hours=1)`
abbrev pub repeat_window : ℕ
repeat_window = 3_600_000_000

-- The pause before the next request: longer after a slow answer.
abbrev pub request_gap : Settings → ℕ → ℕ → ℕ
request_gap settings started finished =
    if ltb settings.slow_response (finished - started)
    then max settings.min_interval settings.slow_wait
    else settings.min_interval

-- `last is not None and finished - last < REPEAT_WINDOW`
abbrev pub is_repeat : Option ℕ → ℕ → Bool
is_repeat none finished = false
is_repeat (some last) finished = ltb finished (last + repeat_window)

unfoldable pub counted : ThrottleState → ℕ → ℕ → ThrottleState
unfolding date
counted state finished next = record state {
  next_request_at = some next;
  day = some (date finished);
  requests_today =
      (if eq_opt state.day (some (date finished)) then state.requests_today else 0) + 1;
}

unfoldable pub pause_for : ThrottleState → ℕ → ℕ → PauseReason → Option ThrottleState
unfolding add_time
pause_for state finished pause reason = add_time finished pause >>= λ until.
    some (record state { paused_until = some until; pause_reason = some reason })

-- The branches on the outcome, after the request is counted.
unfoldable pub settle_outcome : ThrottleState → ℕ → Outcome → ℕ → Settings → Option ThrottleState
settle_outcome state finished Outcome.ok asked settings = some (record state { error_strikes = 0 })
settle_outcome state finished Outcome.rate_limited asked settings =
    let pause = max asked settings.rate_limit_pause in
    let longer =
      if is_repeat state.last_rate_limited_at finished
      then max pause settings.repeat_rate_limit_pause
      else pause in
    pause_for state finished longer PauseReason.rate_limited >>= λ state'.
    some (record state' { last_rate_limited_at = some finished })
settle_outcome state finished Outcome.blocked asked settings =
    pause_for state finished (max asked settings.blocked_pause) PauseReason.blocked
settle_outcome state finished Outcome.error asked settings =
    timedelta (settings.error_pause * 2 ^ state.error_strikes) >>= λ grown.
    pause_for state finished (max asked (min grown settings.error_pause_max)) PauseReason.error
    >>= λ state'. some (record state' { error_strikes = state.error_strikes + 1 })

-- `none` stands for an OverflowError. `retry_after` is 0 or more, as `_retry_after` of client.py
-- returns it.
unfoldable pub after_request :
    ThrottleState → ℕ → ℕ → Outcome → Option ℕ → Settings → Option ThrottleState
after_request state started finished outcome retry_after settings =
    add_time finished (request_gap settings started finished) >>= λ next.
    timedelta (or_zero retry_after) >>= λ asked.
    settle_outcome (counted state finished next) finished outcome asked settings
