-- ===== src/Wikidata/Tests.antt =====
-- Runs of the throttle of backend/app/wikidata with the settings' defaults.
use newsintel.Wikidata.Throttle.Overflow.{after_request-overflows}
use newsintel.Wikidata.Throttle.Outcomes.{
  after_request_strikes, after_request_counts, after_request_pauses,
}
use newsintel.Wikidata.Throttle.Budget.{sent_on, Reach-IsSpaced, sent_on-le-budget}
use newsintel.Wikidata.Throttle.Runs.{Turn, World, IsSpaced, finish_turn, Reach, start, Step}
use newsintel.Wikidata.Throttle.{
  Settings, IsGentle, ThrottleState, after_request, wait_seconds, day_us, initial, Outcome,
  add_time, Wait, date, PauseReason, timedelta, settle_outcome, counted, pause_for,
}
use newsintel.Prelude.{ℕ, ◌+◌, ◌*◌, ◌≡◌, arith, some, ◌∷◌, none, [], ◌≤◌, refl}

abbrev second : ℕ
second = 1_000_000

abbrev defaults : Settings
defaults = record {
  min_interval = 3 * second;
  slow_response = second;
  slow_wait = 5 * second;
  daily_request_budget = 2000;
  rate_limit_pause = 900 * second;
  repeat_rate_limit_pause = day_us;
  error_pause = 300 * second;
  error_pause_max = 21600 * second;
  blocked_pause = day_us;
}

defaults-IsGentle : IsGentle defaults
defaults-IsGentle = record {
  interval = omega arith;
  slow = omega arith;
  rate_limit = omega arith;
  error = omega arith;
}

abbrev many_strikes : ThrottleState
many_strikes = record initial { error_strikes = 41 }

after_request-overflows_example :
    after_request many_strikes 10 20 Outcome.error none defaults ≡ none
after_request-overflows_example =
    after_request-overflows many_strikes 10 20 none defaults defaults-IsGentle (omega arith)

-- An error at 20 s that took two seconds, with a Retry-After of ten minutes.
abbrev after_error : ThrottleState
after_error = record {
  next_request_at = some (25 * second);
  paused_until = some (620 * second);
  pause_reason = some PauseReason.error;
  error_strikes = 1;
  last_rate_limited_at = none;
  day = some 0;
  requests_today = 1;
}

after_error-run :
    after_request initial (18 * second) (20 * second) Outcome.error (some (600 * second)) defaults
    ≡ some after_error
unfolding after_request add_time timedelta settle_outcome counted pause_for date
after_error-run = refl

after_request_pauses_example :
    wait_seconds after_error (500 * second) defaults
    ≡ Wait.paused (620 * second) (some PauseReason.error)
after_request_pauses_example =
    after_request_pauses initial (18 * second) (20 * second) Outcome.error (some (600 * second))
      defaults after_error (500 * second) after_error-run refl (omega arith)

after_request_counts_example :
    (after_error.next_request_at ≡ some (25 * second))
    × (after_error.day ≡ some (date (20 * second)))
    × (after_error.requests_today ≡ 1)
after_request_counts_example =
    after_request_counts initial (18 * second) (20 * second) Outcome.error (some (600 * second))
      defaults after_error after_error-run

after_request_strikes_example : after_error.error_strikes ≡ 1
after_request_strikes_example =
    after_request_strikes initial (18 * second) (20 * second) Outcome.error (some (600 * second))
      defaults after_error after_error-run

abbrev first_turn : Turn
first_turn = record {
  asked_at = 10 * second;
  started = 10 * second;
  finished = 10 * second + 200;
  recorded = some Outcome.ok;
  retry_after = none;
}

abbrev second_turn : Turn
second_turn = record {
  asked_at = 11 * second;
  started = 13 * second + 200;
  finished = 14 * second;
  recorded = some Outcome.ok;
  retry_after = none;
}

abbrev after_first : ThrottleState
after_first = record initial {
  next_request_at = some (13 * second + 200);
  day = some 0;
  requests_today = 1;
}

abbrev after_second : ThrottleState
after_second = record initial {
  next_request_at = some (17 * second);
  day = some 0;
  requests_today = 2;
}

abbrev two_turns : World
two_turns = record {
  state = after_second;
  clock = 14 * second;
  log = second_turn ∷ first_turn ∷ [];
}

two_turns-Reach : Reach defaults start two_turns
unfolding wait_seconds date finish_turn after_request add_time timedelta settle_outcome counted
two_turns-Reach =
    Reach.next
      (Reach.next Reach.here
        (Step.answers first_turn 0 after_first (omega arith) refl (omega arith) (omega arith) refl))
      (Step.answers second_turn (2 * second + 200) after_second (omega arith) refl (omega arith)
        (omega arith) refl)

Reach-IsSpaced_example : IsSpaced (3 * second) (second_turn ∷ first_turn ∷ [])
Reach-IsSpaced_example = Reach-IsSpaced defaults two_turns (omega arith) two_turns-Reach

sent_on-le-budget_example : sent_on 0 (second_turn ∷ first_turn ∷ []) ≤ 2000
sent_on-le-budget_example = sent_on-le-budget defaults two_turns 0 (omega arith) two_turns-Reach
