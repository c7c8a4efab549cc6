-- ===== src/Wikidata/Throttle/Overflow.antt =====
-- When `after_request` raises (backend/app/wikidata/throttle.py).
use newsintel.Prelude.{ℕ, ◌*◌, ◌^◌, ◌≤◌, ◌≡◌, Option, none, arith, Option-cases, inl, inr}
use native.Mathlib.Nat.{pow-le-pow_right}
use newsintel.Wikidata.Throttle.{
  Settings, IsGentle, ThrottleState, Outcome, after_request, settle_outcome, timedelta, add_time,
  request_gap, or_zero, counted,
}

grown_overflows :
    (pause strikes : ℕ) → 60_000_000 ≤ pause → 41 ≤ strikes → timedelta (pause * 2 ^ strikes) ≡ none
unfolding timedelta
grown_overflows pause strikes long many =
    let big : 2 ^ 41 ≤ 2 ^ strikes = pow-le-pow_right (omega arith) many in
    let product : 60_000_000 * 2 ^ 41 ≤ pause * 2 ^ strikes = grind arith in ground arith

settle-error_overflows :
    (state : ThrottleState) (finished asked : ℕ) (settings : Settings)
    → 60_000_000 ≤ settings.error_pause
    → 41 ≤ state.error_strikes
    → settle_outcome state finished Outcome.error asked settings ≡ none
unfolding settle_outcome
settle-error_overflows state finished asked settings long many =
    rw (grown_overflows settings.error_pause state.error_strikes long many)

counted-error_strikes :
    (state : ThrottleState) (finished next : ℕ)
    → 41 ≤ state.error_strikes
    → 41 ≤ (counted state finished next).error_strikes
unfolding counted
counted-error_strikes state finished next h = h

-- With any settings that the validator accepts, the answer to a request that fails after 41 failures
-- in a row raises an OverflowError: the doubled pause is computed before it is capped.
pub after_request-overflows :
    (state : ThrottleState) (started finished : ℕ) (retry_after : Option ℕ) (settings : Settings)
    → IsGentle settings
    → 41 ≤ state.error_strikes
    → after_request state started finished Outcome.error retry_after settings ≡ none
unfolding after_request
after_request-overflows state started finished retry_after settings gentle many =
    elim (Option-cases (add_time finished (request_gap settings started finished))) [
      | inl late ↦ rw (late, after_request)
      | inr (next, e) ↦ elim (Option-cases (timedelta (or_zero retry_after))) [
        | inl huge ↦ ground arith
        | inr (asked, a) ↦ ground (
          arith,
          settle-error_overflows (counted state finished next) finished asked settings gentle.error
              (counted-error_strikes state finished next many),
        )
      ]
    ]
