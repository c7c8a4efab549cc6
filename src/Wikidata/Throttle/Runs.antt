-- ===== src/Wikidata/Throttle/Runs.antt =====
-- Turns one after another (`MemoryThrottle.slot`, `PostgresThrottle.slot` of
-- backend/app/wikidata/throttle.py): the lock, or the locked row, makes them follow one another, and
-- a turn is asked for, waits, starts, and is recorded when it is finished.
use newsintel.Prelude.{ℕ, ◌+◌, ◌≤◌, ◌≡◌, Option, none, some, List, [], ◌∷◌}
use newsintel.Wikidata.Throttle.{
  Settings, ThrottleState, Outcome, Wait, wait_seconds, after_request, initial,
}

-- A slot's times, and what was recorded of it.
pub record Turn : Type 0 where
  pub asked_at : ℕ
  pub started : ℕ
  pub finished : ℕ
  pub recorded : Option Outcome
  pub retry_after : Option ℕ

-- `slot.outcome or "error"`
abbrev pub outcome_of : Turn → Outcome
outcome_of t = elim (t.recorded) [ none ↦ Outcome.error | some o ↦ o ]

-- `_Base._finish`
unfoldable pub finish_turn : Settings → ThrottleState → Turn → Option ThrottleState
finish_turn settings state t =
    after_request state t.started t.finished (outcome_of t) t.retry_after settings

-- The throttle's state, the end of the last turn, and the turns, the latest first.
pub record World : Type 0 where
  pub state : ThrottleState
  pub clock : ℕ
  pub log : List Turn

-- One turn that is let through and recorded. The clock does not run backwards, and a sleep lasts at
-- least as long as it was asked to.
pub data Step (settings : Settings) (w : World) : World → Type 0 where
  answers :
      (t : Turn) (seconds : ℕ) (state : ThrottleState)
      → w.clock ≤ t.asked_at
      → wait_seconds w.state t.asked_at settings ≡ Wait.wait seconds
      → t.asked_at + seconds ≤ t.started
      → t.started ≤ t.finished
      → finish_turn settings w.state t ≡ some state
      → Step settings w (record { state = state; clock = t.finished; log = t ∷ w.log })

pub data Reach (settings : Settings) (v : World) : World → Type 0 where
  here : Reach settings v v
  next : {w x : World} → Reach settings v w → Step settings w x → Reach settings v x

-- Nothing sent yet.
abbrev pub start : World
start = record { state = initial; clock = 0; log = [] }

-- The last turn of the log finished at least the interval before `started`.
abbrev pub StartsAfter : ℕ → ℕ → List Turn → Type 0
StartsAfter interval started [] = Unit
StartsAfter interval started (u ∷ log) = u.finished + interval ≤ started

-- Each turn started at least the interval after the one before it finished.
abbrev pub IsSpaced : ℕ → List Turn → Type 0
IsSpaced interval [] = Unit
IsSpaced interval (t ∷ log) = StartsAfter interval t.started log × IsSpaced interval log
