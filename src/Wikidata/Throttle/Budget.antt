-- ===== src/Wikidata/Throttle/Budget.antt =====
-- The spacing of the requests and the daily budget over every run of turns
-- (backend/app/wikidata/throttle.py).
use newsintel.Prelude.{
  ℕ, ◌+◌, ◌≤◌, ◌<◌, ◌≡◌, refl, false, none, some, List, [], ◌∷◌, arith, ◌==◌, if◌then◌else◌, inl,
  inr, Bool-cases, Option-cases, length, keep, All, eq_opt, ◌&&◌, leb, subst,
}
use newsintel.Wikidata.Throttle.{
  Settings, ThrottleState, Wait, wait_seconds, request_gap, date, or_zero,
}
use newsintel.Wikidata.Throttle.Outcomes.{after_request_counts}
use newsintel.Wikidata.Throttle.Runs.{
  Turn, World, Step, Reach, start, IsSpaced, StartsAfter, outcome_of, finish_turn,
}

-- How many requests finished on a day.
abbrev pub sent_on : ℕ → List Turn → ℕ
sent_on day log = length (keep (λ t. date t.finished == day) log)

-- The day and the count are those of the last turn, which ended at the clock.
abbrev LastDay : World → List Turn → Type 0
LastDay w [] = w.state.day ≡ none
LastDay w (t ∷ log) =
    (w.clock ≡ t.finished)
    × (w.state.day ≡ some (date t.finished))
    × (w.state.requests_today ≡ sent_on (date t.finished) (t ∷ log))

abbrev NextAfter : Settings → ThrottleState → List Turn → Type 0
NextAfter settings state [] = Unit
NextAfter settings state (t ∷ log) =
    t.finished + settings.min_interval ≤ or_zero state.next_request_at

-- What holds between two turns.
record Inv (settings : Settings) (w : World) : Type 0 where
  ended : All (λ t. t.finished ≤ w.clock) w.log
  day : LastDay w w.log
  next_after : NextAfter settings w.state w.log
  spaced : IsSpaced settings.min_interval w.log
  budget : (d : ℕ) → sent_on d w.log ≤ settings.daily_request_budget

date_mono : (a b : ℕ) → a ≤ b → date a ≤ date b
unfolding date
date_mono a b h = omega arith

-- A turn that was let through waited until the next request was due, within the budget of its day.
wait_allows :
    (state : ThrottleState) (now : ℕ) (settings : Settings) (seconds : ℕ)
    → wait_seconds state now settings ≡ Wait.wait seconds
    → (or_zero state.next_request_at ≤ now + seconds)
      × ((eq_opt state.day (some (date now))
            && leb settings.daily_request_budget state.requests_today)
          ≡ false)
unfolding wait_seconds
wait_allows state now settings seconds h = elim (Option-cases state.next_request_at) [
  | inl e ↦ ground arith
  | inr (next, e) ↦ ground arith
]

gap_floor :
    (settings : Settings) (started finished : ℕ)
    → settings.min_interval ≤ request_gap settings started finished
gap_floor settings started finished = ground arith

spaced_step :
    (settings : Settings) (log : List Turn) (state : ThrottleState) (started : ℕ)
    → NextAfter settings state log
    → or_zero state.next_request_at ≤ started
    → StartsAfter settings.min_interval started log
spaced_step settings [] state started h k = tt
spaced_step settings (t ∷ log) state started h k = omega arith

none_on :
    (d : ℕ) (log : List Turn) (clock : ℕ)
    → All (λ t. t.finished ≤ clock) log
    → date clock < d
    → sent_on d log ≡ 0
none_on d [] clock h lt = refl
none_on d (t ∷ log) clock h lt = ground (arith, none_on d log clock h.1, date_mono t.finished clock)

sent_on-step :
    (d : ℕ) (t : Turn) (log : List Turn)
    → sent_on d (t ∷ log) ≡ (if date t.finished == d then 1 else 0) + sent_on d log
sent_on-step d t log = ground arith

-- The count of the day a turn finished on, read from the state before it.
counted_on :
    (w : World) (log : List Turn) (t : Turn)
    → LastDay w log
    → All (λ u. u.finished ≤ w.clock) log
    → w.clock ≤ t.finished
    → (if eq_opt w.state.day (some (date t.finished)) then w.state.requests_today else 0)
      ≡ sent_on (date t.finished) log
counted_on w [] t h ended le = rw h
counted_on w (u ∷ log) t h ended le = elim (Bool-cases (date u.finished == date t.finished)) [
  | inl e ↦
      let same : date u.finished ≡ date t.finished = ground (arith, e) in
      ground (arith, h.1, h.2, same)
  | inr e ↦
      let before : date u.finished ≤ date t.finished =
        date_mono u.finished t.finished (omega arith) in
      let clock : date w.clock < date t.finished = ground arith in
      ground (arith, none_on (date t.finished) (u ∷ log) w.clock ended clock)
]

-- The day on which a turn finished had requests left when the turn was let through.
spare :
    (settings : Settings) (w : World) (log : List Turn) (t : Turn) (seconds : ℕ)
    → LastDay w log
    → 1 ≤ settings.daily_request_budget
    → w.clock ≤ t.asked_at
    → t.asked_at ≤ t.finished
    → wait_seconds w.state t.asked_at settings ≡ Wait.wait seconds
    → (if eq_opt w.state.day (some (date t.finished)) then w.state.requests_today else 0)
      < settings.daily_request_budget
spare settings w [] t seconds day one le took h = ground arith
spare settings w (u ∷ log) t seconds day one le took h =
    let early : date u.finished ≤ date t.asked_at = date_mono u.finished t.asked_at (omega arith) in
    let late : date t.asked_at ≤ date t.finished = date_mono t.asked_at t.finished took in
    let free = (wait_allows w.state t.asked_at settings seconds h).1 in ground arith

-- The sum over a day stays within the budget when a turn is let through.
within_budget :
    (settings : Settings) (w : World) (log : List Turn) (t : Turn) (seconds d : ℕ)
    → LastDay w log
    → All (λ u. u.finished ≤ w.clock) log
    → 1 ≤ settings.daily_request_budget
    → w.clock ≤ t.asked_at
    → t.asked_at ≤ t.finished
    → wait_seconds w.state t.asked_at settings ≡ Wait.wait seconds
    → sent_on d log ≤ settings.daily_request_budget
    → sent_on d (t ∷ log) ≤ settings.daily_request_budget
within_budget settings w log t seconds d day ended one le took h before =
    let count = counted_on w log t day ended (omega arith) in
    let left = spare settings w log t seconds day one le took h in
    elim (Bool-cases (date t.finished == d)) [
      | inl e ↦
          let same : date t.finished ≡ d = ground (arith, e) in
          let bound : sent_on (date t.finished) (t ∷ log) ≤ settings.daily_request_budget =
            ground arith in
          subst (λ d. sent_on d (t ∷ log) ≤ settings.daily_request_budget) same bound
      | inr e ↦ ground arith
    ]

ended_by :
    (a b : ℕ) (log : List Turn)
    → a ≤ b
    → All (λ t. t.finished ≤ a) log
    → All (λ t. t.finished ≤ b) log
ended_by a b [] le h = tt
ended_by a b (t ∷ log) le h = (omega arith, ended_by a b log le h.1)

Step-Inv :
    (settings : Settings) (w x : World)
    → 1 ≤ settings.daily_request_budget
    → Inv settings w
    → Step settings w x
    → Inv settings x
unfolding finish_turn
Step-Inv settings w x one i (Step.answers t seconds state le h slept took done) =
    let counts =
      after_request_counts w.state t.started t.finished (outcome_of t) t.retry_after settings state
        done in
    let clear = wait_allows w.state t.asked_at settings seconds h in
    record {
      ended = (omega arith, ended_by w.clock t.finished w.log (omega arith) i.ended);
      day = (refl, counts.1, ground (arith, counted_on w w.log t i.day i.ended (omega arith)));
      next_after = ground (arith, gap_floor settings t.started t.finished);
      spaced = (spaced_step settings w.log w.state t.started i.next_after (omega arith), i.spaced);
      budget = λ d.
          within_budget settings w w.log t seconds d i.day i.ended one le (omega arith) h
            (i.budget d);
    }

Reach-Inv :
    (settings : Settings) (w : World)
    → 1 ≤ settings.daily_request_budget
    → Reach settings start w
    → Inv settings w
Reach-Inv settings w one Reach.here = record {
  ended = tt;
  day = refl;
  next_after = tt;
  spaced = tt;
  budget = λ d. omega arith;
}
Reach-Inv settings w one (Reach.next {w = v} reach step) =
    Step-Inv settings v w one (Reach-Inv settings v one reach) step

-- With a daily budget of one request or more, in every run of recorded turns from the first on: each
-- request starts at least the configured interval after the one before it finished.
pub Reach-IsSpaced :
    (settings : Settings) (w : World)
    → 1 ≤ settings.daily_request_budget
    → Reach settings start w
    → IsSpaced settings.min_interval w.log
Reach-IsSpaced settings w one reach = (Reach-Inv settings w one reach).spaced

-- With a daily budget of one request or more, in every run of recorded turns from the first on: the
-- requests that finish on any one day are no more than the budget.
pub sent_on-le-budget :
    (settings : Settings) (w : World) (d : ℕ)
    → 1 ≤ settings.daily_request_budget
    → Reach settings start w
    → sent_on d w.log ≤ settings.daily_request_budget
sent_on-le-budget settings w d one reach = (Reach-Inv settings w one reach).budget d
