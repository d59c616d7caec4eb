-- ===== src/Workers.antt =====
-- The workers of web/src/app/Poller.js, Pruner.js and AccountApi.js, which web/src/components/hooks.js
-- starts and stops: one of them, with the timers of the page that are its own.
pub mod Timers
mod Tests
use ntfy.Base.{
  ℕ, Bool, true, false, not, ◌&&◌, ◌||◌, Option, none, some, List, [], ◌∷◌, filter, eqb, ◌+◌,
}

pub record Timer : Type 0 where
  pub id : ℕ
  pub millis : ℕ
  pub repeats : Bool

-- `timer` is the worker's field; the timers that are set are the browser's.
pub record Worker : Type 0 where
  pub timer : Option ℕ
  pub fresh : ℕ
  pub timers : List Timer

-- How long a worker waits before it runs first, and how often it runs.
pub record Rhythm : Type 0 where
  pub delay_millis : ℕ
  pub interval_millis : ℕ

abbrev pub poller_rhythm : Rhythm
poller_rhythm = record { delay_millis = 2000; interval_millis = 300000 }

abbrev pub pruner_rhythm : Rhythm
pruner_rhythm = record { delay_millis = 25000; interval_millis = 1800000 }

abbrev pub account_rhythm : Rhythm
account_rhythm = record { delay_millis = 45000; interval_millis = 900000 }

abbrev pub idle : ℕ → Worker
idle fresh = record { timer = none; fresh = fresh; timers = [] }

abbrev pub set_timer : ℕ → Bool → Worker → Worker
set_timer millis repeats w = record w {
  fresh = w.fresh + 1;
  timers = record { id = w.fresh; millis = millis; repeats = repeats } ∷ w.timers;
}

abbrev pub started : Rhythm → Worker → Worker
started r w =
    set_timer r.delay_millis false
      (record (set_timer r.interval_millis true w) { timer = some w.fresh })

abbrev pub unless_started : Option ℕ → Rhythm → Worker → Worker
unless_started none r w = started r w
unless_started (some _) r w = w

-- The guard `this.timer !== null`, then `setInterval` and `setTimeout`.
unfoldable pub start_worker : Rhythm → Worker → Worker
start_worker r w = unless_started w.timer r w

abbrev pub clear : ℕ → List Timer → List Timer
clear t timers = filter (λ (x : Timer). not (eqb x.id t)) timers

abbrev pub without_timer : Option ℕ → Worker → Worker
without_timer none w = w
without_timer (some t) w = record w { timers = clear t w.timers }

-- `clearTimeout`, which clears an interval too; the field keeps its value.
unfoldable pub stop_worker : Worker → Worker
stop_worker w = without_timer w.timer w

-- A timer goes off; a timeout is spent then, an interval stays.
abbrev pub fire : ℕ → Worker → Worker
fire t w = record w { timers = filter (λ (x : Timer). not (eqb x.id t) || x.repeats) w.timers }

pub data Step (r : Rhythm) : Worker → Worker → Type 0 where
  start : (w : Worker) → Step r w (start_worker r w)
  stop : (w : Worker) → Step r w (stop_worker w)
  fires : (t : ℕ) (w : Worker) → Step r w (fire t w)

pub data Reach (r : Rhythm) (fresh : ℕ) : Worker → Type 0 where
  here : Reach r fresh (idle fresh)
  next : {w w' : Worker} → Reach r fresh w → Step r w w' → Reach r fresh w'
