-- ===== src/RestartStrategy.antt =====
-- src/ray/klein/runtime/scheduler/restart_strategy.py: the fixed-delay restart policy, which counts
-- the restarts of the last `count_interval` and gives a job up that fails too fast. Durations are
-- whole microseconds, the grain of `timedelta`, so that no sum is rounded; times are epoch seconds.
pub mod Window
mod Tests
use klein.Base.{
  ℕ, ◌+◌, ◌*◌, ◌/◌, Bool, List, [], ◌∷◌, ◌++◌, Outcome, ok, value_error, raise_if, ◌>>=◌, ◌>>◌, ltb,
  if◌then◌else◌, length,
}
use klein.Base.Int.{ℤ, pos, pos_part, ltb_ℤ, leb_ℤ}

pub record FixedDelayRestartStrategy : Type 0 where
  pub max_attempts : ℕ
  pub count_interval : ℕ
  pub delay : ℕ
  pub window : List ℕ

-- `__init__`
pub fixed_delay_restart_strategy : ℤ → ℤ → ℤ → Outcome FixedDelayRestartStrategy
fixed_delay_restart_strategy max_attempts count_interval delay = do
  raise_if (ltb_ℤ max_attempts (pos 0)) value_error
  raise_if (leb_ℤ count_interval (pos 0)) value_error
  raise_if (ltb_ℤ delay (pos 0)) value_error
  ok (record {
    max_attempts = pos_part max_attempts;
    count_interval = pos_part count_interval;
    delay = pos_part delay;
    window = [];
  })

abbrev pub micros_per_second : ℕ
micros_per_second = 1000000

-- `window[0] < now - count_interval`
pub expired : ℕ → ℕ → ℕ → Bool
expired interval now t = ltb (t * micros_per_second + interval) (now * micros_per_second)

-- `while window and window[0] < window_start: window.popleft()`
pub popleft_expired : ℕ → ℕ → List ℕ → List ℕ
unfolding expired
popleft_expired interval now [] = []
popleft_expired interval now (t ∷ ts) =
    let rest = popleft_expired interval now ts in if expired interval now t then rest else t ∷ ts

-- `_prune`
pub prune : FixedDelayRestartStrategy → ℕ → FixedDelayRestartStrategy
prune s now = record s { window = popleft_expired s.count_interval now s.window }

pub record_and_should_suppress :
    FixedDelayRestartStrategy → ℕ → (Bool × ℕ) × FixedDelayRestartStrategy
unfolding prune
record_and_should_suppress s now =
    let s' = prune s now in
    let s'' = record s' { window = s'.window ++ now ∷ [] } in
    let attempts = length s''.window in ((ltb s''.max_attempts attempts, attempts), s'')

pub window_view : FixedDelayRestartStrategy → ℕ → (ℕ × ℕ × ℕ) × FixedDelayRestartStrategy
unfolding prune
window_view s now =
    let s' = prune s now in
    ((length s'.window, s'.max_attempts, s'.count_interval / micros_per_second), s')
