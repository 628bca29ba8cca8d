-- ===== src/Windows.antt =====
-- src/ray/klein/api/time_window.py and the window assigners beside it. Sizes, slides and gaps are in
-- milliseconds, as `_positive_milliseconds` makes them.
pub mod Assigners
mod Tests
use klein.Base.{
  ℕ, zero, suc, ◌+◌, ◌-◌, ◌*◌, ◌/◌, ◌%◌, Bool, true, false, ◌&&◌, Option, none, some, List, [], ◌∷◌,
  Outcome, ok, raise, value_error, raise_if, ◌>>=◌, ◌>>◌, if◌then◌else◌,
}
use klein.Base.Int.{ℤ, pos, negsuc, pos_part, sub_ℕ, ltb_ℤ, leb_ℤ, max_ℤ, ◌+ℤ◌, ◌-ℤ◌}

pub record TimeWindow : Type 0 where
  pub start : ℤ
  pub end : ℤ

-- The constructor with `__post_init__`.
pub time_window : ℤ → ℤ → Outcome TimeWindow
time_window start end = do
  raise_if (leb_ℤ end start) value_error
  ok (record { start = start; end = end })

pub overlaps : TimeWindow → TimeWindow → Bool
overlaps w v = ltb_ℤ w.start v.end && ltb_ℤ v.start w.end

abbrev pub min_ℤ : ℤ → ℤ → ℤ
min_ℤ a b = if ltb_ℤ b a then b else a

pub merge : TimeWindow → TimeWindow → Outcome TimeWindow
unfolding time_window
merge w v = time_window (min_ℤ w.start v.start) (max_ℤ w.end v.end)

-- `a // b` and `a % b` for a positive b, rounded towards minus infinity.
abbrev pub floor_div : ℤ → ℕ → ℤ
floor_div (pos a) b = pos (a / b)
floor_div (negsuc a) b = negsuc (a / b)

abbrev pub floor_mod : ℤ → ℕ → ℕ
floor_mod (pos a) b = a % b
floor_mod (negsuc a) b = b - 1 - a % b

-- `q * b` for a positive b.
abbrev pub times : ℤ → ℕ → ℤ
times (pos q) b = pos (q * b)
times (negsuc q) b = sub_ℕ 0 ((q + 1) * b)

-- `_positive_milliseconds`, on the milliseconds of the interval.
pub positive_milliseconds : ℤ → Outcome ℕ
positive_milliseconds milliseconds = do
  raise_if (leb_ℤ milliseconds (pos 0)) value_error
  ok (pos_part milliseconds)

pub record TumblingWindow : Type 0 where
  pub size : ℕ
  pub offset : ℕ

pub tumbling_window : ℤ → ℤ → Outcome TumblingWindow
unfolding positive_milliseconds
tumbling_window size offset = do
  size' ← positive_milliseconds size
  ok (record { size = size'; offset = floor_mod offset size' })

-- The last start at or before the timestamp on the grid of `step` from `offset`.
pub grid_start : ℕ → ℕ → ℤ → ℤ
grid_start step offset timestamp =
    times (floor_div (timestamp -ℤ pos offset) step) step +ℤ pos offset

-- `TumblingWindow.assign_windows`, which returns one window.
pub tumbling_assign : TumblingWindow → ℤ → Outcome TimeWindow
unfolding grid_start
tumbling_assign w timestamp =
    let start = grid_start w.size w.offset timestamp in time_window start (start +ℤ pos w.size)

pub record SlidingWindow : Type 0 where
  pub size : ℕ
  pub slide : ℕ
  pub offset : ℕ

pub sliding_window : ℤ → ℤ → ℤ → Outcome SlidingWindow
unfolding positive_milliseconds
sliding_window size slide offset = do
  size' ← positive_milliseconds size
  slide' ← positive_milliseconds slide
  ok (record { size = size'; slide = slide'; offset = floor_mod offset slide' })

-- The loop of `SlidingWindow.assign_windows`; `none` when the fuel is used up.
pub slide_back : ℕ → SlidingWindow → ℤ → ℤ → Option (Outcome (List TimeWindow))
slide_back zero w timestamp start =
    if ltb_ℤ timestamp (start +ℤ pos w.size) then none else some (ok [])
slide_back (suc fuel) w timestamp start =
    let rest = slide_back fuel w timestamp (start -ℤ pos w.slide) in
    if ltb_ℤ timestamp (start +ℤ pos w.size)
    then elim rest [
      | none ↦ none
      | some later ↦ some (do
        window ← time_window start (start +ℤ pos w.size)
        windows ← later
        ok (window ∷ windows))
    ]
    else some (ok [])

-- `SlidingWindow.assign_windows`, on fuel for one round for each millisecond of the size.
pub sliding_assign : SlidingWindow → ℤ → Option (Outcome (List TimeWindow))
unfolding slide_back grid_start
sliding_assign w timestamp = slide_back w.size w timestamp (grid_start w.slide w.offset timestamp)

pub record SessionWindow : Type 0 where
  pub gap : ℕ

pub session_window : ℤ → Outcome SessionWindow
unfolding positive_milliseconds
session_window gap = do gap' ← positive_milliseconds gap; ok (record { gap = gap' })

-- `SessionWindow.assign_windows`, which returns one window.
pub session_assign : SessionWindow → ℤ → Outcome TimeWindow
session_assign w timestamp = time_window timestamp (timestamp +ℤ pos w.gap)
