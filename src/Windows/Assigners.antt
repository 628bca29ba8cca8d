-- ===== src/Windows/Assigners.antt =====
-- The windows that an assigner gives contain the timestamp and lie on its grid.
use klein.Base.{
  ℕ, ◌+◌, ◌*◌, ◌⊎◌, zero, suc, ◌<◌, ◌≡◌, refl, List, [], ◌∷◌, ok, arith, Bool-cases, inl, inr, some,
}
use klein.Base.Division.{div_bounds}
use klein.Base.Int.{
  ℤ, sub_ℕ, pos, negsuc, ltb_ℤ, ◌+ℤ◌, ◌-ℤ◌, ◌≤ℤ◌, ◌<ℤ◌, int_laws, +ℤ_parts, -ℤ_parts,
}
use klein.Windows.{
  TimeWindow, time_window, floor_div, times, TumblingWindow, grid_start, tumbling_assign,
  SlidingWindow, slide_back, sliding_assign,
}

times_parts :
    (x : ℤ) (b : ℕ)
    → 0 < b
    → (times (floor_div x b) b ≤ℤ x) × (x <ℤ times (floor_div x b) b +ℤ pos b)
times_parts (pos a) b h = grind (int_laws, div_bounds a b h)
times_parts (negsuc a) b h = grind (int_laws, div_bounds a b h)

shifted :
    (g timestamp : ℤ) (offset step : ℕ)
    → g ≤ℤ timestamp -ℤ pos offset
    → timestamp -ℤ pos offset <ℤ g +ℤ pos step
    → (g +ℤ pos offset ≤ℤ timestamp) × (timestamp <ℤ g +ℤ pos offset +ℤ pos step)
shifted g timestamp offset step lo hi = (
  omega (arith, lo, -ℤ_parts timestamp (pos offset), +ℤ_parts g (pos offset)),
  omega (
    arith,
    hi,
    -ℤ_parts timestamp (pos offset),
    +ℤ_parts g (pos offset),
    +ℤ_parts g (pos step),
    +ℤ_parts (g +ℤ pos offset) (pos step),
  ),
)

grid_start_lem :
    (step offset : ℕ) (timestamp : ℤ)
    → 0 < step
    → (grid_start step offset timestamp ≤ℤ timestamp)
      × (timestamp <ℤ grid_start step offset timestamp +ℤ pos step)
unfolding grid_start
grid_start_lem step offset timestamp h =
    let b = times_parts (timestamp -ℤ pos offset) step h in shifted _ timestamp offset step b.0 b.1

-- For a positive size the window of a tumbling assigner exists, contains the timestamp and is as
-- long as the size.
pub tumbling_assign-contains :
    (w : TumblingWindow) (timestamp : ℤ)
    → 0 < w.size
    → (v : TimeWindow) × (tumbling_assign w timestamp ≡ ok v)
      × (v.start ≤ℤ timestamp)
      × (timestamp <ℤ v.end)
      × (v.end ≡ v.start +ℤ pos w.size)
unfolding tumbling_assign time_window
tumbling_assign-contains w timestamp h =
    let start = grid_start w.size w.offset timestamp in
    let (lo, hi) = grid_start_lem w.size w.offset timestamp h in
    let longer : start <ℤ start +ℤ pos w.size = omega (arith, +ℤ_parts start (pos w.size), h) in
    (record { start = start; end = start +ℤ pos w.size }, ground (arith, longer), lo, hi, refl)

-- Every window contains the timestamp, and the next one starts one slide earlier.
abbrev pub AreWindows : SlidingWindow → ℤ → ℤ → List TimeWindow → Type 0
AreWindows w timestamp start [] = start +ℤ pos w.size ≤ℤ timestamp
AreWindows w timestamp start (v ∷ vs) =
    (v.start ≡ start)
    × (v.end ≡ start +ℤ pos w.size)
    × (v.start ≤ℤ timestamp)
    × (timestamp <ℤ v.end)
    × AreWindows w timestamp (start -ℤ pos w.slide) vs

time_window_lem :
    (start end : ℤ)
    → start <ℤ end
    → time_window start end ≡ ok (record { start = start; end = end })
unfolding time_window
time_window_lem start end h = ground arith

-- One round for each millisecond by which the window ends behind the timestamp is enough.
slide_back_lem :
    (fuel : ℕ) (w : SlidingWindow) (timestamp start : ℤ)
    → 0 < w.size
    → 0 < w.slide
    → start ≤ℤ timestamp
    → start +ℤ pos w.size ≤ℤ timestamp +ℤ pos fuel
    → (vs : List TimeWindow) × (slide_back fuel w timestamp start ≡ some (ok vs))
      × AreWindows w timestamp start vs
unfolding slide_back
slide_back_lem zero w timestamp start hs hl before enough =
    let done : start +ℤ pos w.size ≤ℤ timestamp =
      omega (arith, enough, +ℤ_parts timestamp (pos 0)) in
    ([], ground (arith, done), done)
slide_back_lem (suc fuel) w timestamp start hs hl before enough =
    elim (Bool-cases (ltb_ℤ timestamp (start +ℤ pos w.size))) [
      | inr done ↦ ([], rw (slide_back, done) refl, ground (arith, done))
      | inl more ↦
          let earlier = start -ℤ pos w.slide in
          let (vs, at, right) =
            slide_back_lem fuel w timestamp earlier hs hl
              (omega (arith, before, -ℤ_parts start (pos w.slide)))
              (omega (
                arith,
                enough,
                hl,
                -ℤ_parts start (pos w.slide),
                +ℤ_parts start (pos w.size),
                +ℤ_parts earlier (pos w.size),
                +ℤ_parts timestamp (pos fuel),
                +ℤ_parts timestamp (pos (suc fuel)),
              )) in
          let longer : start <ℤ start +ℤ pos w.size =
            omega (arith, +ℤ_parts start (pos w.size), hs) in
          let v : TimeWindow = record { start = start; end = start +ℤ pos w.size } in
          (
            v ∷ vs,
            rw (more, slide_back, at, time_window_lem start (start +ℤ pos w.size) longer) refl,
            (refl, refl, before, ground (arith, more), right),
          )
    ]

-- The number is the offset, or whole steps away from it.
abbrev pub IsOnGrid : ℕ → ℕ → ℤ → Type 0
IsOnGrid step offset x =
    (k : ℕ) × ((x ≡ pos (k * step + offset)) ⊎ (x +ℤ pos (k * step) ≡ pos offset))

sub_zero : (a b : ℕ) → sub_ℕ 0 a +ℤ pos b +ℤ pos a ≡ pos b
sub_zero a b = grind int_laws

grid_start-IsOnGrid :
    (step offset : ℕ) (timestamp : ℤ) → IsOnGrid step offset (grid_start step offset timestamp)
unfolding grid_start
grid_start-IsOnGrid step offset timestamp = at (floor_div (timestamp -ℤ pos offset) step)
  where
    at : (q : ℤ) → IsOnGrid step offset (times q step +ℤ pos offset)
    at (pos q) = (q, inl (grind int_laws))
    at (negsuc q) = (q + 1, inr (sub_zero ((q + 1) * step) offset))

-- For a positive size and slide `assign_windows` of a sliding assigner ends. Its windows are those
-- that contain the timestamp among those that start at the offset or whole slides away from it: the
-- first starts at the last such point that is not after the timestamp, each further one a slide
-- earlier, and the next one would end at or before the timestamp.
pub sliding_assign-AreWindows :
    (w : SlidingWindow) (timestamp : ℤ)
    → 0 < w.size
    → 0 < w.slide
    → (vs : List TimeWindow) × (start : ℤ) × (sliding_assign w timestamp ≡ some (ok vs))
      × IsOnGrid w.slide w.offset start
      × (start ≤ℤ timestamp)
      × (timestamp <ℤ start +ℤ pos w.slide)
      × AreWindows w timestamp start vs
unfolding sliding_assign
sliding_assign-AreWindows w timestamp hs hl =
    let start = grid_start w.slide w.offset timestamp in
    let (lo, hi) = grid_start_lem w.slide w.offset timestamp hl in
    let (vs, at, right) =
      slide_back_lem w.size w timestamp start hs hl lo
        (omega (arith, lo, +ℤ_parts start (pos w.size), +ℤ_parts timestamp (pos w.size))) in
    (vs, start, at, grid_start-IsOnGrid w.slide w.offset timestamp, lo, hi, right)
