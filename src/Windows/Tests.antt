-- ===== src/Windows/Tests.antt =====
-- Windows of ten seconds, every four seconds.
use klein.Base.{◌≡◌, refl, List, [], ◌∷◌, some, ok, arith}
use klein.Base.Int.{ℤ, pos, negsuc, ◌+ℤ◌, ◌-ℤ◌, ◌<ℤ◌, ◌≤ℤ◌}
use klein.Windows.{
  TimeWindow, TumblingWindow, tumbling_assign, SlidingWindow, sliding_assign, slide_back,
  grid_start, time_window,
}
use klein.Windows.Assigners.{AreWindows, IsOnGrid, sliding_assign-AreWindows}

abbrev tumbling : TumblingWindow
tumbling = record { size = 10; offset = 3 }

-- A timestamp before the epoch falls into the window below.
before_epoch :
    tumbling_assign tumbling (negsuc 7) ≡ ok (record { start = negsuc 16; end = negsuc 6 })
unfolding tumbling_assign grid_start time_window ◌+ℤ◌ ◌-ℤ◌
before_epoch = refl

abbrev sliding : SlidingWindow
sliding = record { size = 10; slide = 4; offset = 0 }

three_windows :
    sliding_assign sliding (pos 9)
    ≡ some (
        ok (
          record { start = pos 8; end = pos 18 }
          ∷ record { start = pos 4; end = pos 14 }
          ∷ record { start = pos 0; end = pos 10 }
          ∷ []))
unfolding sliding_assign slide_back grid_start time_window ◌+ℤ◌ ◌-ℤ◌
three_windows = refl

abbrev shifted_by_one : SlidingWindow
shifted_by_one = record sliding { offset = 1 }

sliding_assign-AreWindows_example :
    (vs : List TimeWindow) × (start : ℤ) × (sliding_assign shifted_by_one (pos 9) ≡ some (ok vs))
    × IsOnGrid 4 1 start
    × (start ≤ℤ pos 9)
    × (pos 9 <ℤ start +ℤ pos 4)
    × AreWindows shifted_by_one (pos 9) start vs
sliding_assign-AreWindows_example =
    sliding_assign-AreWindows shifted_by_one (pos 9) (omega arith) (omega arith)
