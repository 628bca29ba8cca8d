-- ===== src/EventTime/Tests.antt =====
-- A tracker with two inputs, one of which reports progress and one of which goes idle.
use klein.Base.{ℕ, ◌≡◌, refl, inr, false, none, some, List, [], ◌∷◌, ok, raise, type_error}
use klein.Base.Int.{pos, negsuc}
use klein.EventTime.{
  StreamControl, watermark, input_idle, other, InputState, InputWatermarkTracker,
  input_watermark_tracker, candidate, on_control, reconfigure_inputs, all_idle, on_watermark,
  on_idle, advance, reactivate_output,
}
use klein.Base.Predicates.{All}
use klein.EventTime.Progress.{HasReached, Reports, Advances, candidate_lem, on_control-Advances}
use klein.EventTime.Runs.{run, RisesTo, run-RisesTo, reconfigure_inputs-Advances}
use klein.EventTime.Idleness.{IsCoherent, on_control-IsCoherent}

abbrev two_inputs : InputWatermarkTracker
unfolding input_watermark_tracker
two_inputs = input_watermark_tracker (0 ∷ 1 ∷ [])

abbrev reported : List InputState
reported = record { mark = some 9; idle = false } ∷ record { mark = some 7; idle = false } ∷ []

-- Input 0 has reported 9, input 1 nothing yet.
abbrev one_reported : InputWatermarkTracker
one_reported = record {
  inputs =
      (0, record { mark = some 9; idle = false }) ∷ (1, record { mark = none; idle = false }) ∷ [];
  output_watermark = negsuc 0;
  output_idle = false;
}

first_report : on_control 0 (watermark 9) two_inputs ≡ (ok [], one_reported)
unfolding on_control two_inputs on_watermark advance reactivate_output
first_report = refl

-- Once input 1 is idle, input 0 alone decides.
second_idle : (on_control 1 input_idle one_reported).0 ≡ ok (watermark 9 ∷ [])
unfolding on_control on_idle advance all_idle
second_idle = refl

unknown_control : (on_control 5 other one_reported).0 ≡ raise type_error
unfolding on_control
unknown_control = refl

candidate_example : All (HasReached 7) reported × Reports 7 reported
unfolding candidate
candidate_example = candidate_lem reported 7 refl

on_control-Advances_example :
    Advances one_reported (watermark 9 ∷ []) (on_control 1 input_idle one_reported).1
on_control-Advances_example =
    on_control-Advances 1 input_idle one_reported (watermark 9 ∷ []) second_idle

abbrev arrivals : List (ℕ × StreamControl)
arrivals = (0, watermark 9) ∷ (1, watermark 4) ∷ (1, watermark 12) ∷ []

abbrev after_arrivals : InputWatermarkTracker
after_arrivals = record {
  inputs =
      (0, record { mark = some 9; idle = false })
      ∷ (1, record { mark = some 12; idle = false })
      ∷ [];
  output_watermark = pos 9;
  output_idle = false;
}

arrivals-run : run two_inputs arrivals ≡ ok (watermark 4 ∷ watermark 9 ∷ [], after_arrivals)
unfolding run on_control two_inputs on_watermark advance reactivate_output
arrivals-run = refl

run-RisesTo_example : RisesTo two_inputs.output_watermark (4 ∷ 9 ∷ []) (pos 9)
run-RisesTo_example =
    run-RisesTo arrivals two_inputs after_arrivals (watermark 4 ∷ watermark 9 ∷ []) arrivals-run

reconfigure_inputs-Advances_example :
    let (out, t') = reconfigure_inputs (0 ∷ []) one_reported in Advances one_reported out t'
reconfigure_inputs-Advances_example = reconfigure_inputs-Advances (0 ∷ []) one_reported

on_control-IsCoherent_example : IsCoherent (on_control 1 input_idle one_reported).1
unfolding all_idle
on_control-IsCoherent_example =
    on_control-IsCoherent 1 input_idle one_reported (watermark 9 ∷ []) second_idle (inr refl)
