-- ===== src/WatermarkControl/Tests.antt =====
-- A sink task with two senders.
use klein.Base.{none, ok, ◌≡◌, refl, true, some, [], ◌∷◌}
use klein.Base.Int.{ℤ, pos}
use klein.Base.Dict.{Dict}
use klein.WatermarkControl.{WatermarkController, Bound, sink, note_processed}

abbrev marks : Dict ℤ
marks = (7, pos 4) ∷ (8, pos 2) ∷ []

abbrev controller : WatermarkController
controller = record {
  mode = sink;
  flush_interval_batches = 2;
  forwarded_to = (7, pos 1) ∷ [];
  pending_by_sender = marks;
  batches_since_flush = 2;
}

-- A boundary whose output flush takes in another batch of sender 8.
abbrev boundary : Bound
boundary = record {
  flush_input = λ c. ok c;
  flush_input_async = none;
  flush_output = λ c. ok (note_processed c (some 8) (some (pos 3))).1;
  emit = none;
}

-- Sender 7 has gone on to 6 during the flush.
abbrev went_on : WatermarkController
went_on = record controller { pending_by_sender = (7, pos 6) ∷ (8, pos 2) ∷ [] }

due : (note_processed controller (some 8) (some (pos 3))).0 ≡ true
unfolding note_processed
due = refl
