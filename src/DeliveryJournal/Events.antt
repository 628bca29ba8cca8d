-- ===== src/DeliveryJournal/Events.antt =====
-- The use that the sender of an edge makes of its journal, as a list of events, and what one target
-- sees of it.
use klein.Base.{ℕ, ◌==◌, Option, List, [], ◌∷◌, Outcome, ok, ◌>>=◌, if◌then◌else◌}
use klein.Base.Int.{ℤ}
use klein.DeliveryJournal.{DeliveryJournal, next_sequence, acknowledge, record_delivery}
use klein.DeliveryJournal.Lanes.{History, delivered, acknowledged}

-- What the sender's emit path does to the journal of an edge: a batch that has landed at a target is
-- recorded under the target's next sequence, and a watermark comes back from a target.
pub data Event (R : Type 0) : Type 0 where
  landed : ℕ → List R → Event R
  forwarded : ℕ → ℤ → Event R

module _ {R : Type 0} (num_rows : R → Option ℕ) (retained_size : List R → ℕ) where
  unfoldable pub step : DeliveryJournal R → Event R → Outcome (DeliveryJournal R)
  step j (landed target records) = do
    sequence ← next_sequence j target
    record_delivery num_rows retained_size j target records sequence
  step j (forwarded target sequence) = acknowledge j target sequence

  unfoldable pub run : DeliveryJournal R → List (Event R) → Outcome (DeliveryJournal R)
  run j [] = ok j
  run j (e ∷ es) = do j' ← step j e; run j' es

-- The history of one target under the same events.
abbrev pub observe : {R : Type 0} → ℕ → History R → Event R → History R
observe t h (landed target records) = if t == target then delivered h records else h
observe t h (forwarded target sequence) = if t == target then acknowledged h sequence else h

abbrev pub history : {R : Type 0} → ℕ → History R → List (Event R) → History R
history t h [] = h
history t h (e ∷ es) = history t (observe t h e) es

abbrev pub target_of : {R : Type 0} → Event R → ℕ
target_of (landed target records) = target
target_of (forwarded target sequence) = target
