-- ===== src/Checkpoints/Tests.antt =====
-- Barrier ids, a trigger and a checkpoint on small inputs.
use klein.Base.{
  ℕ, ◌+◌, ◌<◌, ◌≡◌, ◌&&◌, refl, Bool, true, false, none, some, List, [], ◌∷◌, ok, arith, length,
}
use klein.Base.Int.{pos, ltb_ℤ, leb_ℤ}
use klein.Base.Predicates.{contains, Distinct}
use klein.Checkpoints.BarrierIds.{
  Use, allocated, restored, reseed, next, run-reseed, RisesFrom, reseed_stride,
}
use klein.Checkpoints.BarrierIds
use klein.Checkpoints.Triggers
use klein.Checkpoints.Triggers.{
  CheckpointTrigger, checkpoint_trigger, should_trigger, Poll, Answers, run-Answers,
}
use klein.Checkpoints.Acknowledgements.{
  Checkpoint, in_progress, acknowledge_all, acknowledge_all_lem, acknowledge, eligible, reported,
  is_notifying,
}

abbrev uses : List Use
uses = allocated ∷ restored (pos 40) ∷ allocated ∷ []

some_ids : BarrierIds.run 7 uses ≡ 8 ∷ 1000041 ∷ []
unfolding BarrierIds.run next reseed
some_ids = refl

run-reseed_example :
    RisesFrom 7 (BarrierIds.run 7 uses)
    × (0 < 40 → RisesFrom (40 + reseed_stride) (BarrierIds.run 7 (restored (pos 40) ∷ uses)))
run-reseed_example = run-reseed 7 40 uses

-- A barrier every five records or ten ticks.
abbrev trigger : CheckpointTrigger
trigger = record { interval_records = 5; interval_seconds = 10; counter = 0; last_trigger = 100 }

trigger_made : checkpoint_trigger (pos 5) (pos 10) 100 ≡ ok trigger
unfolding checkpoint_trigger
trigger_made = refl

abbrev polls : List Poll
polls =
    record { emitted = true; count = 3; time = 104 }
    ∷ record { emitted = true; count = 2; time = 105 }
    ∷ record { emitted = false; count = 1; time = 115 }
    ∷ []

run-Answers_example :
    (bs : List Bool) × (t' : CheckpointTrigger) × (Triggers.run trigger polls ≡ ok (bs, t'))
    × Answers 5 10 0 100 polls bs
run-Answers_example =
    run-Answers 5 10 100 trigger polls trigger_made (omega arith, (omega arith, (omega arith, tt)))

abbrev checkpoint : Checkpoint
checkpoint = record {
  barrier_id = 9;
  required_acknowledgements = pos 2;
  trigger_sources = 1 ∷ [];
  coordinated = true;
  domain_id = none;
  required_committers = 5 ∷ 6 ∷ [];
  acknowledgements = 0;
  reason = 0;
  triggered_at_ms = some 1000;
  last_acknowledged_at_ms = none;
  completed_at_ms = none;
  status = in_progress;
  acknowledged_by = [];
  started_sources = [];
  eof_sources = [];
  operator_metrics = [];
}

-- A stranger, and a committer that reports twice.
abbrev reports : List (ℕ × ℕ)
reports = (6, 1001) ∷ (4, 1002) ∷ (6, 1003) ∷ (5, 1004) ∷ []

both_reported : (acknowledge_all checkpoint reports).acknowledged_by ≡ 5 ∷ 6 ∷ []
unfolding acknowledge_all acknowledge
both_reported = refl

acknowledge_all_example :
    let c' = acknowledge_all checkpoint reports in
    Distinct c'.acknowledged_by
    × ((k : ℕ) → contains k c'.acknowledged_by ≡ (reported k reports && eligible (5 ∷ 6 ∷ []) k))
    × (c'.acknowledgements ≡ length c'.acknowledged_by)
    × (is_notifying c'.status ≡ (ltb_ℤ (pos 0) (pos 2) && leb_ℤ (pos 2) (pos c'.acknowledgements)))
acknowledge_all_example = acknowledge_all_lem checkpoint reports refl refl refl
