-- ===== src/Rescale/Tests.antt =====
-- An operation that runs, settles and completes, and the run of a transaction.
use klein.Base.{◌≡◌, ◌≤◌, refl, some, none, true, ok}
use klein.Base.Int.{pos}
use klein.Rescale.{
  RescaleOperation, RescaleOperationPhase, running, failed, coordinating, accepted_operation,
  is_terminal, is_allowed, transition, move_to, parse_status, parse_phase, find_named, status_value,
  phase_name, candidates, checkpoint_gate, enter,
}
use klein.Rescale.Lifecycle.{Run, here, moved, IsCoherent, accepted_operation-IsCoherent}
use klein.Rescale.Transaction.{Reach, start, next}

abbrev operation : RescaleOperation
operation = accepted_operation 1 2 3 4 (pos 2) (pos 5) 100

abbrev started_operation : RescaleOperation
started_operation = move_to operation running coordinating 110 (some 110) none

abbrev failed_operation : RescaleOperation
failed_operation =
    move_to started_operation failed RescaleOperationPhase.completed 120 none (some (some 7))

operation-moves :
    (transition operation "RUNNING" "COORDINATING" 110 (some 110) none ≡ ok started_operation)
    × (transition started_operation "FAILED" "COMPLETED" 120 none (some (some 7))
        ≡ ok failed_operation)
unfolding transition parse_status parse_phase find_named status_value phase_name accepted_operation
    move_to is_allowed
operation-moves = (refl, refl)

operation-Run : Run 2 operation failed_operation
operation-Run =
    moved "FAILED" "COMPLETED" 120 none (some (some 7))
      (moved "RUNNING" "COORDINATING" 110 (some 110) none here operation-moves.0) operation-moves.1

accepted_operation-IsCoherent_example : IsCoherent failed_operation × (2 ≤ 3)
accepted_operation-IsCoherent_example =
    accepted_operation-IsCoherent 1 2 3 4 (pos 2) (pos 5) 100 2 failed_operation operation-Run

failed_is_terminal : is_terminal failed_operation.status ≡ true
unfolding move_to
failed_is_terminal = refl

transaction-Reach : Reach checkpoint_gate
unfolding enter
transaction-Reach =
    next checkpoint_gate checkpoint_gate (next candidates candidates start refl) refl
