-- ===== src/Rescale.antt =====
-- The rescale of an operator: its public status, src/ray/klein/runtime/job_manager/rescale_operation.py,
-- and the cursor of its transaction, src/ray/klein/runtime/scheduler/rescale_plan.py. Ids, names and
-- error texts are only stored, so they are numbers; the names of a status and a phase are parsed.
pub mod Lifecycle
pub mod Transaction
mod Tests
use Prim.Native.String.{String}
use text.Mathlib.Text.{◌==◌ as ◌is◌}
use klein.Base.{
  ℕ, zero, suc, ◌+◌, Bool, true, false, not, ◌&&◌, ◌||◌, Option, none, some, List, [], ◌∷◌, Outcome,
  ok, raise, value_error, runtime_error, key_error, raise_if, ◌>>=◌, ◌>>◌, ltb, leb, ◌==◌,
  if◌then◌else◌,
}
use klein.Base.Int.{ℤ}

pub data RescaleOperationStatus : Type 0 where
  accepted running stabilizing completed noop rejected failed : RescaleOperationStatus

pub data RescaleOperationPhase : Type 0 where
  queued coordinating stabilizing completed : RescaleOperationPhase

-- `RescaleOperationStatus.terminal`
abbrev pub is_terminal : RescaleOperationStatus → Bool
is_terminal RescaleOperationStatus.accepted = false
is_terminal RescaleOperationStatus.running = false
is_terminal RescaleOperationStatus.stabilizing = false
is_terminal RescaleOperationStatus.completed = true
is_terminal RescaleOperationStatus.noop = true
is_terminal RescaleOperationStatus.rejected = true
is_terminal RescaleOperationStatus.failed = true

-- The value of the status, and the name and the value of the phase.
pub status_value : RescaleOperationStatus → String
status_value RescaleOperationStatus.accepted = "ACCEPTED"
status_value RescaleOperationStatus.running = "RUNNING"
status_value RescaleOperationStatus.stabilizing = "STABILIZING"
status_value RescaleOperationStatus.completed = "COMPLETED"
status_value RescaleOperationStatus.noop = "NOOP"
status_value RescaleOperationStatus.rejected = "REJECTED"
status_value RescaleOperationStatus.failed = "FAILED"

pub phase_name : RescaleOperationPhase → String
phase_name RescaleOperationPhase.queued = "QUEUED"
phase_name RescaleOperationPhase.coordinating = "COORDINATING"
phase_name RescaleOperationPhase.stabilizing = "STABILIZING"
phase_name RescaleOperationPhase.completed = "COMPLETED"

abbrev pub phase_value : RescaleOperationPhase → ℕ
phase_value RescaleOperationPhase.queued = 0
phase_value RescaleOperationPhase.coordinating = 1
phase_value RescaleOperationPhase.stabilizing = 2
phase_value RescaleOperationPhase.completed = 3

-- The member of an enumeration that carries a name.
pub find_named : {A : Type 0} → (A → String) → List A → String → Option A
find_named name [] text = none
find_named name (a ∷ rest_of) text =
    let rest = find_named name rest_of text in if name a is text then some a else rest

-- `RescaleOperationStatus(text)` and `RescaleOperationPhase[text]`
pub parse_status : String → Outcome RescaleOperationStatus
unfolding find_named status_value
parse_status text =
    elim (find_named status_value
      (accepted ∷ running ∷ RescaleOperationStatus.stabilizing ∷ RescaleOperationStatus.completed
        ∷ noop ∷ rejected ∷ failed ∷ [])
      text) [ none ↦ raise value_error | some s ↦ ok s ]

pub parse_phase : String → Outcome RescaleOperationPhase
unfolding find_named phase_name
parse_phase text =
    elim (find_named phase_name
      (queued ∷ coordinating ∷ RescaleOperationPhase.stabilizing ∷ RescaleOperationPhase.completed
        ∷ [])
      text) [ none ↦ raise key_error | some p ↦ ok p ]

-- `next_status in _ALLOWED_STATUS_TRANSITIONS.get(status, set())`
pub is_allowed : RescaleOperationStatus → RescaleOperationStatus → Bool
is_allowed RescaleOperationStatus.accepted RescaleOperationStatus.running = true
is_allowed RescaleOperationStatus.accepted RescaleOperationStatus.failed = true
is_allowed RescaleOperationStatus.accepted next = false
is_allowed RescaleOperationStatus.running RescaleOperationStatus.stabilizing = true
is_allowed RescaleOperationStatus.running RescaleOperationStatus.noop = true
is_allowed RescaleOperationStatus.running RescaleOperationStatus.rejected = true
is_allowed RescaleOperationStatus.running RescaleOperationStatus.failed = true
is_allowed RescaleOperationStatus.running next = false
is_allowed RescaleOperationStatus.stabilizing RescaleOperationStatus.completed = true
is_allowed RescaleOperationStatus.stabilizing RescaleOperationStatus.failed = true
is_allowed RescaleOperationStatus.stabilizing next = false
is_allowed RescaleOperationStatus.completed next = false
is_allowed RescaleOperationStatus.noop next = false
is_allowed RescaleOperationStatus.rejected next = false
is_allowed RescaleOperationStatus.failed next = false

pub record RescaleOperation : Type 0 where
  pub operation_id : ℕ
  pub job_id : ℕ
  pub operator_id : ℕ
  pub operator_name : Option ℕ
  pub previous_parallelism : Option ℤ
  pub target_parallelism : ℤ
  pub status : RescaleOperationStatus
  pub phase : RescaleOperationPhase
  pub accepted_at_ms : ℕ
  pub started_at_ms : Option ℕ
  pub updated_at_ms : ℕ
  pub ended_at_ms : Option ℕ
  pub error : Option ℕ

-- `RescaleOperation.accepted`
pub accepted_operation : ℕ → ℕ → ℕ → ℕ → ℤ → ℤ → ℕ → RescaleOperation
accepted_operation operation_id job_id operator_id operator_name previous target now_ms = record {
  operation_id = operation_id;
  job_id = job_id;
  operator_id = operator_id;
  operator_name = some operator_name;
  previous_parallelism = some previous;
  target_parallelism = target;
  status = accepted;
  phase = queued;
  accepted_at_ms = now_ms;
  started_at_ms = none;
  updated_at_ms = now_ms;
  ended_at_ms = none;
  error = none;
}

-- `RescaleOperation.terminal`
pub terminal_operation :
    ℕ → ℕ → ℕ → Option ℕ → Option ℤ → ℤ → String → Option ℕ → ℕ → Outcome RescaleOperation
unfolding parse_status
terminal_operation operation_id job_id operator_id operator_name previous target status error
      now_ms =
    do
      parsed ← parse_status status
      raise_if (not (is_terminal parsed)) value_error
      ok (record {
        operation_id = operation_id;
        job_id = job_id;
        operator_id = operator_id;
        operator_name = operator_name;
        previous_parallelism = previous;
        target_parallelism = target;
        status = parsed;
        phase = RescaleOperationPhase.completed;
        accepted_at_ms = now_ms;
        started_at_ms = some now_ms;
        updated_at_ms = now_ms;
        ended_at_ms = some now_ms;
        error = error;
      })

abbrev pub is_completed : RescaleOperationPhase → Bool
is_completed RescaleOperationPhase.queued = false
is_completed RescaleOperationPhase.coordinating = false
is_completed RescaleOperationPhase.stabilizing = false
is_completed RescaleOperationPhase.completed = true

-- What `transition` does to the fields once its guards have passed. An `error` that is not given is
-- `none`, and one that is given may be `none` itself.
pub move_to :
    RescaleOperation
    → RescaleOperationStatus
    → RescaleOperationPhase
    → ℕ
    → Option ℕ
    → Option (Option ℕ)
    → RescaleOperation
move_to r status phase now_ms started error = record r {
  status = status;
  phase = phase;
  updated_at_ms = now_ms;
  started_at_ms = elim started [ none ↦ r.started_at_ms | some s ↦ some s ];
  error = elim error [ none ↦ r.error | some e ↦ e ];
  ended_at_ms = if is_terminal status then some now_ms else r.ended_at_ms;
}

-- `transition`
pub transition :
    RescaleOperation → String → String → ℕ → Option ℕ → Option (Option ℕ) → Outcome RescaleOperation
unfolding move_to
transition r status phase now_ms started error = do
  next_status ← parse_status status
  next_phase ← parse_phase phase
  raise_if (not (is_allowed r.status next_status)) runtime_error
  raise_if (ltb (phase_value next_phase) (phase_value r.phase)) runtime_error
  raise_if (is_terminal next_status && not (is_completed next_phase)) runtime_error
  ok (move_to r next_status next_phase now_ms started error)

-- The entries of the mapping that `merge_result` reads.
pub record RescaleResult : Type 0 where
  pub operator_id : Option ℕ
  pub operator_name : Option (Option ℕ)
  pub previous_parallelism : Option (Option ℤ)
  pub target_parallelism : Option ℤ
  pub parallelism : Option ℤ
  pub error : Option (Option ℕ)

-- `self.field = result["field"]` for an entry that is there.
abbrev pub or_else {ℓ} : {A : Type ℓ} → Option A → A → A
or_else none old = old
or_else (some new) old = new

-- `merge_result`
pub merge_result : RescaleOperation → RescaleResult → ℕ → RescaleOperation
merge_result r result now_ms = record r {
  operator_id = or_else result.operator_id r.operator_id;
  operator_name = or_else result.operator_name r.operator_name;
  previous_parallelism = or_else result.previous_parallelism r.previous_parallelism;
  target_parallelism =
      or_else result.target_parallelism (or_else result.parallelism r.target_parallelism);
  error = or_else result.error r.error;
  updated_at_ms = now_ms;
}

-- `RescalePhase` of the transaction, by its value.
pub data RescalePhase : Type 0 where
  initial candidates checkpoint_gate participants runtimes routes coordinator committed released :
      RescalePhase

abbrev pub value : RescalePhase → ℕ
value initial = 0
value candidates = 1
value checkpoint_gate = 2
value participants = 3
value runtimes = 4
value routes = 5
value coordinator = 6
value committed = 7
value released = 8

-- `RescaleTransaction.enter`, on the phase of the transaction. Behind the first guard the phase is not
-- the last one, so that the expected phase exists.
pub enter : RescalePhase → RescalePhase → Outcome RescalePhase
enter current phase = do
  raise_if (leb (value phase) (value current)) runtime_error
  raise_if (not (value phase == value current + 1)) runtime_error
  ok phase

-- `RescaleTransaction.attempted` and `committed`
pub attempted : RescalePhase → RescalePhase → Bool
attempted current phase = leb (value phase) (value current)

pub is_committed : RescalePhase → Bool
unfolding attempted
is_committed current = attempted current committed
