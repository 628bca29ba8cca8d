-- ===== src/Coordinator.antt =====
-- src/ray/klein/runtime/coordinator/checkpoint_coordinator.py: which checkpoints the coordinator
-- admits and tracks, and how it fences them off around the rescale of an operator. The methods run
-- on one event loop, so that what stands between two awaits is one operation here. Vertices,
-- domains and operations are only compared, so they are numbers; vertices are numbered in the order
-- of their ids.
pub mod Domains
pub mod Admission
pub mod Completion
pub mod Fence
pub mod Slots
pub mod Registration
pub mod Changes
pub mod Fencing
pub mod Runs
pub mod Durability
mod Tests
use klein.Base.{
  ℕ, ◌+◌, Bool, true, false, not, ◌&&◌, ◌||◌, Option, none, some, List, [], ◌∷◌, ◌++◌, map, length,
  leb, ltb, ◌==◌, if◌then◌else◌,
}
use klein.Base.Int.{ℤ, pos, leb_ℤ}
use klein.Base.Dict.{Dict, insert, lookup, lookup_or, erase}
use klein.Base.Predicates.{contains, all, any}
use klein.Checkpoints.Acknowledgements.{
  Checkpoint, CheckpointStatus, created, in_progress, notifying, completed, failed, add,
  mark_in_progress, mark_source_started, acknowledge,
}
use klein.Checkpoints.BarrierIds
use klein.Coordinator.Domains.{CheckpointDomain, ExecutionGraph, reachable_domain_sinks, sorted_ids}

-- The part of the coordinator's state that admission and the fence read or write. A set is the list
-- of its members. The states of operators are kept by job vertex and index; transient states by
-- operation and job vertex.
pub record CheckpointCoordinator : Type 0 where
  pub job_id : ℕ
  pub execution_graph : ExecutionGraph
  pub required_acknowledgements : Dict ℕ
  pub max_concurrent_checkpoints : ℕ
  pub barrier_id_gen : ℕ
  pub inflight_checkpoints : Dict Checkpoint
  pub completing_checkpoints : List ℕ
  pub active_checkpoint_by_domain : Dict ℕ
  pub finished_sources : List ℕ
  pub pending_checkpoint_releases : Dict (List ℕ)
  pub rescale_operation_id : Option ℕ
  pub rescale_recovery_fence : Option ℕ
  pub rescale_recovery_pending_sources : List ℕ
  pub rescale_recovery_pending_sinks : List ℕ
  pub rescale_recovery_required_state_revision : Option ℕ
  pub coordinated_checkpoint_barrier_id : Option ℕ
  pub coordinated_checkpoint_registered_sources : List ℕ
  pub state_revision : ℕ
  pub persisted_state_revision : ℕ
  pub released_source_checkpoint_ids : Dict ℕ
  pub latest_operator_states : List ((ℕ × ℕ) × ℕ)
  pub restored_operator_states : List ((ℕ × ℕ) × ℕ)
  pub transient_rescale_states : List (ℕ × ℕ)
  pub stopping : Bool

-- `CheckpointRegistration`, without the text of a reason.
pub data CheckpointRegistration : Type 0 where
  skip : CheckpointRegistration
  success : ℕ → Bool → CheckpointRegistration

-- `CheckpointStatus.is_terminal`
abbrev pub is_terminal : CheckpointStatus → Bool
is_terminal created = false
is_terminal in_progress = false
is_terminal notifying = false
is_terminal completed = true
is_terminal failed = true

-- `Checkpoint(...)`
abbrev pub new_checkpoint : ℕ → ℕ → List ℕ → Bool → Option ℕ → List ℕ → Checkpoint
new_checkpoint barrier_id required sources coordinated domain_id committers = record {
  barrier_id = barrier_id;
  required_acknowledgements = pos required;
  trigger_sources = sources;
  coordinated = coordinated;
  domain_id = domain_id;
  required_committers = committers;
  acknowledgements = 0;
  reason = 0;
  triggered_at_ms = none;
  last_acknowledged_at_ms = none;
  completed_at_ms = none;
  status = created;
  acknowledged_by = [];
  started_sources = [];
  eof_sources = [];
  operator_metrics = [];
}

-- `_track_checkpoint`, without the history and the metrics.
unfoldable pub track_checkpoint : ℕ → Checkpoint → CheckpointCoordinator → CheckpointCoordinator
unfolding mark_in_progress
track_checkpoint now_ms checkpoint c = record c {
  inflight_checkpoints =
      insert checkpoint.barrier_id (mark_in_progress now_ms checkpoint) c.inflight_checkpoints;
}

-- `_activate_checkpoint_domain`
unfoldable pub activate_checkpoint_domain :
    Checkpoint → CheckpointCoordinator → CheckpointCoordinator
activate_checkpoint_domain checkpoint c = record c {
  active_checkpoint_by_domain = elim checkpoint.domain_id [
    | none ↦ c.active_checkpoint_by_domain
    | some domain ↦ insert domain checkpoint.barrier_id c.active_checkpoint_by_domain
  ];
}

-- `_release_domain_slot`
abbrev pub is_key : ℕ → Option ℕ → Bool
is_key key none = false
is_key key (some other) = key == other

unfoldable pub release_domain_slot : Checkpoint → CheckpointCoordinator → CheckpointCoordinator
release_domain_slot checkpoint c = record c {
  active_checkpoint_by_domain = elim checkpoint.domain_id [
    | none ↦ c.active_checkpoint_by_domain
    | some domain ↦
        if is_key checkpoint.barrier_id (lookup domain c.active_checkpoint_by_domain)
        then erase domain c.active_checkpoint_by_domain
        else c.active_checkpoint_by_domain
  ];
}
