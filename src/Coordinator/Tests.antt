-- ===== src/Coordinator/Tests.antt =====
-- A domain of two sources and one sink, with a second sink that only its neighbour reaches.
use klein.Base.{
  ℕ, ◌≤◌, ◌≡◌, ◌↔◌, refl, some, none, true, false, Bool, [], ◌∷◌, Option, if◌then◌else◌,
}
use klein.Base.Dict.{lookup}
use klein.Base.Predicates.{contains}
use klein.Checkpoints.Acknowledgements.{Checkpoint}
use klein.Coordinator.{CheckpointCoordinator, new_checkpoint}
use klein.Coordinator.Admission.{is_set, register_checkpoint}
use klein.Coordinator.Domains.{
  CheckpointDomain, ExecutionGraph, inner_edges, reachable_domain_sinks,
}
use klein.Coordinator.Domains.Search.{Leads}
use klein.Coordinator.Domains.Reachable.{contains-reachable_domain_sinks_iff}
use klein.Coordinator.Fence.{
  coordinator_ack_counts, ack_counts_from, add_ack_counts, record_rescale_stabilization_progress,
  clear_rescale_recovery_fence_if_durable,
}
use klein.Coordinator.Runs.{here, next, registering, Reach-apart}
use klein.Coordinator.Durability.{
  After, record_rescale_stabilization_progress_lem, clear_rescale_recovery_fence_if_durable_iff,
}

abbrev domain : CheckpointDomain
domain = record {
  id = 7;
  vertex_ids = 1 ∷ 2 ∷ 3 ∷ 4 ∷ [];
  source_vertex_ids = 1 ∷ 2 ∷ [];
  sink_vertex_ids = 3 ∷ 4 ∷ [];
}

abbrev graph : ExecutionGraph
graph = record {
  namespace = 0;
  barrier_splits = λ v. (1, 1) ∷ (2, 2) ∷ (9, 0) ∷ [];
  execution_edges = (1, 3) ∷ (2, 3) ∷ (9, 4) ∷ [];
  find_checkpoint_domain = λ v. if contains v domain.vertex_ids then some domain else none;
  checkpoint_domains_for_job_vertex = λ v. domain ∷ [];
  source_execution_vertices = 1 ∷ 2 ∷ 9 ∷ [];
  sink_execution_vertices = 3 ∷ 4 ∷ [];
  live_indices = λ v. 0 ∷ [];
}

-- A coordinator that was just opened, or one behind the fence of the rescale 5 whose epoch is 8.
abbrev coordinator : Option ℕ → CheckpointCoordinator
coordinator fence = record {
  job_id = 0;
  execution_graph = graph;
  required_acknowledgements = [];
  max_concurrent_checkpoints = 1;
  barrier_id_gen = 8;
  inflight_checkpoints = [];
  completing_checkpoints = [];
  active_checkpoint_by_domain = [];
  finished_sources = [];
  pending_checkpoint_releases = [];
  rescale_operation_id = none;
  rescale_recovery_fence = fence;
  rescale_recovery_pending_sources = 1 ∷ 2 ∷ [];
  rescale_recovery_pending_sinks = 3 ∷ [];
  rescale_recovery_required_state_revision = some 4;
  coordinated_checkpoint_barrier_id = some 8;
  coordinated_checkpoint_registered_sources = [];
  state_revision = 4;
  persisted_state_revision = 6;
  released_source_checkpoint_ids = (1, 8) ∷ (2, 9) ∷ [];
  latest_operator_states = [];
  restored_operator_states = [];
  transient_rescale_states = (5, 1) ∷ [];
  stopping = false;
}

abbrev registered : CheckpointCoordinator
registered = (register_checkpoint (λ v. v) 1 false 100 (coordinator none)).1

Reach-apart_example :
    ((b b' d : ℕ) (k k' : Checkpoint)
      → lookup b registered.inflight_checkpoints ≡ some k
      → lookup b' registered.inflight_checkpoints ≡ some k'
      → k.domain_id ≡ some d
      → k'.domain_id ≡ some d
      → b ≡ b')
    × (is_set registered.rescale_operation_id ≡ true
        → (b : ℕ) → lookup b registered.inflight_checkpoints ≡ none)
Reach-apart_example =
    Reach-apart (λ v. v) (coordinator none) registered refl refl refl
      (next here (registering 1 false 100))

contains-reachable_domain_sinks_iff_example :
    (contains 3 (reachable_domain_sinks graph domain (1 ∷ [])) ≡ true) ↔ (
      (contains 3 domain.sink_vertex_ids ≡ true)
      × (s : ℕ) × (contains s (1 ∷ []) ≡ true)
      × Leads (inner_edges domain.vertex_ids graph.execution_edges) s 3)
contains-reachable_domain_sinks_iff_example =
    contains-reachable_domain_sinks_iff graph domain (1 ∷ []) 3

abbrev epoch : Checkpoint
epoch = new_checkpoint 8 1 (2 ∷ 1 ∷ []) true (some 7) (3 ∷ [])

abbrev recorded : Bool × CheckpointCoordinator
recorded = record_rescale_stabilization_progress epoch (coordinator (some 5))

record_rescale_stabilization_progress_lem_example :
    ((recorded.0 ≡ true) ↔ (
      (true ≡ true)
      × ((coordinator (some 5)).coordinated_checkpoint_barrier_id ≡ some epoch.barrier_id)
      × ((v : ℕ) → (contains v (2 ∷ 1 ∷ []) ≡ true) ↔ (contains v (1 ∷ 2 ∷ []) ≡ true))))
    × After (coordinator (some 5)) 5 recorded
record_rescale_stabilization_progress_lem_example =
    record_rescale_stabilization_progress_lem epoch (coordinator (some 5)) 5 refl

clear_rescale_recovery_fence_if_durable_iff_example :
    (is_set (clear_rescale_recovery_fence_if_durable (coordinator (some 5))).rescale_recovery_fence
      ≡ false)
    ↔ ((revision : ℕ) × (b : ℕ) × (some 4 ≡ some revision)
        × (some 8 ≡ some b)
        × (revision ≤ 6)
        × ((v : ℕ)
            → contains v (1 ∷ 2 ∷ []) ≡ true
            → (last : ℕ) × (lookup v ((1, 8) ∷ (2, 9) ∷ []) ≡ some last) × (b ≤ last)))
clear_rescale_recovery_fence_if_durable_iff_example =
    clear_rescale_recovery_fence_if_durable_iff (coordinator (some 5)) refl

reconfigured_counts : coordinator_ack_counts graph ≡ (1, 2) ∷ (2, 2) ∷ (9, 0) ∷ []
unfolding coordinator_ack_counts ack_counts_from add_ack_counts
reconfigured_counts = refl
