-- ===== src/Coordinator/Fence.antt =====
-- The rescale of an operator as the coordinator sees it: admission stops, the checkpoints of the old
-- topology are detached, and a committed rescale stays fenced until a checkpoint of all its sources
-- is durable and released.
use klein.Base.{
  ℕ, ◌+◌, Bool, true, false, not, ◌&&◌, ◌||◌, Option, none, some, List, [], ◌∷◌, ◌++◌, leb, ltb,
  ◌==◌, if◌then◌else◌, Outcome, ok, raise, runtime_error, value_error, raise_if, ◌>>◌,
}
use klein.Base.Dict.{Dict, insert, lookup, lookup_or, erase}
use klein.Base.Predicates.{contains, all, any}
use klein.Checkpoints.Acknowledgements.{Checkpoint}
use klein.Coordinator.{CheckpointCoordinator, is_key, release_domain_slot}
use klein.Coordinator.Admission.{is_set, forget_epoch}
use klein.Coordinator.Domains.{CheckpointDomain, ExecutionGraph, intersection}

-- The first loop of `_abort_inflight_checkpoints_for_rescale`.
unfoldable pub detach_all : List (ℕ × Checkpoint) → CheckpointCoordinator → CheckpointCoordinator
unfolding release_domain_slot
detach_all [] c = c
detach_all ((barrier_id, checkpoint) ∷ rest) c = detach_all rest (
    release_domain_slot checkpoint
      (record c { inflight_checkpoints = erase barrier_id c.inflight_checkpoints }))

-- `begin_operator_rescale` from the end of its first wait, when no fence is left, to its next await.
-- It goes on to fail the checkpoints that it returns.
unfoldable pub begin_operator_rescale :
    ℕ → CheckpointCoordinator → Outcome (List (ℕ × Checkpoint) × CheckpointCoordinator)
unfolding detach_all
begin_operator_rescale operation_id c =
    if is_set c.rescale_operation_id && not (is_key operation_id c.rescale_operation_id)
    then raise runtime_error
    else ok (
      c.inflight_checkpoints,
      detach_all c.inflight_checkpoints (record c { rescale_operation_id = some operation_id }),
    )

-- Its end, when the deadline passes before the completions are through.
unfoldable pub abandon_operator_rescale : CheckpointCoordinator → CheckpointCoordinator
abandon_operator_rescale c = record c { rescale_operation_id = none }

-- `_release_checkpoint_sources` up to its await, and `_finish_checkpoint_release`
unfoldable pub release_checkpoint_sources :
    ℕ → List ℕ → CheckpointCoordinator → CheckpointCoordinator
release_checkpoint_sources barrier_id sources c = record c {
  pending_checkpoint_releases = insert barrier_id sources c.pending_checkpoint_releases;
}

unfoldable pub finish_checkpoint_release : ℕ → CheckpointCoordinator → CheckpointCoordinator
finish_checkpoint_release barrier_id c =
    let c' = record c {
      pending_checkpoint_releases = erase barrier_id c.pending_checkpoint_releases;
    } in
    if is_key barrier_id c.coordinated_checkpoint_barrier_id then forget_epoch c' else c'

-- `coordinator_ack_counts` of checkpoint_io.py: how many sinks a source's barriers reach.
unfoldable pub add_ack_counts : List (ℕ × ℕ) → Dict ℕ → Dict ℕ
add_ack_counts [] counts = counts
add_ack_counts ((source, split_count) ∷ splits) counts =
    add_ack_counts splits
      (insert source (lookup_or source 0 counts + (if split_count == 0 then 0 else 1)) counts)

unfoldable pub ack_counts_from : (ℕ → List (ℕ × ℕ)) → List ℕ → Dict ℕ → Dict ℕ
unfolding add_ack_counts
ack_counts_from alignments [] counts = counts
ack_counts_from alignments (sink ∷ sinks) counts =
    ack_counts_from alignments sinks (add_ack_counts (alignments sink) counts)

unfoldable pub coordinator_ack_counts : ExecutionGraph → Dict ℕ
unfolding ack_counts_from
coordinator_ack_counts graph = ack_counts_from graph.barrier_splits graph.sink_execution_vertices []

abbrev pub is_empty {ℓ} : {A : Type ℓ} → List A → Bool
is_empty [] = true
is_empty (a ∷ as') = false

-- `reconfigure_execution_graph`, without the sink transactions that are carried over
unfoldable pub reconfigure_execution_graph :
    ExecutionGraph → CheckpointCoordinator → Outcome CheckpointCoordinator
unfolding coordinator_ack_counts
reconfigure_execution_graph graph c = do
  raise_if (not (graph.namespace == c.job_id)) value_error
  raise_if (not (is_set c.rescale_operation_id)) runtime_error
  raise_if (not (is_empty c.inflight_checkpoints) || not (is_empty c.completing_checkpoints))
      runtime_error
  ok (record c {
    execution_graph = graph;
    required_acknowledgements = coordinator_ack_counts graph;
    active_checkpoint_by_domain = [];
    finished_sources = intersection c.finished_sources graph.source_execution_vertices;
  })

-- The union of what `pick` takes of the domains.
abbrev pub union : (CheckpointDomain → List ℕ) → List CheckpointDomain → List ℕ
union pick [] = []
union pick (domain ∷ domains) = pick domain ++ union pick domains

-- `_checkpoint_domain_boundary_vertex_ids`, of the whole graph without a target or a domain of it
pub checkpoint_domain_boundary_vertex_ids :
    (CheckpointDomain → List ℕ) → List ℕ → ExecutionGraph → Option ℕ → List ℕ
checkpoint_domain_boundary_vertex_ids pick candidates graph none = candidates
checkpoint_domain_boundary_vertex_ids pick candidates graph (some target) =
    elim (graph.checkpoint_domains_for_job_vertex target) [
      | [] ↦ candidates
      | domain ∷ domains ↦ union pick (domain ∷ domains)
    ]

-- `finish_operator_rescale`
unfoldable pub fence_off : ℕ → Option ℕ → CheckpointCoordinator → CheckpointCoordinator
unfolding checkpoint_domain_boundary_vertex_ids
fence_off operation_id target c =
    let graph = c.execution_graph in
    record c {
      rescale_operation_id = none;
      rescale_recovery_fence = some operation_id;
      rescale_recovery_pending_sources =
          checkpoint_domain_boundary_vertex_ids (λ d. d.source_vertex_ids)
            graph.source_execution_vertices graph target;
      rescale_recovery_pending_sinks =
          checkpoint_domain_boundary_vertex_ids (λ d. d.sink_vertex_ids)
            graph.sink_execution_vertices graph target;
      rescale_recovery_required_state_revision = none;
      coordinated_checkpoint_barrier_id = none;
      coordinated_checkpoint_registered_sources = [];
    }

unfoldable pub finish_operator_rescale :
    ℕ → Bool → Option ℕ → CheckpointCoordinator → Bool × CheckpointCoordinator
unfolding fence_off
finish_operator_rescale operation_id committed target c =
    if is_key operation_id c.rescale_operation_id
    then (
      true,
      if committed
          then fence_off operation_id target c
          else record c { rescale_operation_id = none },
    )
    else if not committed && not (is_set c.rescale_operation_id)
    then (true, c)
    else (committed && is_key operation_id c.rescale_recovery_fence, c)

-- `operator_rescale_recovery_fenced`
abbrev pub operator_rescale_recovery_fenced : CheckpointCoordinator → Bool
operator_rescale_recovery_fenced c = is_set c.rescale_recovery_fence

-- `set(a) == set(b)`
abbrev pub same_members : List ℕ → List ℕ → Bool
same_members a b = all (λ v. contains v b) a && all (λ v. contains v a) b

-- The states of `_finalize_rescale_operator_states` that stay: those of a job vertex that the
-- operation moved must belong to an index that lives.
abbrev pub moved_by : ℕ → List (ℕ × ℕ) → ℕ → Bool
moved_by operation_id keys job_vertex_id =
    any (λ key. (key.0 == operation_id) && (key.1 == job_vertex_id)) keys

abbrev pub keep {ℓ} : {A : Type ℓ} → (A → Bool) → List A → List A
keep test [] = []
keep test (a ∷ as') = let rest = keep test as' in if test a then a ∷ rest else rest

unfoldable pub is_live : ExecutionGraph → ℕ → List (ℕ × ℕ) → (ℕ × ℕ) × ℕ → Bool
is_live graph operation_id keys ((job_vertex_id, index), state) =
    not (moved_by operation_id keys job_vertex_id)
    || contains index (graph.live_indices job_vertex_id)

-- `_finalize_rescale_operator_states`
unfoldable pub finalize_rescale_operator_states : ℕ → CheckpointCoordinator → CheckpointCoordinator
unfolding is_live
finalize_rescale_operator_states operation_id c =
    let live = is_live c.execution_graph operation_id c.transient_rescale_states in
    record c {
      latest_operator_states = keep live c.latest_operator_states;
      restored_operator_states = keep live c.restored_operator_states;
      transient_rescale_states =
          keep (λ key. not (key.0 == operation_id)) c.transient_rescale_states;
      state_revision =
          if all live c.latest_operator_states && all live c.restored_operator_states
          then c.state_revision
          else c.state_revision + 1;
    }

-- `_record_rescale_stabilization_progress`
unfoldable pub record_rescale_stabilization_progress :
    Checkpoint → CheckpointCoordinator → Bool × CheckpointCoordinator
unfolding finalize_rescale_operator_states
record_rescale_stabilization_progress checkpoint c = elim c.rescale_recovery_fence [
  | none ↦ (false, c)
  | some operation_id ↦
      if not checkpoint.coordinated
        || not (is_key checkpoint.barrier_id c.coordinated_checkpoint_barrier_id)
      then (false, c)
      else if not (same_members checkpoint.trigger_sources c.rescale_recovery_pending_sources)
      then (false, c)
      else (let c' = finalize_rescale_operator_states operation_id c in
          if any (λ key. key.0 == operation_id) c'.transient_rescale_states then (false, c') else (
            true,
            record c' { rescale_recovery_required_state_revision = some c'.state_revision },
          ))
]

-- `released.get(source, -1) >= barrier_id`
abbrev pub is_released : Dict ℕ → ℕ → ℕ → Bool
is_released released barrier_id source = elim (lookup source released) [
  | none ↦ false
  | some last ↦ leb barrier_id last
]

-- `_clear_rescale_recovery_fence_if_durable`
unfoldable pub clear_fence : CheckpointCoordinator → CheckpointCoordinator
clear_fence c = record (forget_epoch c) {
  rescale_recovery_fence = none;
  rescale_recovery_pending_sources = [];
  rescale_recovery_pending_sinks = [];
  rescale_recovery_required_state_revision = none;
}

unfoldable pub clear_rescale_recovery_fence_if_durable :
    CheckpointCoordinator → CheckpointCoordinator
unfolding clear_fence
clear_rescale_recovery_fence_if_durable c =
    if not (is_set c.rescale_recovery_fence)
    then c
    else elim c.rescale_recovery_required_state_revision [
      | none ↦ c
      | some revision ↦
          if ltb c.persisted_state_revision revision
          then c
          else elim c.coordinated_checkpoint_barrier_id [
            | none ↦ c
            | some barrier_id ↦
                if all (is_released c.released_source_checkpoint_ids barrier_id)
                  c.rescale_recovery_pending_sources
                then clear_fence c
                else c
          ]
    ]
