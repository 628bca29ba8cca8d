-- ===== src/Coordinator/Runs.antt =====
-- What the coordinator can do, one stretch between two awaits at a time, and the states that it
-- gets to.
use klein.Base.{ℕ, ◌≡◌, ap, Bool, true, false, none, some, List, [], Option, ok}
use klein.Base.Dict.{Dict, lookup}
use klein.Base.Predicates.{contains}
use klein.Checkpoints.Acknowledgements.{Checkpoint}
use klein.Coordinator.{CheckpointCoordinator}
use klein.Coordinator.Domains.{ExecutionGraph}
use klein.Coordinator.Admission.{is_set, register_checkpoint}
use klein.Coordinator.Completion.{
  source_checkpoint_started, notify_checkpoint_aligned, finish_completion, expire_checkpoint, stop,
}
use klein.Coordinator.Fence.{
  begin_operator_rescale, abandon_operator_rescale, reconfigure_execution_graph,
  release_checkpoint_sources, finish_checkpoint_release, finish_operator_rescale,
  record_rescale_stabilization_progress, clear_rescale_recovery_fence_if_durable,
}
use klein.Coordinator.Slots.{Holds, IsValid}
use klein.Coordinator.Registration.{register_checkpoint-IsValid}
use klein.Coordinator.Changes.{
  source_checkpoint_started-IsValid, notify_checkpoint_aligned-IsValid, finish_completion-IsValid,
  expire_checkpoint-IsValid,
}
use klein.Coordinator.Fencing.{
  reconfigure_execution_graph-IsValid, abandon_operator_rescale-IsValid, empty-IsValid,
  finish_checkpoint_release-IsValid, in_flight-idle, finish_operator_rescale-IsValid,
  begin_operator_rescale-IsValid, record_rescale_stabilization_progress-IsValid,
  clear_rescale_recovery_fence_if_durable-IsValid,
}

module _ (legacy_domain : ℕ → ℕ) where
  -- `persisting` is what the storage of metadata and the sources change beside.
  pub data Step (c : CheckpointCoordinator) : CheckpointCoordinator → Type 0 where
    registering :
        (v : ℕ) (force : Bool) (now_ms : ℕ)
        → Step c (register_checkpoint legacy_domain v force now_ms c).1
    starting : (b v : ℕ) (is_eof : Bool) → Step c (source_checkpoint_started b v is_eof c).1
    aligning : (b v now_ms : ℕ) → Step c (notify_checkpoint_aligned b v now_ms c).1
    merging :
        (k : Checkpoint)
        → contains k.barrier_id c.completing_checkpoints ≡ true
        → Step c (record_rescale_stabilization_progress k c).1
    completing :
        (b : ℕ) (k : Checkpoint) (succeeded : Bool)
        → contains b c.completing_checkpoints ≡ true
        → k.barrier_id ≡ b
        → Step c (finish_completion b k succeeded c)
    expiring : {c' : CheckpointCoordinator} (b : ℕ) → expire_checkpoint b c ≡ ok c' → Step c c'
    releasing :
        (b : ℕ) (sources : List ℕ)
        → lookup b c.inflight_checkpoints ≡ none
        → Step c (release_checkpoint_sources b sources c)
    released :
        (b : ℕ) → lookup b c.inflight_checkpoints ≡ none → Step c (finish_checkpoint_release b c)
    beginning :
        {c' : CheckpointCoordinator} (operation_id : ℕ) (detached : List (ℕ × Checkpoint))
        → is_set c.rescale_recovery_fence ≡ false
        → begin_operator_rescale operation_id c ≡ ok (detached, c')
        → Step c c'
    reconfiguring :
        {c' : CheckpointCoordinator} (graph : ExecutionGraph)
        → reconfigure_execution_graph graph c ≡ ok c'
        → Step c c'
    abandoning : Step c (abandon_operator_rescale c)
    finishing :
        (operation_id : ℕ) (committed : Bool) (target : Option ℕ)
        → Step c (finish_operator_rescale operation_id committed target c).1
    persisting :
        (revision persisted : ℕ) (last_released : Dict ℕ)
        → Step c (record c {
          state_revision = revision;
          persisted_state_revision = persisted;
          released_source_checkpoint_ids = last_released;
        })
    ending : Step c (stop c)
    clearing : Step c (clear_rescale_recovery_fence_if_durable c)

  pub data Reach (c : CheckpointCoordinator) : CheckpointCoordinator → Type 0 where
    here : Reach c c
    next : {c' c'' : CheckpointCoordinator} → Reach c c' → Step c' c'' → Reach c c''

Step-IsValid :
    (legacy_domain : ℕ → ℕ) (c c' : CheckpointCoordinator)
    → Step legacy_domain c c'
    → IsValid c
    → IsValid c'
unfolding release_checkpoint_sources stop IsValid Holds
Step-IsValid l c c' (registering v force now_ms) h =
    register_checkpoint-IsValid l v force now_ms c h
Step-IsValid l c c' (starting b v is_eof) h = source_checkpoint_started-IsValid b v is_eof c h
Step-IsValid l c c' (aligning b v now_ms) h = notify_checkpoint_aligned-IsValid b v now_ms c h
Step-IsValid l c c' (merging k there) h = record_rescale_stabilization_progress-IsValid k c h
Step-IsValid l c c' (completing b k succeeded there own) h =
    finish_completion-IsValid b k succeeded c h there own
Step-IsValid l c c' (expiring b stale) h = expire_checkpoint-IsValid b c c' stale h
Step-IsValid l c c' (releasing b sources gone) h = h
Step-IsValid l c c' (released b gone) h = finish_checkpoint_release-IsValid b c h gone
Step-IsValid l c c' (beginning operation_id detached unfenced begun) h =
    begin_operator_rescale-IsValid operation_id detached c c' unfenced begun h
Step-IsValid l c c' (reconfiguring graph done) h =
    reconfigure_execution_graph-IsValid graph c c' done h
Step-IsValid l c c' abandoning h = abandon_operator_rescale-IsValid c h
Step-IsValid l c c' (finishing operation_id committed target) h =
    finish_operator_rescale-IsValid operation_id committed target c h
Step-IsValid l c c' (persisting revision persisted last_released) h = h
Step-IsValid l c c' ending h = h
Step-IsValid l c c' clearing h = clear_rescale_recovery_fence_if_durable-IsValid c h

pub Reach-IsValid :
    (legacy_domain : ℕ → ℕ) (c c' : CheckpointCoordinator)
    → Reach legacy_domain c c'
    → IsValid c
    → IsValid c'
Reach-IsValid l c c' here h = h
Reach-IsValid l c c' (next run step) h = Step-IsValid l _ c' step (Reach-IsValid l c _ run h)

-- From a state without checkpoints and without a rescale under way, however registrations,
-- acknowledgements, completions, expiries, rescales, changes of the graph and the stop interleave, two
-- checkpoints in flight that have the same domain are under the same barrier, and nothing is in flight
-- while a rescale changes the topology.
pub Reach-apart :
    (legacy_domain : ℕ → ℕ) (c c' : CheckpointCoordinator)
    → c.inflight_checkpoints ≡ []
    → c.completing_checkpoints ≡ []
    → (is_set c.rescale_operation_id ≡ false)
    → Reach legacy_domain c c'
    → ((b b' d : ℕ) (k k' : Checkpoint)
        → lookup b c'.inflight_checkpoints ≡ some k
        → lookup b' c'.inflight_checkpoints ≡ some k'
        → k.domain_id ≡ some d
        → k'.domain_id ≡ some d
        → b ≡ b')
      × (is_set c'.rescale_operation_id ≡ true → (b : ℕ) → lookup b c'.inflight_checkpoints ≡ none)
unfolding IsValid Holds
Reach-apart l c c' empty done idle run =
    let start =
      empty-IsValid c (λ b. ap (lookup b) empty)
        (λ b there. absurd (let nothing = ap (contains b) done in cc)) (λ busy. absurd (cc)) in
    let valid = Reach-IsValid l c c' run start in
    (
      λ b b' d k k' at at' own own'.
          let slot = (valid.0 b k at).3 d own in let slot' = (valid.0 b' k' at').3 d own' in cc,
      λ busy b. in_flight-idle c' valid busy b,
    )
