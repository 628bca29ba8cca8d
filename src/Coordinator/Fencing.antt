-- ===== src/Coordinator/Fencing.antt =====
-- The steps of a rescale keep the slots of the domains apart.
use klein.Base.{
  ℕ, ◌≤◌, ◌≡◌, inl, inr, refl, sym, ap, subst, ◌∙◌, Bool, true, false, not, none, some, List, [],
  ◌∷◌, Option, raise_if-eq-ok, value_error, runtime_error, arith, ◌==◌, Bool-cases, Option-cases,
  ==_iff, ok, if-elim, ◌||◌, ltb, option-elim, ◌&&◌,
}
use klein.Base.Dict.{Dict, lookup, lookup-erase}
use klein.Base.Predicates.{contains, all}
use klein.Checkpoints.Acknowledgements.{Checkpoint}
use klein.Coordinator.{CheckpointCoordinator, is_key, release_domain_slot}
use klein.Coordinator.Admission.{is_set, forget_epoch}
use klein.Coordinator.Domains.{ExecutionGraph, intersection}
use klein.Coordinator.Fence.{
  is_empty, coordinator_ack_counts, reconfigure_execution_graph, detach_all, begin_operator_rescale,
  abandon_operator_rescale, finish_checkpoint_release, fence_off, finish_operator_rescale,
  finalize_rescale_operator_states, record_rescale_stabilization_progress, clear_fence,
  same_members, is_released, clear_rescale_recovery_fence_if_durable,
}
use klein.Coordinator.Slots.{Holds, IsValid}

pub abandon_operator_rescale-IsValid :
    (c : CheckpointCoordinator) → IsValid c → IsValid (abandon_operator_rescale c)
unfolding IsValid Holds abandon_operator_rescale
abandon_operator_rescale-IsValid c (old, done, apart) = (
  λ b k at. let (own, low, free, slot, i, f) = old b k at in (own, low, free, slot, refl, f),
  done,
  λ set. absurd (ground arith),
)

-- Without a checkpoint in flight the rest of the state is all that counts.
pub empty-IsValid :
    (c : CheckpointCoordinator)
    → ((b : ℕ) → lookup b c.inflight_checkpoints ≡ none)
    → ((b : ℕ) → contains b c.completing_checkpoints ≡ true → b ≤ c.barrier_id_gen)
    → (is_set c.rescale_operation_id ≡ true → is_set c.rescale_recovery_fence ≡ false)
    → IsValid c
unfolding IsValid Holds
empty-IsValid c empty done apart =
    (λ b k there. absurd (let none_there = empty b in cc), done, apart)

unfenced_in_flight :
    (b j : ℕ) (k : Checkpoint) (c : CheckpointCoordinator)
    → IsValid c
    → lookup b c.inflight_checkpoints ≡ none
    → is_key b c.coordinated_checkpoint_barrier_id ≡ true
    → lookup j c.inflight_checkpoints ≡ some k
    → is_set c.rescale_recovery_fence ≡ false
unfolding IsValid Holds
unfenced_in_flight b j k c (old, done, apart) gone epoch at =
    let (own, low, free, slot, i, f) = old j k at in
    elim (Bool-cases (is_set c.rescale_recovery_fence)) [
      | inr unfenced ↦ unfenced
      | inl fenced ↦
          let same : b ≡ j = (==_iff b j).0 (sym (ap (is_key b) (f fenced)) ∙ epoch) in
          let lost = subst (λ x. lookup x c.inflight_checkpoints ≡ none) same gone in absurd (cc)
    ]

forget_epoch-IsValid_unfenced :
    (c : CheckpointCoordinator)
    → IsValid c
    → ((j : ℕ) (k : Checkpoint)
        → lookup j c.inflight_checkpoints ≡ some k
        → is_set c.rescale_recovery_fence ≡ false)
    → IsValid (forget_epoch c)
unfolding IsValid Holds
forget_epoch-IsValid_unfenced c (old, done, apart) unfenced = (
  λ j k at.
      let (own, low, free, slot, i, f) = old j k at in
      (own, low, free, slot, i, λ fenced. let clear = unfenced j k at in absurd (cc)),
  done,
  apart,
)

pub finish_checkpoint_release-IsValid :
    (b : ℕ) (c : CheckpointCoordinator)
    → IsValid c
    → lookup b c.inflight_checkpoints ≡ none
    → IsValid (finish_checkpoint_release b c)
unfolding IsValid Holds finish_checkpoint_release
finish_checkpoint_release-IsValid b c valid gone =
    if-elim IsValid (is_key b c.coordinated_checkpoint_barrier_id) _ _
      (λ epoch.
        forget_epoch-IsValid_unfenced c valid
          (λ j k at. unfenced_in_flight b j k c valid gone epoch at))
      (λ _. valid)

pub in_flight-idle :
    (c : CheckpointCoordinator)
    → IsValid c
    → is_set c.rescale_operation_id ≡ true
    → (b : ℕ) → lookup b c.inflight_checkpoints ≡ none
unfolding IsValid Holds
in_flight-idle c (old, done, apart) busy b = elim (Option-cases (lookup b c.inflight_checkpoints)) [
  | inl empty ↦ empty
  | inr (k, at) ↦ let (own, low, free, slot, i, f) = old b k at in absurd (cc)
]

pub finish_operator_rescale-IsValid :
    (operation_id : ℕ) (committed : Bool) (target : Option ℕ) (c : CheckpointCoordinator)
    → IsValid c
    → IsValid (finish_operator_rescale operation_id committed target c).1
unfolding finish_operator_rescale abandon_operator_rescale fence_off IsValid
finish_operator_rescale-IsValid operation_id committed target c valid =
    let P : Bool × CheckpointCoordinator → Type 0 = λ r. IsValid r.1 in
    if-elim P (is_key operation_id c.rescale_operation_id) _ _
      (λ own.
        let empty = in_flight-idle c valid (ground arith) in
        if-elim IsValid committed _ _
          (λ _.
            empty-IsValid (fence_off operation_id target c) empty valid.1
              (λ set. absurd (ground arith)))
          (λ _. abandon_operator_rescale-IsValid c valid))
      (λ _.
        if-elim P (not committed && not (is_set c.rescale_operation_id)) _ _ (λ _. valid)
          (λ _. valid))

-- After the loop that detaches them, none of the checkpoints is in flight.
detach_all-none :
    (es : List (ℕ × Checkpoint)) (c : CheckpointCoordinator) (b : ℕ)
    → (lookup b es ≡ none → lookup b c.inflight_checkpoints ≡ none)
    → lookup b (detach_all es c).inflight_checkpoints ≡ none
unfolding detach_all release_domain_slot
detach_all-none [] c b h = h refl
detach_all-none ((j, k) ∷ es) c b h = detach_all-none es _ b (λ rest.
    lookup-erase b j c.inflight_checkpoints
    ∙ elim (Bool-cases (b == j)) [ inl hit ↦ rw hit refl | inr miss ↦ rw miss (h (rw miss rest)) ])

-- What the loop leaves as it is.
abbrev Rest : CheckpointCoordinator → CheckpointCoordinator → Type 0
Rest c c' =
    (c'.completing_checkpoints ≡ c.completing_checkpoints)
    × (c'.barrier_id_gen ≡ c.barrier_id_gen)
    × (c'.rescale_recovery_fence ≡ c.rescale_recovery_fence)

detach_all-Rest :
    (es : List (ℕ × Checkpoint)) (c : CheckpointCoordinator) → Rest c (detach_all es c)
unfolding detach_all release_domain_slot
detach_all-Rest [] c = (refl, refl, refl)
detach_all-Rest ((j, k) ∷ es) c = detach_all-Rest es _

pub begin_operator_rescale-IsValid :
    (operation_id : ℕ) (detached : List (ℕ × Checkpoint)) (c c' : CheckpointCoordinator)
    → is_set c.rescale_recovery_fence ≡ false
    → begin_operator_rescale operation_id c ≡ ok (detached, c')
    → IsValid c
    → IsValid c'
unfolding begin_operator_rescale IsValid
begin_operator_rescale-IsValid operation_id detached c c' unfenced h valid =
    let busy = record c { rescale_operation_id = some operation_id } in
    let after = detach_all c.inflight_checkpoints busy in
    let same : after ≡ c' = ground arith in
    let (unchanged, gen, fence) = detach_all-Rest c.inflight_checkpoints busy in
    subst IsValid same (
      empty-IsValid after (λ b. detach_all-none c.inflight_checkpoints busy b (λ gone. gone))
        (λ b there.
          let low = valid.1 b (subst (λ xs. contains b xs ≡ true) unchanged there) in
          omega (arith, low, gen))
        (λ _. ap is_set fence ∙ unfenced))

pub record_rescale_stabilization_progress-IsValid :
    (k : Checkpoint) (c : CheckpointCoordinator)
    → IsValid c
    → IsValid (record_rescale_stabilization_progress k c).1
unfolding record_rescale_stabilization_progress finalize_rescale_operator_states IsValid Holds
record_rescale_stabilization_progress-IsValid k c valid =
    let P : Bool × CheckpointCoordinator → Type 0 = λ r. IsValid r.1 in
    option-elim P c.rescale_recovery_fence _ _ (λ _. valid)
      (λ operation_id _.
        if-elim P
          (not k.coordinated || not (is_key k.barrier_id c.coordinated_checkpoint_barrier_id)) _ _
          (λ _. valid)
          (λ _.
            if-elim P (not (same_members k.trigger_sources c.rescale_recovery_pending_sources)) _ _
              (λ _. valid) (λ _. if-elim P _ _ _ (λ _. valid) (λ _. valid))))

pub clear_fence-IsValid : (c : CheckpointCoordinator) → IsValid c → IsValid (clear_fence c)
unfolding IsValid Holds clear_fence
clear_fence-IsValid c (old, done, apart) = (
  λ b k at.
      let (own, low, free, slot, i, f) = old b k at in
      (own, low, free, slot, i, λ fenced. absurd (ground arith)),
  done,
  λ busy. refl,
)

pub clear_rescale_recovery_fence_if_durable-IsValid :
    (c : CheckpointCoordinator) → IsValid c → IsValid (clear_rescale_recovery_fence_if_durable c)
unfolding clear_rescale_recovery_fence_if_durable clear_fence
clear_rescale_recovery_fence_if_durable-IsValid c valid =
    if-elim IsValid (not (is_set c.rescale_recovery_fence)) _ _ (λ _. valid)
      (λ _.
        option-elim IsValid c.rescale_recovery_required_state_revision _ _ (λ _. valid)
          (λ revision _.
            if-elim IsValid (ltb c.persisted_state_revision revision) _ _ (λ _. valid)
              (λ _.
                option-elim IsValid c.coordinated_checkpoint_barrier_id _ _ (λ _. valid)
                  (λ b _.
                    if-elim IsValid
                      (all (is_released c.released_source_checkpoint_ids b)
                        c.rescale_recovery_pending_sources)
                      _ _ (λ _. clear_fence-IsValid c valid) (λ _. valid)))))

is_empty-lookup : {V : Type 0} (d : Dict V) (b : ℕ) → is_empty d ≡ true → lookup b d ≡ none
is_empty-lookup [] b h = refl
is_empty-lookup (e ∷ d) b h = absurd (cc)

-- The graph is replaced and the slots are emptied only while nothing is in flight or completes.
pub reconfigure_execution_graph-IsValid :
    (graph : ExecutionGraph) (c c' : CheckpointCoordinator)
    → reconfigure_execution_graph graph c ≡ ok c'
    → IsValid c
    → IsValid c'
unfolding reconfigure_execution_graph IsValid
reconfigure_execution_graph-IsValid graph c c' done (holds, allocated, unfenced) =
    let (own, h1) = raise_if-eq-ok (not (graph.namespace == c.job_id)) value_error _ done in
    let (busy, h2) = raise_if-eq-ok (not (is_set c.rescale_operation_id)) runtime_error _ h1 in
    let (idle, h3) =
      raise_if-eq-ok
        (not (is_empty c.inflight_checkpoints) || not (is_empty c.completing_checkpoints))
        runtime_error _ h2 in
    let nothing : is_empty c.inflight_checkpoints ≡ true = ground (arith, idle) in
    let reset = record c {
      execution_graph = graph;
      required_acknowledgements = coordinator_ack_counts graph;
      active_checkpoint_by_domain = [];
      finished_sources = intersection c.finished_sources graph.source_execution_vertices;
    } in
    let same : reset ≡ c' = cc in
    subst IsValid same (
      λ b k at. let gone = is_empty-lookup c.inflight_checkpoints b nothing in absurd (cc),
      allocated,
      unfenced,
    )
