-- ===== src/Coordinator/Admission.antt =====
-- How checkpoints are registered, joined by their sources, and brought to an end.
use klein.Base.{
  ℕ, Bool, true, false, not, ◌&&◌, ◌||◌, Option, none, some, List, [], ◌∷◌, length, leb,
  if◌then◌else◌,
}
use klein.Base.Dict.{Dict, lookup, lookup_or}
use klein.Base.Predicates.{contains}
use klein.Checkpoints.Acknowledgements.{add}
use klein.Checkpoints.BarrierIds.{next}
use klein.Coordinator.{
  CheckpointCoordinator, CheckpointRegistration, skip, success, new_checkpoint, track_checkpoint,
  activate_checkpoint_domain,
}
use klein.Coordinator.Domains.{ExecutionGraph, reachable_domain_sinks, sorted_ids}

-- `is not None`
abbrev pub is_set : Option ℕ → Bool
is_set none = false
is_set (some value) = true

-- `barrier_id in d`
abbrev pub has_key {ℓ} : {V : Type ℓ} → ℕ → Dict V → Bool
has_key key d = elim (lookup key d) [ none ↦ false | some value ↦ true ]

-- `tuple(v for v in vs if v not in gone)`
abbrev pub without : List ℕ → List ℕ → List ℕ
without gone [] = []
without gone (v ∷ vs) = let rest = without gone vs in if contains v gone then rest else v ∷ rest

module _ (legacy_domain : ℕ → ℕ) where
  -- The domain, its sources and its committers of a registration, with the number of
  -- acknowledgements; none of a source that has finished.
  pub record Target : Type 0 where
    pub domain_id : ℕ
    pub trigger_sources : List ℕ
    pub required_committers : List ℕ
    pub required : ℕ

  unfoldable pub registration_target : CheckpointCoordinator → ℕ → Option Target
  registration_target c vertex_id = elim (c.execution_graph.find_checkpoint_domain vertex_id) [
    | none ↦ some (record {
      domain_id = legacy_domain vertex_id;
      trigger_sources = vertex_id ∷ [];
      required_committers = [];
      required = lookup_or vertex_id 0 c.required_acknowledgements;
    })
    | some domain ↦
        let sources = without c.finished_sources domain.source_vertex_ids in
        let committers = reachable_domain_sinks c.execution_graph domain sources in
        if not (contains vertex_id sources)
        then none
        else some (record {
          domain_id = domain.id;
          trigger_sources = sources;
          required_committers = committers;
          required = length committers;
        })
  ]

  -- The end of `register_checkpoint`: a new epoch of the domain.
  unfoldable pub start_epoch :
      Target → ℕ → CheckpointCoordinator → CheckpointRegistration × CheckpointCoordinator
  unfolding track_checkpoint activate_checkpoint_domain next
  start_epoch t now_ms c =
      let (barrier_id, counter) = next c.barrier_id_gen in
      let checkpoint =
        new_checkpoint barrier_id t.required t.trigger_sources false (some t.domain_id)
          t.required_committers in
      (
        success barrier_id false,
        activate_checkpoint_domain checkpoint
            (track_checkpoint now_ms checkpoint (record c { barrier_id_gen = counter })),
      )

  -- `register_checkpoint` behind its two pauses for a rescale.
  unfoldable pub register_domain_checkpoint :
      ℕ → Bool → ℕ → CheckpointCoordinator → CheckpointRegistration × CheckpointCoordinator
  unfolding registration_target start_epoch
  register_domain_checkpoint vertex_id force now_ms c = elim (registration_target c vertex_id) [
    | none ↦ (skip, c)
    | some t ↦ elim (lookup t.domain_id c.active_checkpoint_by_domain) [
      | some active ↦ elim (lookup active c.inflight_checkpoints) [
        | none ↦ (skip, c)
        | some checkpoint ↦
            if not (contains vertex_id checkpoint.started_sources)
            then (success active false, c)
            else (skip, c)
      ]
      | none ↦
          if leb t.required 0
          then (skip, c)
          else if not force && leb c.max_concurrent_checkpoints (length c.inflight_checkpoints)
          then (skip, c)
          else start_epoch t now_ms c
    ]
  ]

-- Whether the durable state already covers the epoch that the fence waits for.
abbrev pub is_durable : CheckpointCoordinator → Bool
is_durable c = elim c.rescale_recovery_required_state_revision [
  | none ↦ false
  | some revision ↦ leb revision c.persisted_state_revision
]

-- `barrier_id in _inflight_checkpoints or barrier_id in _completing_checkpoints`
abbrev pub is_alive : ℕ → CheckpointCoordinator → Bool
is_alive barrier_id c =
    has_key barrier_id c.inflight_checkpoints || contains barrier_id c.completing_checkpoints

abbrev pub forget_epoch : CheckpointCoordinator → CheckpointCoordinator
forget_epoch c = record c {
  coordinated_checkpoint_barrier_id = none;
  coordinated_checkpoint_registered_sources = [];
}

-- The ids of the domains of `sources`, as the keys of a dict.
abbrev pub domains_of : ExecutionGraph → List ℕ → List ℕ
domains_of graph [] = []
domains_of graph (v ∷ vs) =
    let rest = domains_of graph vs in
    elim (graph.find_checkpoint_domain v) [ none ↦ rest | some domain ↦ add domain.id rest ]

abbrev pub only_one : List ℕ → Option ℕ
only_one [] = none
only_one (d ∷ []) = some d
only_one (d ∷ e ∷ ds) = none

-- The sinks whose acknowledgements a stabilization epoch needs.
abbrev pub stabilization_sinks : CheckpointCoordinator → List ℕ
stabilization_sinks c = elim c.rescale_recovery_pending_sinks [
  | [] ↦ c.execution_graph.sink_execution_vertices
  | v ∷ vs ↦ v ∷ vs
]

unfoldable pub join_epoch :
    ℕ → ℕ → CheckpointCoordinator → CheckpointRegistration × CheckpointCoordinator
join_epoch vertex_id barrier_id c = (
  success barrier_id true,
  record c {
    coordinated_checkpoint_registered_sources =
        add vertex_id c.coordinated_checkpoint_registered_sources;
  },
)

-- The branch of `_register_rescale_stabilization_checkpoint` that starts a new epoch.
unfoldable pub start_stabilization :
    ℕ → ℕ → CheckpointCoordinator → CheckpointRegistration × CheckpointCoordinator
unfolding track_checkpoint activate_checkpoint_domain next join_epoch
start_stabilization vertex_id now_ms c =
    let sinks = sorted_ids (stabilization_sinks c) in
    let sources = sorted_ids c.rescale_recovery_pending_sources in
    let (barrier_id, counter) = next c.barrier_id_gen in
    let checkpoint =
      new_checkpoint barrier_id (length sinks) sources true
        (only_one (domains_of c.execution_graph sources)) sinks in
    if leb (length sinks) 0
    then (skip, c)
    else join_epoch vertex_id barrier_id
        (record (activate_checkpoint_domain checkpoint
          (track_checkpoint now_ms checkpoint (record c { barrier_id_gen = counter }))) {
            coordinated_checkpoint_barrier_id = some barrier_id;
          })

-- `_register_rescale_stabilization_checkpoint`
unfoldable pub register_rescale_stabilization_checkpoint :
    ℕ → ℕ → CheckpointCoordinator → CheckpointRegistration × CheckpointCoordinator
unfolding join_epoch start_stabilization
register_rescale_stabilization_checkpoint vertex_id now_ms c =
    if not (contains vertex_id c.rescale_recovery_pending_sources)
    then (skip, c)
    else elim c.coordinated_checkpoint_barrier_id [
      | none ↦
          if contains vertex_id c.coordinated_checkpoint_registered_sources
          then (skip, c)
          else start_stabilization vertex_id now_ms c
      | some barrier_id ↦
          if has_key barrier_id c.pending_checkpoint_releases
          then (skip, c)
          else if not (is_alive barrier_id c)
          then (if is_durable c
              then (skip, c)
              else start_stabilization vertex_id now_ms (forget_epoch c))
          else if contains vertex_id c.coordinated_checkpoint_registered_sources
          then (skip, c)
          else join_epoch vertex_id barrier_id c
    ]

-- `register_checkpoint`
unfoldable pub register_checkpoint :
    (ℕ → ℕ) → ℕ → Bool → ℕ → CheckpointCoordinator → CheckpointRegistration × CheckpointCoordinator
unfolding register_domain_checkpoint register_rescale_stabilization_checkpoint
register_checkpoint legacy_domain vertex_id force now_ms c =
    if is_set c.rescale_operation_id
    then (skip, c)
    else if is_set c.rescale_recovery_fence
    then register_rescale_stabilization_checkpoint vertex_id now_ms c
    else register_domain_checkpoint legacy_domain vertex_id force now_ms c
