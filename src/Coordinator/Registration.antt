-- ===== src/Coordinator/Registration.antt =====
-- Registrations and changes of one checkpoint, which keep the slots apart.
use klein.Base.{
  ℕ, ◌+◌, ◌≡◌, inl, inr, refl, sym, ◌∙◌, Bool, true, false, not, none, some, arith, if◌then◌else◌,
  Option-cases, leb, length, if-elim, option-elim, ◌&&◌,
}
use klein.Base.Dict.{lookup}
use klein.Base.Predicates.{contains}
use klein.Coordinator.{new_checkpoint, CheckpointCoordinator, CheckpointRegistration}
use klein.Coordinator.Admission.{
  is_set, Target, registration_target, start_epoch, register_domain_checkpoint, forget_epoch,
  start_stabilization, register_rescale_stabilization_checkpoint, register_checkpoint, join_epoch,
  is_alive, has_key, is_durable, stabilization_sinks, only_one, domains_of,
}
use klein.Coordinator.Domains.{sorted_ids}
use klein.Coordinator.Slots.{Holds, IsValid, admitted, admitted-IsValid}

pub IsValid-if :
    (b : Bool) (x y : CheckpointRegistration × CheckpointCoordinator)
    → (b ≡ true → IsValid x.1)
    → (b ≡ false → IsValid y.1)
    → IsValid (if b then x else y).1
IsValid-if b x y = if-elim (λ r. IsValid r.1) b x y

start_epoch-IsValid :
    (legacy_domain : ℕ → ℕ) (t : Target legacy_domain) (now_ms : ℕ) (c : CheckpointCoordinator)
    → IsValid c
    → is_set c.rescale_operation_id ≡ false
    → is_set c.rescale_recovery_fence ≡ false
    → lookup t.domain_id c.active_checkpoint_by_domain ≡ none
    → IsValid (start_epoch legacy_domain t now_ms c).1
unfolding IsValid Holds start_epoch admitted
start_epoch-IsValid legacy_domain t now_ms c valid idle unfenced vacant =
    let k =
      new_checkpoint (c.barrier_id_gen + 1) t.required t.trigger_sources false (some t.domain_id)
        t.required_committers in
    admitted-IsValid now_ms k c valid refl idle (λ f. absurd (cc))
      (λ b d k' at there same.
        let (own, low, free, slot, i, f) = valid.0 b k' at in
        let taken = slot t.domain_id (there ∙ sym same) in absurd (cc))

register_domain_checkpoint-IsValid :
    (legacy_domain : ℕ → ℕ) (v : ℕ) (force : Bool) (now_ms : ℕ) (c : CheckpointCoordinator)
    → IsValid c
    → is_set c.rescale_operation_id ≡ false
    → is_set c.rescale_recovery_fence ≡ false
    → IsValid (register_domain_checkpoint legacy_domain v force now_ms c).1
unfolding register_domain_checkpoint
register_domain_checkpoint-IsValid legacy_domain v force now_ms c valid idle unfenced =
    elim (Option-cases (registration_target legacy_domain c v)) [
      | inl finished ↦ rw (register_domain_checkpoint, finished) valid
      | inr (t, target) ↦ elim (Option-cases (lookup t.domain_id c.active_checkpoint_by_domain)) [
        | inr (active, taken) ↦ elim (Option-cases (lookup active c.inflight_checkpoints)) [
          | inl gone ↦ rw (register_domain_checkpoint, target, taken, gone) valid
          | inr (k, there) ↦
              rw (register_domain_checkpoint, target, taken, there)
                (IsValid-if (not (contains v k.started_sources)) _ _ (λ _. valid) (λ _. valid))
        ]
        | inl vacant ↦
            rw (register_domain_checkpoint, target, vacant)
              (IsValid-if (leb t.required 0) _ _ (λ _. valid)
                (λ _.
                  IsValid-if
                    (not force && leb c.max_concurrent_checkpoints (length c.inflight_checkpoints))
                    _ _ (λ _. valid)
                    (λ _. start_epoch-IsValid legacy_domain t now_ms c valid idle unfenced vacant)))
      ]
    ]

-- Behind a fence nothing is in flight but the coordinated checkpoint.
start_stabilization-IsValid :
    (v now_ms : ℕ) (c : CheckpointCoordinator)
    → IsValid c
    → is_set c.rescale_operation_id ≡ false
    → ((b : ℕ) → lookup b c.inflight_checkpoints ≡ none)
    → IsValid (start_stabilization v now_ms c).1
unfolding IsValid Holds start_stabilization join_epoch admitted
start_stabilization-IsValid v now_ms c (old, done, apart) idle empty =
    let sinks = sorted_ids (stabilization_sinks c) in
    let sources = sorted_ids c.rescale_recovery_pending_sources in
    let k =
      new_checkpoint (c.barrier_id_gen + 1) (length sinks) sources true
        (only_one (domains_of c.execution_graph sources)) sinks in
    let c' = record c { coordinated_checkpoint_barrier_id = some (c.barrier_id_gen + 1) } in
    IsValid-if (leb (length sinks) 0) _ _ (λ _. (old, done, apart))
      (λ _.
        admitted-IsValid now_ms k c'
          (λ b k' there. absurd (let none_there = empty b in cc), done, apart) refl idle (λ f. refl)
          (λ b d k' there. absurd (let none_there = empty b in cc)))

-- A fenced state with a checkpoint in flight has it as the coordinated one.
none_in_flight :
    (c : CheckpointCoordinator) (b : ℕ)
    → IsValid c
    → is_set c.rescale_recovery_fence ≡ true
    → ((a : ℕ)
        → c.coordinated_checkpoint_barrier_id ≡ some a
        → lookup a c.inflight_checkpoints ≡ none)
    → lookup b c.inflight_checkpoints ≡ none
unfolding IsValid Holds
none_in_flight c b (old, done, apart) fenced gone =
    elim (Option-cases (lookup b c.inflight_checkpoints)) [
      | inl empty ↦ empty
      | inr (k, there) ↦
          let (own, low, free, slot, i, f) = old b k there in
          let lost = gone b (f fenced) in absurd (cc)
    ]

gone_lem :
    (c : CheckpointCoordinator) (epoch a : ℕ)
    → is_alive epoch c ≡ false
    → epoch ≡ a
    → lookup a c.inflight_checkpoints ≡ none
gone_lem c epoch a dead same = ground (arith, dead, same)

join_epoch-IsValid :
    (v b : ℕ) (c : CheckpointCoordinator) → IsValid c → IsValid (join_epoch v b c).1
unfolding IsValid Holds join_epoch
join_epoch-IsValid v b c valid = valid

pub forget_epoch-IsValid :
    (c : CheckpointCoordinator)
    → IsValid c
    → ((b : ℕ) → lookup b c.inflight_checkpoints ≡ none)
    → IsValid (forget_epoch c)
unfolding IsValid Holds
forget_epoch-IsValid c (old, done, apart) empty =
    (λ b k there. absurd (let none_there = empty b in cc), done, apart)

register_rescale_stabilization_checkpoint-IsValid :
    (v now_ms : ℕ) (c : CheckpointCoordinator)
    → IsValid c
    → is_set c.rescale_operation_id ≡ false
    → is_set c.rescale_recovery_fence ≡ true
    → IsValid (register_rescale_stabilization_checkpoint v now_ms c).1
unfolding register_rescale_stabilization_checkpoint
register_rescale_stabilization_checkpoint-IsValid v now_ms c valid idle fenced =
    let known = contains v c.rescale_recovery_pending_sources in
    let joined = contains v c.coordinated_checkpoint_registered_sources in
    IsValid-if (not known) _ _ (λ _. valid)
      (λ _.
        option-elim (λ (r : CheckpointRegistration × CheckpointCoordinator). IsValid r.1)
          c.coordinated_checkpoint_barrier_id _ _
          (λ no_epoch.
            IsValid-if joined _ _ (λ _. valid)
              (λ _.
                start_stabilization-IsValid v now_ms c valid idle
                  (λ b. none_in_flight c b valid fenced (λ a at. absurd (cc)))))
          (λ epoch at.
            let empty : is_alive epoch c ≡ false
                → (b : ℕ) → lookup b c.inflight_checkpoints ≡ none =
              λ dead b. none_in_flight c b valid fenced (λ a at'.
                let same : some epoch ≡ some a = sym at ∙ at' in gone_lem c epoch a dead (cc)) in
            IsValid-if (has_key epoch c.pending_checkpoint_releases) _ _ (λ _. valid)
              (λ _.
                IsValid-if (not (is_alive epoch c)) _ _
                  (λ dead.
                    IsValid-if (is_durable c) _ _ (λ _. valid)
                      (λ _.
                        let nothing = empty (ground arith) in
                        start_stabilization-IsValid v now_ms (forget_epoch c)
                          (forget_epoch-IsValid c valid nothing) idle nothing))
                  (λ _.
                    IsValid-if joined _ _ (λ _. valid) (λ _. join_epoch-IsValid v epoch c valid)))))

-- `register_checkpoint` keeps the slots apart, whatever the state of a rescale.
pub register_checkpoint-IsValid :
    (legacy_domain : ℕ → ℕ) (v : ℕ) (force : Bool) (now_ms : ℕ) (c : CheckpointCoordinator)
    → IsValid c
    → IsValid (register_checkpoint legacy_domain v force now_ms c).1
unfolding register_checkpoint
register_checkpoint-IsValid legacy_domain v force now_ms c valid =
    IsValid-if (is_set c.rescale_operation_id) _ _ (λ _. valid)
      (λ idle.
        IsValid-if (is_set c.rescale_recovery_fence) _ _
          (λ fenced. register_rescale_stabilization_checkpoint-IsValid v now_ms c valid idle fenced)
          (λ unfenced.
            register_domain_checkpoint-IsValid legacy_domain v force now_ms c valid idle unfenced))
