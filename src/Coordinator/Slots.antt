-- ===== src/Coordinator/Slots.antt =====
-- The slots of the domains: whatever the coordinator does, its checkpoints in flight stand apart.
use klein.Base.{
  ℕ, ◌+◌, ◌≤◌, ◌≡◌, ◌≢◌, inl, inr, refl, sym, ap, ◌∙◌, true, false, some, arith, ◌==◌, Bool-cases,
  Option-cases, ==_iff,
}
use klein.Base.Dict.{lookup, lookup-insert, lookup-erase, lookup-insert_cases}
use klein.Base.Predicates.{contains}
use klein.Checkpoints.Acknowledgements.{Checkpoint, mark_in_progress}
use klein.Coordinator.{
  CheckpointCoordinator, is_key, track_checkpoint, activate_checkpoint_domain, release_domain_slot,
}
use klein.Coordinator.Admission.{is_set}

-- What holds of a checkpoint in flight under `b`: it is the barrier's, which was allocated and does
-- not complete yet, it has the slot of its domain, no rescale is under way, and behind a fence it is
-- the coordinated one.
unfoldable pub Holds : CheckpointCoordinator → ℕ → Checkpoint → Type 0
Holds c b k =
    (k.barrier_id ≡ b)
    × (b ≤ c.barrier_id_gen)
    × (contains b c.completing_checkpoints ≡ false)
    × ((d : ℕ) → k.domain_id ≡ some d → lookup d c.active_checkpoint_by_domain ≡ some b)
    × (is_set c.rescale_operation_id ≡ false)
    × (is_set c.rescale_recovery_fence ≡ true → c.coordinated_checkpoint_barrier_id ≡ some b)

unfoldable pub IsValid : CheckpointCoordinator → Type 0
IsValid c =
    ((b : ℕ) (k : Checkpoint) → lookup b c.inflight_checkpoints ≡ some k → Holds c b k)
    × ((b : ℕ) → contains b c.completing_checkpoints ≡ true → b ≤ c.barrier_id_gen)
    × (is_set c.rescale_operation_id ≡ true → is_set c.rescale_recovery_fence ≡ false)

-- The slots after a checkpoint of the domain, if it has one, was given its own, or gave it up.
slot-activated :
    (k : Checkpoint) (c : CheckpointCoordinator) (d b : ℕ)
    → lookup d c.active_checkpoint_by_domain ≡ some b
    → k.domain_id ≢ some d
    → lookup d (activate_checkpoint_domain k c).active_checkpoint_by_domain ≡ some b
unfolding activate_checkpoint_domain
slot-activated k c d b at apart = elim (Option-cases k.domain_id) [
  | inl none_there ↦ rw none_there at
  | inr (e, there) ↦
      let other : (d == e) ≡ false = elim (Bool-cases (d == e)) [
        | inl hit ↦ absurd (apart (there ∙ ap some (sym ((==_iff d e).0 hit))))
        | inr miss ↦ miss
      ] in
      rw there (lookup-insert d e k.barrier_id c.active_checkpoint_by_domain ∙ rw other at)
]

slot-activated_own :
    (k : Checkpoint) (c : CheckpointCoordinator) (d : ℕ)
    → k.domain_id ≡ some d
    → lookup d (activate_checkpoint_domain k c).active_checkpoint_by_domain ≡ some k.barrier_id
unfolding activate_checkpoint_domain
slot-activated_own k c d there =
    rw there
      (lookup-insert d d k.barrier_id c.active_checkpoint_by_domain ∙ rw ((==_iff d d).1 refl) refl)

pub slot-released :
    (k : Checkpoint) (c : CheckpointCoordinator) (d b : ℕ)
    → lookup d c.active_checkpoint_by_domain ≡ some b
    → k.barrier_id ≢ b
    → lookup d (release_domain_slot k c).active_checkpoint_by_domain ≡ some b
unfolding release_domain_slot
slot-released k c d b at apart = elim (Option-cases k.domain_id) [
  | inl none_there ↦ rw none_there at
  | inr (e, there) ↦
      elim (Bool-cases (is_key k.barrier_id (lookup e c.active_checkpoint_by_domain))) [
        | inr kept ↦ rw (there, kept) at
        | inl own ↦
            let other : (d == e) ≡ false = elim (Bool-cases (d == e)) [
              | inl hit ↦
                  let same : e ≡ d = sym ((==_iff d e).0 hit) in
                  let mine : is_key k.barrier_id (some b) ≡ true =
                    ap (is_key k.barrier_id) (sym at)
                    ∙ ap (λ x. is_key k.barrier_id (lookup x c.active_checkpoint_by_domain))
                        (sym same)
                    ∙ own in
                  absurd (apart ((==_iff k.barrier_id b).0 mine))
              | inr miss ↦ miss
            ] in
            rw (there, own) (lookup-erase d e c.active_checkpoint_by_domain ∙ rw other at)
      ]
]

-- A new checkpoint, tracked and activated.
unfoldable pub admitted : ℕ → Checkpoint → CheckpointCoordinator → CheckpointCoordinator
admitted now_ms k c =
    activate_checkpoint_domain k
      (track_checkpoint now_ms k (record c { barrier_id_gen = c.barrier_id_gen + 1 }))

-- No other one in flight has its domain, and behind a fence it is the coordinated one.
pub admitted-IsValid :
    (now_ms : ℕ) (k : Checkpoint) (c : CheckpointCoordinator)
    → IsValid c
    → k.barrier_id ≡ c.barrier_id_gen + 1
    → is_set c.rescale_operation_id ≡ false
    → (is_set c.rescale_recovery_fence ≡ true
        → c.coordinated_checkpoint_barrier_id ≡ some k.barrier_id)
    → ((b d : ℕ) (k' : Checkpoint)
        → lookup b c.inflight_checkpoints ≡ some k'
        → k'.domain_id ≡ some d
        → k.domain_id ≢ some d)
    → IsValid (admitted now_ms k c)
unfolding IsValid Holds admitted track_checkpoint mark_in_progress activate_checkpoint_domain
admitted-IsValid now_ms k c (old, done, apart) fresh idle fenced alone = (
  λ b k' at.
      let c' = track_checkpoint now_ms k (record c { barrier_id_gen = c.barrier_id_gen + 1 }) in
      let marked = mark_in_progress now_ms k in
      elim (lookup-insert_cases b k.barrier_id marked k' c.inflight_checkpoints at) [
        | inl (new, same) ↦ (
          ap (λ x. x.barrier_id) (sym same) ∙ sym new,
          omega (arith, new, fresh),
          (elim (Bool-cases (contains b c.completing_checkpoints)) [
            | inl completing ↦
                let low = done b completing in absurd (omega (arith, low, new, fresh))
            | inr free ↦ free
          ]),
          λ d there.
              slot-activated_own k c' d (ap (λ x. x.domain_id) same ∙ there) ∙ ap some (sym new),
          idle,
          λ f. fenced f ∙ ap some (sym new),
        )
        | inr (other, before) ↦
            let (own, low, free, slot, i, f) = old b k' before in
            (
              own,
              omega (arith, low),
              free,
              λ d there. slot-activated k c' d b (slot d there) (alone b d k' before there),
              i,
              f,
            )
      ],
  λ b h. let low = done b h in omega (arith, low),
  apart,
)
