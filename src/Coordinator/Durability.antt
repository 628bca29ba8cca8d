-- ===== src/Coordinator/Durability.antt =====
-- When a rescale's fence is satisfied, and when it is lifted.
use klein.Base.{
  ◌∙◌, ◌≢◌, ap, sym, subst, Option, none, inl, inr, Bool-cases, Option-cases, ==_iff, ℕ, ◌≤◌, ◌≡◌,
  ◌↔◌, refl, Bool, true, false, not, ◌&&◌, ◌||◌, some, List, [], ◌∷◌, arith, ◌==◌, option-elim,
  if-elim,
}
use klein.Base.Predicates.{all, any, contains, All}
use klein.Base.Dict.{Dict, lookup}
use klein.Checkpoints.Acknowledgements.{Checkpoint}
use klein.Coordinator.{CheckpointCoordinator, is_key}
use klein.Coordinator.Admission.{is_set}
use klein.Coordinator.Fence.{
  same_members, keep, is_released, finalize_rescale_operator_states,
  record_rescale_stabilization_progress, clear_fence, clear_rescale_recovery_fence_if_durable,
}

-- Nothing of the operation is left among the transient states.
any-keep :
    (operation_id : ℕ) (keys : List (ℕ × ℕ))
    → any (λ key. key.0 == operation_id) (keep (λ key. not (key.0 == operation_id)) keys) ≡ false
any-keep operation_id [] = refl
any-keep operation_id (key ∷ keys) = ground (arith, any-keep operation_id keys)

all-contains :
    (p : ℕ → Bool) (vs : List ℕ) → (all p vs ≡ true) ↔ ((v : ℕ) → contains v vs ≡ true → p v ≡ true)
all-contains p vs = (λ h v there. all_at vs h v there, all_of vs)
  where
    all_at : (vs : List ℕ) → all p vs ≡ true → (v : ℕ) → contains v vs ≡ true → p v ≡ true
    all_at [] h v there = absurd (cc)
    all_at (w ∷ vs) h v there = elim (Bool-cases (v == w)) [
      | inl hit ↦ let same = (==_iff v w).0 hit in ap p same ∙ ground (arith, h)
      | inr miss ↦ all_at vs (ground (arith, h)) v (ground (arith, there, miss))
    ]

    all_of : (vs : List ℕ) → ((v : ℕ) → contains v vs ≡ true → p v ≡ true) → all p vs ≡ true
    all_of [] h = refl
    all_of (w ∷ vs) h =
        let here : p w ≡ true = h w (ground (arith, (==_iff w w).1 refl)) in
        let rest = all_of vs (λ v there. h v (ground (arith, there))) in ground (arith, here, rest)

same_members_iff :
    (a b : List ℕ)
    → (same_members a b ≡ true) ↔ ((v : ℕ) → (contains v a ≡ true) ↔ (contains v b ≡ true))
same_members_iff a b =
    let there = all-contains (λ v. contains v b) a in
    let back = all-contains (λ v. contains v a) b in
    (
      λ h v. (there.0 (ground (arith, h)) v, back.0 (ground (arith, h)) v),
      λ h.
          let one = there.1 (λ v. (h v).0) in
          let other = back.1 (λ v. (h v).1) in ground (arith, one, other),
    )

is_key_iff : (key : ℕ) (at : Option ℕ) → (is_key key at ≡ true) ↔ (at ≡ some key)
is_key_iff key none = (λ h. absurd (cc), λ h. absurd (cc))
is_key_iff key (some other) = (
  λ h. ap some (sym ((==_iff key other).0 h)),
  λ h. (==_iff key other).1 (let same : other ≡ key = cc in sym same),
)

keep-others :
    (o : ℕ) (keys : List (ℕ × ℕ)) → All (λ key. key.0 ≢ o) (keep (λ key. not (key.0 == o)) keys)
keep-others o [] = tt
keep-others o (key ∷ keys) = elim (Bool-cases (key.0 == o)) [
  | inl gone ↦ rw gone (keep-others o keys)
  | inr kept ↦ rw kept ((λ same. let hit = (==_iff key.0 o).1 same in cc), keep-others o keys)
]

-- What the coordinator is left with, when strict persistence is due and when it is not.
abbrev pub After : CheckpointCoordinator → ℕ → Bool × CheckpointCoordinator → Type 0
After c o r =
    (r.0 ≡ true
      → (r.1.rescale_recovery_required_state_revision ≡ some r.1.state_revision)
        × (r.1.rescale_recovery_fence ≡ c.rescale_recovery_fence)
        × All (λ key. key.0 ≢ o) r.1.transient_rescale_states)
    × (r.0 ≡ false → r.1 ≡ c)

record_rescale_stabilization_progress-After :
    (k : Checkpoint) (c : CheckpointCoordinator) (o : ℕ)
    → c.rescale_recovery_fence ≡ some o
    → let r = record_rescale_stabilization_progress k c in
      (r.0 ≡ (
        k.coordinated
        && is_key k.barrier_id c.coordinated_checkpoint_barrier_id
        && same_members k.trigger_sources c.rescale_recovery_pending_sources))
      × After c o r
unfolding record_rescale_stabilization_progress finalize_rescale_operator_states
record_rescale_stabilization_progress-After k c operation_id fenced =
    let covers = same_members k.trigger_sources c.rescale_recovery_pending_sources in
    let epoch = is_key k.barrier_id c.coordinated_checkpoint_barrier_id in
    let due = k.coordinated && epoch && covers in
    let P : Bool × CheckpointCoordinator → Type 0 = λ r. (r.0 ≡ due) × After c operation_id r in
    option-elim P c.rescale_recovery_fence _ _ (λ unfenced. absurd (cc))
      (λ o at.
        let same : o ≡ operation_id = cc in
        let clean = any-keep o c.transient_rescale_states in
        let others =
          subst
            (λ x.
              All (λ key. key.0 ≢ x) (keep (λ key. not (key.0 == o)) c.transient_rescale_states))
            same (keep-others o c.transient_rescale_states) in
        if-elim P (not k.coordinated || not epoch) _ _
          (λ wrong. (ground arith, (λ h. absurd (cc), λ h. refl)))
          (λ right.
            if-elim P (not covers) _ _ (λ misses. (ground arith, (λ h. absurd (cc), λ h. refl)))
              (λ all_there.
                if-elim P
                  (any (λ key. key.0 == o)
                    (keep (λ key. not (key.0 == o)) c.transient_rescale_states))
                  _ _ (λ left. absurd (cc))
                  (λ _. (ground arith, (λ h. (refl, refl, others), λ h. absurd (cc)))))))

-- Behind the fence of a rescale, a completed checkpoint makes strict persistence due exactly if it
-- is coordinated, it is the one of the current epoch, and it was triggered at exactly the sources that
-- the rescale waits for. The state's revision is then the one required, the fence stays and nothing
-- of the operation is left among the transient states; otherwise nothing changes.
pub record_rescale_stabilization_progress_lem :
    (k : Checkpoint) (c : CheckpointCoordinator) (operation_id : ℕ)
    → c.rescale_recovery_fence ≡ some operation_id
    → let r = record_rescale_stabilization_progress k c in
      ((r.0 ≡ true) ↔ (
        (k.coordinated ≡ true)
        × (c.coordinated_checkpoint_barrier_id ≡ some k.barrier_id)
        × ((v : ℕ)
            → (contains v k.trigger_sources ≡ true)
              ↔ (contains v c.rescale_recovery_pending_sources ≡ true))))
      × After c operation_id r
record_rescale_stabilization_progress_lem k c operation_id fenced =
    let (due, after) = record_rescale_stabilization_progress-After k c operation_id fenced in
    let covers = same_members_iff k.trigger_sources c.rescale_recovery_pending_sources in
    let epoch = is_key_iff k.barrier_id c.coordinated_checkpoint_barrier_id in
    (
      (
        λ h. (
          ground (arith, due, h),
          epoch.0 (ground (arith, due, h)),
          covers.0 (ground (arith, due, h)),
        ),
        λ (coordinated, own, same).
            let e = epoch.1 own in let m = covers.1 same in ground (arith, due, coordinated, e, m),
      ),
      after,
    )

is_released_iff :
    (released : Dict ℕ) (b v : ℕ)
    → (is_released released b v ≡ true)
      ↔ ((last : ℕ) × (lookup v released ≡ some last) × (b ≤ last))
is_released_iff released b v = elim (Option-cases (lookup v released)) [
  | inl missing ↦ (λ h. absurd (ground (arith, missing, h)), λ (last, at, low). absurd (cc))
  | inr (last, at) ↦
      (λ h. (last, at, ground (arith, at, h)), λ (l, there, low). ground (arith, at, there, low))
]

-- The fence as the source's conditions read it.
lifted_iff :
    (c : CheckpointCoordinator)
    → is_set c.rescale_recovery_fence ≡ true
    → (is_set (clear_rescale_recovery_fence_if_durable c).rescale_recovery_fence ≡ false) ↔ (
        (revision : ℕ) × (b : ℕ) × (c.rescale_recovery_required_state_revision ≡ some revision)
        × (c.coordinated_checkpoint_barrier_id ≡ some b)
        × (revision ≤ c.persisted_state_revision)
        × (all (is_released c.released_source_checkpoint_ids b) c.rescale_recovery_pending_sources
            ≡ true))
unfolding clear_rescale_recovery_fence_if_durable clear_fence
lifted_iff c fenced =
    (λ lifted. ground arith, λ (revision, b, required, epoch, low, done). ground arith)

-- Behind a fence, the fence is lifted exactly if the required revision is persisted and every
-- source that the rescale waits for has released the epoch's barrier or a later one.
pub clear_rescale_recovery_fence_if_durable_iff :
    (c : CheckpointCoordinator)
    → is_set c.rescale_recovery_fence ≡ true
    → (is_set (clear_rescale_recovery_fence_if_durable c).rescale_recovery_fence ≡ false) ↔ (
        (revision : ℕ) × (b : ℕ) × (c.rescale_recovery_required_state_revision ≡ some revision)
        × (c.coordinated_checkpoint_barrier_id ≡ some b)
        × (revision ≤ c.persisted_state_revision)
        × ((v : ℕ)
            → contains v c.rescale_recovery_pending_sources ≡ true
            → (last : ℕ) × (lookup v c.released_source_checkpoint_ids ≡ some last) × (b ≤ last)))
clear_rescale_recovery_fence_if_durable_iff c fenced =
    let released = c.released_source_checkpoint_ids in
    let waiting = c.rescale_recovery_pending_sources in
    (
      λ lifted.
          let (revision, b, required, epoch, low, done) = (lifted_iff c fenced).0 lifted in
          (
            revision,
            b,
            required,
            epoch,
            low,
            λ v there.
                (is_released_iff released b v).0
                  ((all-contains (is_released released b) waiting).0 done v there),
          ),
      λ (revision, b, required, epoch, low, done). (lifted_iff c fenced).1 (
        revision,
        b,
        required,
        epoch,
        low,
        (all-contains (is_released released b) waiting).1
            (λ v there. (is_released_iff released b v).1 (done v there)),
      ),
    )
