-- ===== src/Coordinator/Changes.antt =====
-- What the sources, the sinks and the clock do to one checkpoint keeps the slots apart.
use klein.Base.{
  ℕ, ◌≡◌, ◌⊎◌, inl, inr, refl, sym, ap, subst, ◌∙◌, Bool, true, false, not, some, List, [], ◌∷◌,
  arith, Bool-cases, Option-cases, ==_iff, ok, if-elim,
}
use klein.Base.Dict.{insert, lookup, erase, lookup-insert_cases, lookup-erase_cases}
use klein.Base.Predicates.{contains}
use klein.Checkpoints.Acknowledgements.{
  Checkpoint, mark_source_started, acknowledge, eligible, mark_notifying, add,
}
use klein.Coordinator.{CheckpointCoordinator, is_terminal, release_domain_slot}
use klein.Coordinator.Completion.{
  source_checkpoint_started, Alignment, notify_checkpoint_aligned, finish_completion,
  expire_checkpoint, discard,
}
use klein.Coordinator.Slots.{Holds, IsValid, slot-released}

-- A checkpoint in flight is replaced by one with its id and its domain.
pub updated-IsValid :
    (b : ℕ) (k k' : Checkpoint) (c : CheckpointCoordinator)
    → IsValid c
    → lookup b c.inflight_checkpoints ≡ some k
    → k'.barrier_id ≡ k.barrier_id
    → k'.domain_id ≡ k.domain_id
    → IsValid (record c { inflight_checkpoints = insert b k' c.inflight_checkpoints })
unfolding IsValid Holds
updated-IsValid b k k' c (old, done, apart) at same_id same_domain = (
  λ j k'' at'. elim (lookup-insert_cases j b k' k'' c.inflight_checkpoints at') [
    | inl (here, same) ↦
        let (own, low, free, slot, i, f) = old b k at in
        let back : some b ≡ some j = ap some (sym here) in
        (
          ap (λ x. x.barrier_id) (sym same) ∙ same_id ∙ own ∙ sym here,
          omega (arith, low, here),
          subst (λ x. contains x c.completing_checkpoints ≡ false) (sym here) free,
          λ d there. slot d (sym same_domain ∙ ap (λ x. x.domain_id) same ∙ there) ∙ back,
          i,
          λ fenced. f fenced ∙ back,
        )
    | inr (other, before) ↦ old j k'' before
  ],
  done,
  apart,
)

-- A checkpoint in flight leaves, to complete or to fail, and gives its slot up or keeps it.
pub removed-IsValid :
    (b : ℕ) (k : Checkpoint) (c : CheckpointCoordinator)
    → IsValid c
    → lookup b c.inflight_checkpoints ≡ some k
    → IsValid
        (release_domain_slot k (record c { inflight_checkpoints = erase b c.inflight_checkpoints }))
unfolding IsValid Holds release_domain_slot
removed-IsValid b k c (old, done, apart) at =
    let c' = record c { inflight_checkpoints = erase b c.inflight_checkpoints } in
    (
      λ j k' at'.
          let (other, before) = lookup-erase_cases j b k' c.inflight_checkpoints at' in
          let (own, low, free, slot, i, f) = old j k' before in
          let mine = (old b k at).0 in
          (
            own,
            low,
            free,
            λ d there.
                slot-released k c' d j (slot d there)
                  (λ clash. let hit = (==_iff j b).1 (sym clash ∙ mine) in absurd (cc)),
            i,
            f,
          ),
      done,
      apart,
    )

acknowledge-same :
    (k : Checkpoint) (v now_ms : ℕ)
    → let k' = (acknowledge k v now_ms).1 in
      (k'.barrier_id ≡ k.barrier_id) × (k'.domain_id ≡ k.domain_id)
unfolding acknowledge mark_notifying
acknowledge-same k v now_ms = (ground arith, ground arith)

mark_source_started-same :
    (k : Checkpoint) (v : ℕ) (is_eof : Bool)
    → let k' = (mark_source_started k v is_eof).1 in
      (k'.barrier_id ≡ k.barrier_id) × (k'.domain_id ≡ k.domain_id)
unfolding mark_source_started
mark_source_started-same k v is_eof = (ground arith, ground arith)

contains-add :
    (j b : ℕ) (xs : List ℕ) → contains j (add b xs) ≡ true → (j ≡ b) ⊎ (contains j xs ≡ true)
contains-add j b xs h = elim (Bool-cases (contains j xs)) [
  | inl there ↦ inr there
  | inr new ↦ inl (ground arith)
]

contains-discard : (j b : ℕ) (xs : List ℕ) → contains j (discard b xs) ≡ true → contains j xs ≡ true
contains-discard j b [] h = h
contains-discard j b (x ∷ xs) h = ground (arith, contains-discard j b xs)

-- The checkpoint is aligned and leaves, to complete.
completing-IsValid :
    (b : ℕ) (k : Checkpoint) (c : CheckpointCoordinator)
    → IsValid c
    → lookup b c.inflight_checkpoints ≡ some k
    → IsValid (record c {
      inflight_checkpoints = erase b c.inflight_checkpoints;
      completing_checkpoints = add b c.completing_checkpoints;
    })
unfolding IsValid Holds
completing-IsValid b k c (old, done, apart) at = (
  λ j k' at'.
      let (other, before) = lookup-erase_cases j b k' c.inflight_checkpoints at' in
      let (own, low, free, slot, i, f) = old j k' before in
      (
        own,
        low,
        (elim (Bool-cases (contains j (add b c.completing_checkpoints))) [
          | inl there ↦ elim (contains-add j b c.completing_checkpoints there) [
            | inl same ↦ let hit = (==_iff j b).1 same in absurd (cc)
            | inr before' ↦ absurd (cc)
          ]
          | inr free' ↦ free'
        ]),
        slot,
        i,
        f,
      ),
  λ j there. elim (contains-add j b c.completing_checkpoints there) [
    | inl same ↦ let low = (old b k at).1 in omega (arith, low, same)
    | inr before ↦ done j before
  ],
  apart,
)

pub finish_completion-IsValid :
    (b : ℕ) (k : Checkpoint) (succeeded : Bool) (c : CheckpointCoordinator)
    → IsValid c
    → contains b c.completing_checkpoints ≡ true
    → k.barrier_id ≡ b
    → IsValid (finish_completion b k succeeded c)
unfolding IsValid Holds finish_completion release_domain_slot
finish_completion-IsValid b k succeeded c (old, done, apart) completing mine = (
  λ j k' at.
      let (own, low, free, slot, i, f) = old j k' at in
      (
        own,
        low,
        (elim (Bool-cases (contains j (discard b c.completing_checkpoints))) [
          | inl there ↦
              let before = contains-discard j b c.completing_checkpoints there in absurd (cc)
          | inr free' ↦ free'
        ]),
        λ d there. slot-released k c d j (slot d there) (λ clash.
            let same : b ≡ j = sym mine ∙ clash in
            let there' = subst (λ x. contains x c.completing_checkpoints ≡ true) same completing in
            absurd (cc)),
        i,
        f,
      ),
  λ j there. done j (contains-discard j b c.completing_checkpoints there),
  apart,
)

pub source_checkpoint_started-IsValid :
    (b v : ℕ) (is_eof : Bool) (c : CheckpointCoordinator)
    → IsValid c
    → IsValid (source_checkpoint_started b v is_eof c).1
unfolding source_checkpoint_started
source_checkpoint_started-IsValid b v is_eof c valid =
    elim (Option-cases (lookup b c.inflight_checkpoints)) [
      | inl gone ↦ rw (source_checkpoint_started, gone) valid
      | inr (k, at) ↦
          let same = mark_source_started-same k v is_eof in
          rw (source_checkpoint_started, at)
            (if-elim (λ (r : Bool × CheckpointCoordinator). IsValid r.1) (is_terminal k.status) _ _
              (λ _. valid) (λ _. updated-IsValid b k _ c valid at same.0 same.1))
    ]

pub notify_checkpoint_aligned-IsValid :
    (b v now_ms : ℕ) (c : CheckpointCoordinator)
    → IsValid c
    → IsValid (notify_checkpoint_aligned b v now_ms c).1
unfolding notify_checkpoint_aligned
notify_checkpoint_aligned-IsValid b v now_ms c valid =
    let P : Alignment × CheckpointCoordinator → Type 0 = λ r. IsValid r.1 in
    if-elim P c.stopping _ _ (λ _. valid)
      (λ _. elim (Option-cases (lookup b c.inflight_checkpoints)) [
        | inl gone ↦ rw gone valid
        | inr (k, at) ↦
            let same = acknowledge-same k v now_ms in
            rw at (
              if-elim P (is_terminal k.status) _ _ (λ _. valid)
                (λ _.
                  if-elim P (not (eligible k.required_committers v)) _ _ (λ _. valid)
                    (λ _.
                      if-elim P (acknowledge k v now_ms).0 _ _
                        (λ _. completing-IsValid b k c valid at)
                        (λ _. updated-IsValid b k _ c valid at same.0 same.1))))
      ])

-- The state after a checkpoint that is in flight has expired.
abbrev expired : ℕ → Checkpoint → CheckpointCoordinator → CheckpointCoordinator
expired b k c =
    record (release_domain_slot k
      (record c { inflight_checkpoints = erase b c.inflight_checkpoints })) {
        pending_checkpoint_releases = insert b k.trigger_sources c.pending_checkpoint_releases;
      }

expired-IsValid :
    (b : ℕ) (k : Checkpoint) (c : CheckpointCoordinator)
    → IsValid c
    → lookup b c.inflight_checkpoints ≡ some k
    → IsValid (expired b k c)
unfolding IsValid Holds release_domain_slot
expired-IsValid b k c valid at = removed-IsValid b k c valid at

pub expire_checkpoint-IsValid :
    (b : ℕ) (c c' : CheckpointCoordinator) → expire_checkpoint b c ≡ ok c' → IsValid c → IsValid c'
unfolding expire_checkpoint release_domain_slot
expire_checkpoint-IsValid b c c' h valid = elim (Option-cases (lookup b c.inflight_checkpoints)) [
  | inl gone ↦ absurd (ground arith)
  | inr (k, at) ↦
      let after : ok (expired b k c) ≡ ok c' = sym (rw (expire_checkpoint, at) refl) ∙ h in
      let same : expired b k c ≡ c' = cc in subst IsValid same (expired-IsValid b k c valid at)
]
