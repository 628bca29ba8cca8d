-- ===== src/Coordinator/Completion.antt =====
-- How the sources join a checkpoint, how its sinks align it, and how it completes or expires.
use klein.Base.{
  true, ℕ, Bool, false, not, ◌++◌, List, [], ◌∷◌, Outcome, ok, raise, key_error, none, some,
  if◌then◌else◌,
}
use klein.Base.Dict.{insert, lookup, erase}
use klein.Checkpoints.Acknowledgements.{Checkpoint, add, eligible, mark_source_started, acknowledge}
use klein.Coordinator.{CheckpointCoordinator, is_terminal, release_domain_slot}
use klein.Coordinator.Admission.{without}

-- `source_checkpoint_started`
unfoldable pub source_checkpoint_started :
    ℕ → ℕ → Bool → CheckpointCoordinator → Bool × CheckpointCoordinator
unfolding mark_source_started
source_checkpoint_started barrier_id vertex_id is_eof c =
    elim (lookup barrier_id c.inflight_checkpoints) [
      | none ↦ (false, c)
      | some checkpoint ↦
          if is_terminal checkpoint.status
          then (false, c)
          else (let (joined, checkpoint') = mark_source_started checkpoint vertex_id is_eof in
              (
                joined,
                record c {
                  inflight_checkpoints = insert barrier_id checkpoint' c.inflight_checkpoints;
                },
              ))
    ]

-- What `notify_checkpoint_aligned` does before its first await. It goes on with the checkpoint that
-- it returns, if that is aligned.
pub data Alignment : Type 0 where
  ignored waiting : Alignment
  aligned : Checkpoint → Alignment

unfoldable pub notify_checkpoint_aligned :
    ℕ → ℕ → ℕ → CheckpointCoordinator → Alignment × CheckpointCoordinator
unfolding acknowledge
notify_checkpoint_aligned barrier_id vertex_id now_ms c =
    if c.stopping then (ignored, c) else elim (lookup barrier_id c.inflight_checkpoints) [
      | none ↦ (ignored, c)
      | some checkpoint ↦
          if is_terminal checkpoint.status
          then (ignored, c)
          else if not (eligible checkpoint.required_committers vertex_id)
          then (ignored, c)
          else (let (ready, checkpoint') = acknowledge checkpoint vertex_id now_ms in
              if ready
              then (
                aligned checkpoint',
                record c {
                  inflight_checkpoints = erase barrier_id c.inflight_checkpoints;
                  completing_checkpoints = add barrier_id c.completing_checkpoints;
                },
              )
              else (
                waiting,
                record c {
                  inflight_checkpoints = insert barrier_id checkpoint' c.inflight_checkpoints;
                },
              ))
    ]

-- Its `finally`, and before it, of a completion that succeeded, the sources at their end.
abbrev pub discard : ℕ → List ℕ → List ℕ
discard v vs = without (v ∷ []) vs

unfoldable pub finish_completion :
    ℕ → Checkpoint → Bool → CheckpointCoordinator → CheckpointCoordinator
unfolding release_domain_slot
finish_completion barrier_id checkpoint succeeded c =
    let c' = release_domain_slot checkpoint c in
    record c' {
      completing_checkpoints = discard barrier_id c.completing_checkpoints;
      finished_sources =
          if succeeded then checkpoint.eof_sources ++ c.finished_sources else c.finished_sources;
    }

-- One round of the loop of `_expire_stale_checkpoints`, on a barrier that was stale when the loop
-- began: `pop` raises KeyError if it has left since.
unfoldable pub expire_checkpoint : ℕ → CheckpointCoordinator → Outcome CheckpointCoordinator
unfolding release_domain_slot
expire_checkpoint barrier_id c = elim (lookup barrier_id c.inflight_checkpoints) [
  | none ↦ raise key_error
  | some checkpoint ↦
      ok
        (record (release_domain_slot checkpoint
          (record c { inflight_checkpoints = erase barrier_id c.inflight_checkpoints })) {
            pending_checkpoint_releases =
                insert barrier_id checkpoint.trigger_sources c.pending_checkpoint_releases;
          })
]

-- `stop`, up to its first await
unfoldable pub stop : CheckpointCoordinator → CheckpointCoordinator
stop c = record c { stopping = true }
