-- ===== src/WatermarkControl.antt =====
-- src/ray/klein/runtime/worker/watermark.py: the replay progress that a task publishes to its senders.
pub mod Durability
mod Tests
use klein.Base.{
  ℕ, ◌+◌, Bool, true, false, not, ◌&&◌, ◌||◌, Option, none, some, List, [], ◌∷◌, ◌++◌, Outcome, ok,
  raise, runtime_error, value_error, raise_if, ◌>>=◌, ◌>>◌, leb, if◌then◌else◌,
}
use klein.Base.Int.{ℤ, pos, negsuc, pos_part, leb_ℤ, max_ℤ}
use klein.Base.Dict.{Dict, lookup_or, insert, erase}

pub data WatermarkMode : Type 0 where
  disabled : WatermarkMode
  pipelined : WatermarkMode
  sink : WatermarkMode

pub record WatermarkController : Type 0 where
  pub mode : WatermarkMode
  pub flush_interval_batches : ℕ
  pub forwarded_to : Dict ℤ
  pub pending_by_sender : Dict ℤ
  pub batches_since_flush : ℕ

-- `__init__`
pub watermark_controller : WatermarkMode → ℤ → Outcome WatermarkController
watermark_controller mode flush_interval_batches = do
  raise_if (leb_ℤ flush_interval_batches (pos 0)) value_error
  ok (record {
    mode = mode;
    flush_interval_batches = pos_part flush_interval_batches;
    forwarded_to = [];
    pending_by_sender = [];
    batches_since_flush = 0;
  })

-- `active`
pub is_active : WatermarkController → Bool
is_active c = elim c.mode [ disabled ↦ false | pipelined ↦ true | sink ↦ true ]

pub forwarded_sequence_for : WatermarkController → Option ℕ → ℤ
forwarded_sequence_for c none = negsuc 0
forwarded_sequence_for c (some sender) = lookup_or sender (negsuc 0) c.forwarded_to

-- What a task tells others: it hands marks to the emit pipeline, and it calls `_push_ack`, which tells
-- a sender that is a channel.
pub data Effect : Type 0 where
  enqueued : Dict ℤ → Effect
  pushed : ℕ → ℤ → Effect

-- What the controller is bound to. Each call may raise, and other calls of the controller may run
-- while it waits for one, so that a call gives the controller that it leaves. `emit` drains the
-- pipeline and enqueues the marks.
pub record Bound : Type 0 where
  pub flush_input : WatermarkController → Outcome WatermarkController
  pub flush_input_async : Option (WatermarkController → Outcome WatermarkController)
  pub flush_output : WatermarkController → Outcome WatermarkController
  pub emit : Option (WatermarkController → Dict ℤ → Outcome WatermarkController)

-- `apply_forwarded`, with its call of `_push_ack`.
pub apply_forwarded : WatermarkController → ℕ → ℤ → List Effect × WatermarkController
apply_forwarded c sender sequence = (
  pushed sender sequence ∷ [],
  record c {
    forwarded_to =
        insert sender (max_ℤ (lookup_or sender (negsuc 0) c.forwarded_to) sequence) c.forwarded_to;
  },
)

-- `note_processed`
pub note_processed : WatermarkController → Option ℕ → Option ℤ → Bool × WatermarkController
note_processed c none sequence = (false, c)
note_processed c (some sender) none = (false, c)
note_processed c (some sender) (some sequence) =
    let c' = record c {
      pending_by_sender =
          insert sender (max_ℤ (lookup_or sender (negsuc 0) c.pending_by_sender) sequence)
            c.pending_by_sender;
      batches_since_flush = c.batches_since_flush + 1;
    } in
    (leb c'.flush_interval_batches c'.batches_since_flush, c')

-- `asyncio.gather` over `apply_forwarded`, in the order of the dict.
pub apply_all : WatermarkController → Dict ℤ → List Effect × WatermarkController
unfolding apply_forwarded
apply_all c [] = ([], c)
apply_all c ((sender, sequence) ∷ rest) =
    let (one, c') = apply_forwarded c sender sequence in
    let (more, c'') = apply_all c' rest in (one ++ more, c'')

-- The flushes of `_do_advance`, with `_flush_processing_boundary`.
pub flush_boundary : Bound → WatermarkController → Outcome WatermarkController
flush_boundary bound c = do
  c' ← elim bound.flush_input_async [
    | none ↦ bound.flush_input c
    | some flush_input_async ↦ flush_input_async c
  ]
  bound.flush_output c'

-- `_do_advance`
pub do_advance : Bound → WatermarkController → Dict ℤ → Outcome (List Effect × WatermarkController)
unfolding flush_boundary apply_all
do_advance bound c pending = do
  c' ← flush_boundary bound c
  elim c'.mode [
    | disabled ↦ ok ([], c')
    | sink ↦ ok (apply_all c' pending)
    | pipelined ↦ elim bound.emit [
      | none ↦ raise runtime_error
      | some emit ↦ do c'' ← emit c' pending; ok (enqueued pending ∷ [], c'')
    ]
  ]

-- `for sender, sequence in pending.items(): if ... <= sequence: pop(sender)`
pub clear_published : Dict ℤ → Dict ℤ → Dict ℤ
clear_published pending_by_sender [] = pending_by_sender
clear_published pending_by_sender ((sender, sequence) ∷ rest) =
    clear_published
      (if leb_ℤ (lookup_or sender (negsuc 0) pending_by_sender) sequence
        then erase sender pending_by_sender
        else pending_by_sender)
      rest

-- The start of `advance`: the marks that are published, or `none` when there is nothing to do
-- but to reset the count, as `finish_advance` does without marks.
pub begin_advance : WatermarkController → Option (Dict ℤ)
unfolding is_active
begin_advance c = elim c.pending_by_sender [
  | [] ↦ none
  | e ∷ rest ↦ if is_active c then some (e ∷ rest) else none
]

-- The end of `advance`, on a state that other calls may have changed while it waited.
pub finish_advance : WatermarkController → Dict ℤ → WatermarkController
unfolding clear_published
finish_advance c pending = record c {
  pending_by_sender = clear_published c.pending_by_sender pending;
  batches_since_flush = 0;
}
