-- ===== src/Lib.antt =====
-- Klein: stateful stream processing on Ray, whose job graph runs as actors that exchange records,
-- watermarks and checkpoint barriers.
--
-- The parts and the files that model them (paths from the root of the repository):
--   * KeyGroups: src/ray/klein/state/key_group_range.py, the assignment of keys to key groups and of
--     key groups to subtasks, which keyed routing and the rescaling of state share;
--   * WeightedQueue: src/ray/klein/runtime/worker/weighted_queue.py, the inbox of a task. A method
--     runs under the lock of the condition and is one step; a caller that has to wait gets `none`;
--   * DeliveryJournal: src/ray/klein/runtime/collector/delivery_journal.py, what the sender of an
--     edge keeps for replay until the receiver acknowledges it. `Events` is the use that the emit
--     path of src/ray/klein/runtime/collector makes of it;
--   * EventTime: src/ray/klein/runtime/event_time/input_watermark_tracker.py with the controls of
--     src/ray/klein/runtime/message.py, the watermark and the idleness of a task with many inputs;
--   * RestartStrategy: src/ray/klein/runtime/scheduler/restart_strategy.py, the sliding window of
--     restarts after which a job is given up;
--   * Checkpoints: src/ray/klein/runtime/coordinator/checkpoint.py, checkpoint_trigger.py and
--     barrier_id_generator.py, the state from which the coordinator runs its epochs;
--   * TopN: src/ray/klein/runtime/operator/sql_top_n_operator.py, streaming ORDER BY and LIMIT;
--   * Partitioning: src/ray/klein/runtime/partitioning, the physical channels between subtasks, the
--     routing policies over them and the slicing of columnar batches by key;
--   * Windows: src/ray/klein/api/time_window.py, tumbling_window.py, sliding_window.py and
--     session_window.py, the windows of a timestamp;
--   * WatermarkControl: src/ray/klein/runtime/worker/watermark.py, the replay progress that a task
--     publishes to its senders once its work is flushed;
--   * Rescale: src/ray/klein/runtime/job_manager/rescale_operation.py, the public status of a rescale,
--     and src/ray/klein/runtime/scheduler/rescale_plan.py, the cursor of its transaction;
--   * Coordinator: src/ray/klein/runtime/coordinator/checkpoint_coordinator.py, which checkpoints are
--     admitted, aligned, completed and expired, and the fence around a rescale. What stands between
--     two awaits is one operation, and `Runs` puts them in any order; `Domains` has the domains of
--     src/ray/klein/runtime/execution_graph/checkpoint_domain.py with the search for a domain's sinks;
--   * Router: src/ray/klein/runtime/collector/record_router.py, the checks between a partitioner and
--     the targets; of a columnar batch, which rows each target is sent;
--   * Placement: src/ray/klein/runtime/scheduler/assignment.py, the nodes that the subtasks of a job
--     are placed on;
--   * MemoryState: src/ray/klein/state/memory_state_backend.py, the keyed state of a task with its time
--     to live, and its snapshots by key group;
--   * Base: lists, dicts, integers and results that the parts share.
--
-- Functions keep the names of the source, without leading underscores. A method takes the object
-- and returns the new one; a call that may raise returns an `Outcome` with the class of the
-- exception. Python integers are ℤ where they may be negative and ℕ where a guard of the source or
-- an invariant proved here keeps them from it. Keys, senders and vertex ids, which are only
-- compared, are numbers. Dicts are lists of entries in insertion order.
--
-- Fuel: the binary search of `insert_sorted` runs on one round for each row, and the loop of
-- `sliding_assign` on one for each millisecond of the size, the search of `reachable_domain_sinks`
-- on one for each source and each edge; the theorems on the three show that this is enough.
--
-- Parameters: `encode_key` and BLAKE2b (KeyGroups), the weight and size of an item (WeightedQueue),
-- the size estimate and row count of records (DeliveryJournal), the comparison of values and the key
-- of a row (TopN), the name of the domain of a source without one (Coordinator), the flushes and the emit
-- pipeline of a task (WatermarkControl), the floats of resources (Placement), the encoding of
-- state and the key group of an encoded entry (MemoryState), and the clocks, whose readings are
-- arguments.
--
-- Not modelled: threads and the event loop within a method that holds its lock, metrics and logging,
-- the restart of a coordinator from its storage, the calls of Ray, the SQL front end, the connectors and the dashboard, the
-- coordinator's sink transactions and its storage of metadata, the execution graph beyond what the
-- coordinator asks of it, the timers of the state, the operators that use them
-- and the RocksDB backend.
pub mod Base
pub mod KeyGroups
pub mod WeightedQueue
pub mod DeliveryJournal
pub mod EventTime
pub mod RestartStrategy
pub mod Checkpoints
pub mod TopN
pub mod Partitioning
pub mod Windows
pub mod WatermarkControl
pub mod Rescale
pub mod Coordinator
pub mod Placement
pub mod MemoryState
pub mod Router
