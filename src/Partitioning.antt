-- ===== src/Partitioning.antt =====
-- src/ray/klein/runtime/partitioning: which downstream subtasks a task is wired to, and which of them
-- a record or a columnar batch goes to.
pub mod Topology
pub mod Rings
pub mod Columnar
mod Tests
use klein.Base.{
  ℕ, zero, suc, ◌+◌, ◌-◌, ◌*◌, ◌/◌, ◌%◌, Bool, true, false, not, ◌&&◌, ◌||◌, Option, none, some,
  List, [], ◌∷◌, ◌++◌, map, Outcome, ok, raise, value_error, runtime_error, index_error, raise_if,
  ◌>>=◌, ◌>>◌, ltb, leb, ◌==◌, if◌then◌else◌, length, get_elem?, take, drop,
}
use klein.Base.Int.{ℤ, pos, pos_part, ltb_ℤ, leb_ℤ}
use klein.Base.Division.{ceil_div}
use klein.Base.Dict.{Dict, lookup_or, insert}
use klein.KeyGroups.{key_group_for_key, key_group_owner}

pub data ChannelPattern : Type 0 where
  all_to_all : ChannelPattern
  forward : ChannelPattern
  rescale : ChannelPattern

-- `range(start, start + n * step, step)`
abbrev pub range_from : ℕ → ℕ → ℕ → List ℕ
range_from zero start step = []
range_from (suc n) start step = start ∷ range_from n (start + step) step

-- `ChannelTopology.target_indices`
pub target_indices : ChannelPattern → ℤ → ℤ → ℤ → Outcome (List ℕ)
target_indices pattern source_parallelism target_parallelism source_index = do
  raise_if (leb_ℤ source_parallelism (pos 0) || leb_ℤ target_parallelism (pos 0)) value_error
  raise_if (ltb_ℤ source_index (pos 0) || leb_ℤ source_parallelism source_index) value_error
  let s = pos_part source_parallelism
  let t = pos_part target_parallelism
  let i = pos_part source_index
  elim pattern [
    | all_to_all ↦ ok (range_from t 0 1)
    | forward ↦ if s == t then ok (i ∷ []) else raise value_error
    | rescale ↦ if leb t s then ok (i % t ∷ []) else ok (range_from (ceil_div (t - i) s) i s)
  ]

-- `Partitioner.open`
pub open_partitioner : ℤ → Outcome ℕ
open_partitioner partition_count = do
  raise_if (leb_ℤ partition_count (pos 0)) value_error
  ok (pos_part partition_count)

-- `BroadcastPartitioner.partition`; the count is `none` before `open`.
pub broadcast_partition : Option ℕ → Outcome (List ℕ)
broadcast_partition none = raise runtime_error
broadcast_partition (some count) =
    if count == 0 then raise runtime_error else ok (range_from count 0 1)

-- `ForwardPartitioner.open`, which gives the only target.
pub forward_open : ℤ → ℕ → Outcome ℕ
unfolding open_partitioner
forward_open partition_count task_index = do
  count ← open_partitioner partition_count
  raise_if (leb count task_index) value_error
  ok task_index

pub record RoundRobinPartitioner : Type 0 where
  pub partition_count : Option ℕ
  pub cursor : ℕ

-- `_partition_count is None or _partition_count <= 0`
opened : Option ℕ → Outcome ℕ
opened none = raise runtime_error
opened (some count) = if count == 0 then raise runtime_error else ok count

-- `RoundRobinPartitioner.partition`
pub round_robin_partition : RoundRobinPartitioner → Outcome (ℕ × RoundRobinPartitioner)
unfolding opened
round_robin_partition p = do
  count ← opened p.partition_count
  ok (p.cursor, record p { cursor = (p.cursor + 1) % count })

-- `RoundRobinPartitioner.retry_targets`
pub round_robin_retry_targets : RoundRobinPartitioner → ℕ → Outcome (List ℕ)
unfolding opened
round_robin_retry_targets p initial_target = do
  count ← opened p.partition_count
  ok (map (λ offset. (initial_target + offset) % count) (range_from count 0 1))

pub record WorkerPoolDispatcher : Type 0 where
  pub tasks : List ℕ
  pub cursor : ℕ

pub worker_pool_dispatcher : List ℕ → Outcome WorkerPoolDispatcher
worker_pool_dispatcher tasks = do
  raise_if (length tasks == 0) value_error
  ok (record { tasks = tasks; cursor = 0 })

-- `current`
pub current : WorkerPoolDispatcher → Outcome ℕ
current d = elim (get_elem? d.tasks d.cursor) [ none ↦ raise index_error | some task ↦ ok task ]

-- `take`, with the `advance` that it calls.
pub take_task : WorkerPoolDispatcher → Outcome (ℕ × WorkerPoolDispatcher)
unfolding current
take_task d = do task ← current d; ok (task, record d { cursor = (d.cursor + 1) % length d.tasks })

-- `tasks.index(task)`
pub index_of : ℕ → List ℕ → Option ℕ
index_of task [] = none
index_of task (t ∷ ts) =
    let rest = index_of task ts in
    if task == t then some 0 else elim rest [ none ↦ none | some i ↦ some (suc i) ]

-- `ring_from`
pub ring_from : WorkerPoolDispatcher → ℕ → Outcome (List ℕ)
unfolding index_of
ring_from d task = elim (index_of task d.tasks) [
  | none ↦ raise value_error
  | some start ↦ ok (drop start d.tasks ++ take start d.tasks)
]

-- `RescalePartitioner.open`, which gives the dispatcher over the assigned targets.
pub rescale_open : ℤ → ℤ → ℤ → Outcome WorkerPoolDispatcher
unfolding open_partitioner target_indices
rescale_open parallelism partition_count task_index = do
  count ← open_partitioner partition_count
  assignment ← target_indices rescale parallelism (pos count) task_index
  raise_if (length assignment == 0) runtime_error
  worker_pool_dispatcher assignment

-- `if target not in buckets: ...; buckets[target].append(row_index)`. The list `order` of the source is
-- the order of the keys.
pub bucket_row : Dict (List ℕ) → ℕ → ℕ → Dict (List ℕ)
bucket_row buckets target row_index =
    insert target (lookup_or target [] buckets ++ row_index ∷ []) buckets

-- `for row_index in range(num_rows)` of `KeyPartitioner.partition_columnar`, from `row_index` on.
pub bucket_rows : (ℕ → Outcome ℕ) → Dict (List ℕ) → ℕ → ℕ → Outcome (Dict (List ℕ))
unfolding bucket_row
bucket_rows target_of buckets zero row_index = ok buckets
bucket_rows target_of buckets (suc n) row_index = do
  target ← target_of row_index
  bucket_rows target_of (bucket_row buckets target row_index) n (row_index + 1)

-- What it returns: a slice without row indices is the whole batch.
pub slices : Dict (List ℕ) → List (ℕ × Option (List ℕ))
slices [] = []
slices (b ∷ []) = (b.0, none) ∷ []
slices (b ∷ c ∷ bs) = map (λ e. (e.0, some e.1)) (b ∷ c ∷ bs)

-- `KeyPartitioner._target_for_key`; an owner is not negative.
pub target_for_key :
    {Key Bytes : Type 0}
    → (Key → Outcome Bytes)
    → (Bytes → ℕ)
    → Option ℤ
    → Option ℕ
    → Key
    → Outcome ℕ
target_for_key encode digest none partition_count key = raise runtime_error
target_for_key encode digest (some max_parallelism) none key = raise runtime_error
target_for_key encode digest (some max_parallelism) (some count) key = do
  key_group ← key_group_for_key encode digest key max_parallelism
  owner ← key_group_owner key_group max_parallelism (pos count)
  ok (pos_part owner)

-- `configured if configured is not None else ...`
abbrev configured_or : Option ℤ → ℤ → ℤ
configured_or none job = job
configured_or (some m) job = m

-- `KeyPartitioner.open`: the count and the maximal parallelism, which the job configures unless the
-- partitioner does.
pub key_open : Option ℤ → ℤ → ℤ → Outcome (ℕ × ℤ)
unfolding open_partitioner
key_open configured job_max_parallelism partition_count = do
  count ← open_partitioner partition_count
  let max_parallelism = configured_or configured job_max_parallelism
  raise_if (ltb_ℤ max_parallelism (pos count)) value_error
  ok (count, max_parallelism)

-- `KeyPartitioner.partition_columnar`, for the keys that the selector gives for the rows.
pub key_partition_columnar :
    {Key Bytes : Type 0}
    → (Key → Outcome Bytes)
    → (Bytes → ℕ)
    → Option ℤ
    → Option ℕ
    → (ℕ → Key)
    → ℕ
    → Outcome (List (ℕ × Option (List ℕ)))
unfolding bucket_rows
key_partition_columnar encode digest max_parallelism count key_of num_rows = do
  buckets ←
      bucket_rows (λ row. target_for_key encode digest max_parallelism count (key_of row)) []
        num_rows 0
  ok (slices buckets)

-- The two loops of `SimplePartitioner.partition_columnar`, where `fn` gives the targets of a row.
bucket_targets : Dict (List ℕ) → List ℕ → ℕ → Dict (List ℕ)
unfolding bucket_row
bucket_targets buckets [] row_index = buckets
bucket_targets buckets (t ∷ ts) row_index =
    bucket_targets (bucket_row buckets t row_index) ts row_index

bucket_fan_out : (ℕ → List ℕ) → Dict (List ℕ) → ℕ → ℕ → Dict (List ℕ)
unfolding bucket_targets
bucket_fan_out fn buckets zero row_index = buckets
bucket_fan_out fn buckets (suc n) row_index =
    bucket_fan_out fn (bucket_targets buckets (fn row_index) row_index) n (row_index + 1)

fan_out_slices : ℕ → Dict (List ℕ) → List (ℕ × Option (List ℕ))
fan_out_slices num_rows [] = []
fan_out_slices num_rows (b ∷ []) =
    if length b.1 == num_rows then (b.0, none) ∷ [] else (b.0, some b.1) ∷ []
fan_out_slices num_rows (b ∷ c ∷ bs) = map (λ e. (e.0, some e.1)) (b ∷ c ∷ bs)

pub simple_partition_columnar : (ℕ → List ℕ) → ℕ → List (ℕ × Option (List ℕ))
unfolding bucket_fan_out fan_out_slices
simple_partition_columnar fn num_rows = fan_out_slices num_rows (bucket_fan_out fn [] num_rows 0)
