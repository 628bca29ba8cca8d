-- ===== src/DeliveryJournal.antt =====
-- src/ray/klein/runtime/collector/delivery_journal.py: the replay journal of one downstream edge.
-- The three per-target lists of the class are one list of lanes. The lock makes every method one
-- step, and the observers only publish the two totals.
pub mod Lanes
pub mod Events
pub mod Replay
pub mod Totals
mod Tests
use klein.Base.{
  ℕ, ◌+◌, ◌-◌, Bool, true, false, not, ◌&&◌, ◌||◌, Option, none, some, List, [], ◌∷◌, ◌++◌, map,
  Outcome, ok, raise, value_error, index_error, memory_error, raise_if, ◌>>=◌, ◌>>◌, ltb, leb,
  if◌then◌else◌, get_elem?, set, replicate,
}
use klein.Base.Int.{ℤ, pos, negsuc, pos_part, ltb_ℤ, leb_ℤ}

-- `_ReplayEntry`
pub record ReplayEntry (R : Type 0) : Type 0 where
  pub sequence : ℕ
  pub records : List R
  pub row_count : ℕ
  pub size_bytes : ℕ

-- `_sequence[i]`, `_buffer[i]` and `_forwarded[i]`
pub record Lane (R : Type 0) : Type 0 where
  pub sequence : ℕ
  pub buffer : List (ReplayEntry R)
  pub forwarded : ℤ

-- The identity of the sender, which `configure` stamps on the journal; ids and names are only
-- compared, so they are numbers.
pub record Sender : Type 0 where
  pub vertex_id : Option ℕ
  pub task_name : Option ℕ
  pub edge_index : Option ℕ
  pub topology_epoch : Option ℕ

pub record DeliveryJournal (R : Type 0) : Type 0 where
  pub enabled : Bool
  pub sender : Sender
  pub lanes : List (Lane R)
  pub buffered_bytes : ℕ
  pub buffered_records : ℕ
  pub max_bytes : ℕ

-- `DeliveryChannel` of runtime/message.py
pub record DeliveryChannel : Type 0 where
  pub sender_vertex_id : ℕ
  pub sender_task_name : ℕ
  pub edge_index : ℕ
  pub target_index : ℕ
  pub topology_epoch : Option ℕ

module _ {R : Type 0} where
  abbrev pub empty_lane : Lane R
  empty_lane = record { sequence = 0; buffer = []; forwarded = negsuc 0 }

  -- `__init__`
  pub delivery_journal : ℕ → DeliveryJournal R
  delivery_journal target_count = record {
    enabled = false;
    sender = record {
      vertex_id = none;
      task_name = none;
      edge_index = none;
      topology_epoch = none;
    };
    lanes = replicate target_count empty_lane;
    buffered_bytes = 0;
    buffered_records = 0;
    max_bytes = 0;
  }

  pub configure : Bool → Sender → ℤ → DeliveryJournal R → Outcome (DeliveryJournal R)
  configure enabled sender max_bytes j = do
    raise_if (enabled && leb_ℤ max_bytes (pos 0)) value_error
    raise_if (ltb_ℤ max_bytes (pos 0)) value_error
    ok (record j { enabled = enabled; sender = sender; max_bytes = pos_part max_bytes })

  lane_at : DeliveryJournal R → ℕ → Outcome (Lane R)
  lane_at j target = elim (get_elem? j.lanes target) [ none ↦ raise index_error | some l ↦ ok l ]

  pub next_sequence : DeliveryJournal R → ℕ → Outcome ℕ
  next_sequence j target = do l ← lane_at j target; ok (l.sequence + 1)

  -- `while buffer and buffer[0].sequence <= forwarded_sequence: buffer.popleft()`
  pub drop_covered : ℤ → List (ReplayEntry R) → List (ReplayEntry R)
  drop_covered forwarded [] = []
  drop_covered forwarded (e ∷ es) =
      let rest = drop_covered forwarded es in
      if leb_ℤ (pos e.sequence) forwarded then rest else e ∷ es

  -- The entries that the same loop takes off.
  pub take_covered : ℤ → List (ReplayEntry R) → List (ReplayEntry R)
  take_covered forwarded [] = []
  take_covered forwarded (e ∷ es) =
      let rest = e ∷ take_covered forwarded es in
      if leb_ℤ (pos e.sequence) forwarded then rest else []

  abbrev pub total_rows : List (ReplayEntry R) → ℕ
  total_rows [] = 0
  total_rows (e ∷ es) = e.row_count + total_rows es

  abbrev pub total_bytes : List (ReplayEntry R) → ℕ
  total_bytes [] = 0
  total_bytes (e ∷ es) = e.size_bytes + total_bytes es

  -- `acknowledge`. By `IsValid` (`Totals`) no counter falls below 0.
  pub acknowledge : DeliveryJournal R → ℕ → ℤ → Outcome (DeliveryJournal R)
  acknowledge j target forwarded = elim j.enabled [
    | false ↦ ok j
    | true ↦ do
      l ← lane_at j target
      if leb_ℤ forwarded l.forwarded
          then ok j
          else ok (record j {
            lanes =
                set j.lanes target
                  (record l { buffer = drop_covered forwarded l.buffer; forwarded = forwarded });
            buffered_records = j.buffered_records - total_rows (take_covered forwarded l.buffer);
            buffered_bytes = j.buffered_bytes - total_bytes (take_covered forwarded l.buffer);
          })
  ]

  -- `pending_for`
  pub pending_for : DeliveryJournal R → ℕ → Outcome (List (ℕ × List R))
  pending_for j target = do l ← lane_at j target; ok (map (λ e. (e.sequence, e.records)) l.buffer)

-- `num_rows` is what a record says of its rows (`none` for a row-shaped record) and `retained_size`
-- stands for `estimate_retained_size`.
module _ {R : Type 0} (num_rows : R → Option ℕ) (retained_size : List R → ℕ) where
  -- `sum(1 if record.num_rows is None else record.num_rows for record in retained_records)`
  pub row_count : List R → ℕ
  row_count [] = 0
  row_count (r ∷ rs) = (elim (num_rows r) [ none ↦ 1 | some n ↦ n ]) + row_count rs

  -- The entry that a landed batch becomes.
  abbrev pub replay_entry : ℕ → List R → ReplayEntry R
  replay_entry sequence records = record {
    sequence = sequence;
    records = records;
    row_count = row_count records;
    size_bytes = retained_size records;
  }

  -- `record_delivery`: a batch that would exceed the byte guard raises, and nothing is written.
  pub record_delivery : DeliveryJournal R → ℕ → List R → ℕ → Outcome (DeliveryJournal R)
  record_delivery j target records sequence = do
    l ← lane_at j target
    let entry = replay_entry sequence records
    let next_size = j.buffered_bytes + entry.size_bytes
    if j.enabled && ltb_ℤ l.forwarded (pos sequence)
        then (do
          raise_if (ltb 0 j.max_bytes && ltb j.max_bytes next_size) memory_error
          ok (record j {
            lanes =
                set j.lanes target
                  (record l { buffer = l.buffer ++ entry ∷ []; sequence = sequence });
            buffered_records = j.buffered_records + entry.row_count;
            buffered_bytes = next_size;
          }))
        else ok (record j { lanes = set j.lanes target (record l { sequence = sequence }) })

-- `delivery_channel`
pub delivery_channel : {R : Type 0} → DeliveryJournal R → ℕ → Option DeliveryChannel
delivery_channel j target = elim j.sender.vertex_id [
  | none ↦ none
  | some v ↦ elim j.sender.task_name [
    | none ↦ none
    | some t ↦ elim j.sender.edge_index [
      | none ↦ none
      | some e ↦ some (record {
        sender_vertex_id = v;
        sender_task_name = t;
        edge_index = e;
        target_index = target;
        topology_epoch = j.sender.topology_epoch;
      })
    ]
  ]
]
