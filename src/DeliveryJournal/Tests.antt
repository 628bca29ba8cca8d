-- ===== src/DeliveryJournal/Tests.antt =====
-- A journal of two targets whose records are numbers, one byte each.
use klein.Base.{
  ℕ, ◌+◌, ◌<◌, ◌≡◌, ◌↔◌, refl, true, Option, none, some, List, [], ◌∷◌, ok, raise, memory_error,
  arith, length,
}
use klein.Base.Int.{pos, negsuc, ◌<ℤ◌}
use klein.DeliveryJournal.{
  Lane, Sender, DeliveryJournal, ReplayEntry, delivery_journal, configure, next_sequence,
  acknowledge, pending_for, record_delivery, delivery_channel, row_count, lane_at, drop_covered,
  take_covered,
}
use klein.DeliveryJournal.Events.{Event, landed, forwarded, step, run}
use klein.DeliveryJournal.Replay.{pending_for-run}
use klein.DeliveryJournal.Totals.{
  IsValid, run-IsValid, record_delivery-eq-raise_iff, acknowledge-acknowledge,
}

abbrev number_rows : ℕ → Option ℕ
number_rows n = none

abbrev number_size : List ℕ → ℕ
number_size ns = length ns

abbrev this_sender : Sender
this_sender = record {
  vertex_id = some 3;
  task_name = some 4;
  edge_index = some 0;
  topology_epoch = none;
}

-- Lanes as the events leave them.
abbrev entry : ℕ → List ℕ → ReplayEntry ℕ
entry n rs = record { sequence = n; records = rs; row_count = length rs; size_bytes = length rs }

abbrev journal : List (Lane ℕ) → ℕ → DeliveryJournal ℕ
journal lanes n = record {
  enabled = true;
  sender = this_sender;
  lanes = lanes;
  buffered_bytes = n;
  buffered_records = n;
  max_bytes = 5;
}

abbrev fresh : Lane ℕ
fresh = record { sequence = 0; buffer = []; forwarded = negsuc 0 }

abbrev start : DeliveryJournal ℕ
start = journal (fresh ∷ fresh ∷ []) 0

configured : configure true this_sender (pos 5) (delivery_journal 2) ≡ ok start
unfolding configure delivery_journal
configured = refl

abbrev events : List (Event ℕ)
events = landed 1 (7 ∷ 8 ∷ []) ∷ landed 0 (9 ∷ []) ∷ landed 1 (5 ∷ []) ∷ forwarded 1 (pos 1) ∷ []

abbrev lane_zero : Lane ℕ
lane_zero = record { sequence = 1; buffer = entry 1 (9 ∷ []) ∷ []; forwarded = negsuc 0 }

abbrev lane_one : Lane ℕ
lane_one = record { sequence = 2; buffer = entry 2 (5 ∷ []) ∷ []; forwarded = pos 1 }

abbrev finish : DeliveryJournal ℕ
finish = journal (lane_zero ∷ lane_one ∷ []) 2

events-run : run number_rows number_size start events ≡ ok finish
unfolding run step next_sequence record_delivery acknowledge lane_at row_count drop_covered
    take_covered
events-run = refl

pending_for-run_example : pending_for finish 1 ≡ ok ((2, 5 ∷ []) ∷ [])
pending_for-run_example =
    pending_for-run number_rows number_size 2 this_sender (pos 5) events start finish 1 configured
      events-run (omega arith)

run-IsValid_example : IsValid finish
run-IsValid_example =
    run-IsValid number_rows number_size 2 true this_sender (pos 5) events start finish configured
      events-run

record_delivery-eq-raise_iff_example :
    (record_delivery number_rows number_size finish 1 (1 ∷ 2 ∷ 3 ∷ 4 ∷ []) 3 ≡ raise memory_error)
    ↔ ((true ≡ true) × (pos 1 <ℤ pos 3) × (0 < 5) × (5 < 2 + 4))
record_delivery-eq-raise_iff_example =
    record_delivery-eq-raise_iff number_rows number_size finish 1 3 (1 ∷ 2 ∷ 3 ∷ 4 ∷ []) lane_one
      refl

-- The last batch of target 1 is acknowledged as well.
abbrev emptied : Lane ℕ
emptied = record { sequence = 2; buffer = []; forwarded = pos 2 }

abbrev last_acknowledged : DeliveryJournal ℕ
last_acknowledged = journal (lane_zero ∷ emptied ∷ []) 1

last_acknowledgement : acknowledge finish 1 (pos 2) ≡ ok last_acknowledged
unfolding acknowledge lane_at drop_covered take_covered
last_acknowledgement = refl

acknowledge-acknowledge_example : acknowledge last_acknowledged 1 (pos 1) ≡ ok last_acknowledged
acknowledge-acknowledge_example =
    acknowledge-acknowledge finish last_acknowledged 1 (pos 2) (pos 1) last_acknowledgement
      (omega arith)

channel :
    delivery_channel finish 1
    ≡ some (record {
      sender_vertex_id = 3;
      sender_task_name = 4;
      edge_index = 0;
      target_index = 1;
      topology_epoch = none;
    })
unfolding delivery_channel
channel = refl
