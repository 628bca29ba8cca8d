-- ===== src/WeightedQueue.antt =====
-- src/ray/klein/runtime/worker/weighted_queue.py: the FIFO of a task's inbox, whose capacity is
-- measured by the weight and the bytes of its items. Every method runs under the condition's lock,
-- so a call is one step; a caller that has to wait is the answer `none`, and calls again after a
-- notification. `X` is the consumer's state, which the two bound callbacks read and change.
pub mod Steps
pub mod Admission
pub mod Capacity
pub mod Order
mod Tests
use klein.Base.{
  ℕ, zero, suc, ◌+◌, ◌-◌, Bool, true, false, ◌&&◌, Option, none, some, List, [], ◌∷◌, ◌++◌, Outcome,
  ok, raise, value_error, runtime_error, raise_if, ◌>>=◌, ◌>>◌, ltb, leb, ◌==◌, if◌then◌else◌,
  length,
}
use klein.Base.Int.{ℤ, pos, negsuc, pos_part, ltb_ℤ, leb_ℤ}

-- `deque[tuple[T, int, int]]`
pub record Entry (T : Type 0) : Type 0 where
  pub item : T
  pub weight : ℕ
  pub size_bytes : ℕ

-- The callbacks that `bind_external_byte_reservation` stores.
pub record Reservation (T X : Type 0) : Type 0 where
  pub external_bytes : X → ℤ
  pub on_take : T → ℕ → X → X

pub record WeightedQueue (T X : Type 0) : Type 0 where
  pub max_weight : ℕ
  pub weigh : T → ℤ
  pub max_bytes : Option ℕ
  pub size_of : Option (T → ℤ)
  pub items : List (Entry T)
  pub weight : ℕ
  pub bytes : ℕ
  pub reservation : Option (Reservation T X)
  pub consumer : X

-- `items[i]` is there, and the rest of the deque is what `del items[i]` leaves.
pub take_at {ℓ} : {A : Type ℓ} → List A → ℕ → Option (A × List A)
take_at [] i = none
take_at (x ∷ xs) zero = some (x, xs)
take_at (x ∷ xs) (suc i) = elim (take_at xs i) [ none ↦ none | some (y, ys) ↦ some (y, x ∷ ys) ]

-- `next((index for index, ... in enumerate(items) if predicate(item)), None)`
pub first_index : {T : Type 0} → (T → Bool) → List (Entry T) → Option ℕ
first_index p [] = none
first_index p (e ∷ es) =
    let rest = first_index p es in
    if p e.item then some 0 else elim rest [ none ↦ none | some i ↦ some (suc i) ]

-- `__init__`, on a weight limit and a byte limit that may be any integers.
check_limits : ℤ → Option ℤ → Bool → Outcome (Unit {0})
check_limits max_weight none sized = do
  raise_if (leb_ℤ max_weight (pos 0)) value_error
  raise_if sized value_error
check_limits max_weight (some max_bytes) sized = do
  raise_if (leb_ℤ max_weight (pos 0)) value_error
  raise_if (leb_ℤ max_bytes (pos 0)) value_error
  raise_if (if sized then false else true) value_error

as_weight : ℤ → Outcome ℕ
as_weight w = do raise_if (leb_ℤ w (pos 0)) value_error; ok (pos_part w)

as_size : Option ℤ → Outcome ℕ
as_size none = ok 0
as_size (some s) = do raise_if (ltb_ℤ s (pos 0)) value_error; ok (pos_part s)

module _ {T X : Type 0} where
  pub weighted_queue : ℤ → (T → ℤ) → Option ℤ → Option (T → ℤ) → X → Outcome (WeightedQueue T X)
  unfolding check_limits
  weighted_queue max_weight weigh max_bytes size_of x = do
    check_limits max_weight max_bytes (elim size_of [ none ↦ false | some f ↦ true ])
    ok (record {
      max_weight = pos_part max_weight;
      weigh = weigh;
      max_bytes = elim max_bytes [ none ↦ none | some b ↦ some (pos_part b) ];
      size_of = size_of;
      items = [];
      weight = 0;
      bytes = 0;
      reservation = none;
      consumer = x;
    })

  -- `bind_external_byte_reservation`; a queue without a byte limit ignores the call.
  pub bind : Reservation T X → WeightedQueue T X → Outcome (WeightedQueue T X)
  bind r q = elim q.max_bytes [
    | none ↦ ok q
    | some b ↦ elim q.reservation [
      | none ↦ ok (record q { reservation = some r })
      | some r' ↦ raise runtime_error
    ]
  ]

  -- `_measure`
  pub measure : WeightedQueue T X → T → Outcome (ℕ × ℕ)
  unfolding as_weight as_size
  measure q item = do
    w ← as_weight (q.weigh item)
    s ← as_size (elim q.size_of [ none ↦ none | some f ↦ some (f item) ])
    ok (w, s)

  -- `_external_byte_size`
  pub external_byte_size : WeightedQueue T X → Outcome ℕ
  external_byte_size q = elim q.reservation [
    | none ↦ ok 0
    | some r ↦ elim (r.external_bytes q.consumer) [ pos n ↦ ok n | negsuc n ↦ raise runtime_error ]
  ]

  -- The answer of `_can_admit` once the external bytes are known.
  fits : WeightedQueue T X → ℕ → ℕ → ℕ → Bool
  fits q external w s =
      if (length q.items == 0) && (external == 0)
      then true
      else if ltb q.max_weight (q.weight + w)
      then false
      else elim q.max_bytes [ none ↦ true | some b ↦ leb (q.bytes + external + s) b ]

  -- `_can_admit`
  pub can_admit : WeightedQueue T X → ℕ → ℕ → Outcome Bool
  unfolding fits external_byte_size
  can_admit q w s = do external ← external_byte_size q; ok (fits q external w s)

  -- `_admit`
  pub admit : WeightedQueue T X → T → ℕ → ℕ → WeightedQueue T X
  admit q item w s = record q {
    items = q.items ++ record { item = item; weight = w; size_bytes = s } ∷ [];
    weight = q.weight + w;
    bytes = q.bytes + s;
  }

  -- What `_take` leaves, once it has read the entry. By `IsValid` (`Capacity`) no counter falls below
  -- 0.
  pub without_entry : WeightedQueue T X → Entry T → List (Entry T) → WeightedQueue T X
  without_entry q e rest = record q {
    items = rest;
    weight = q.weight - e.weight;
    bytes = q.bytes - e.size_bytes;
    consumer = elim q.reservation [
      | none ↦ q.consumer
      | some r ↦ r.on_take e.item e.size_bytes q.consumer
    ];
  }

  -- `_take`
  pub take_item : WeightedQueue T X → ℕ → Option (T × WeightedQueue T X)
  take_item q i = elim (take_at q.items i) [
    | none ↦ none
    | some (e, rest) ↦ some (e.item, without_entry q e rest)
  ]

  -- One round of `put`: `none` while the caller has to wait.
  pub put : WeightedQueue T X → T → Outcome (Option (WeightedQueue T X))
  put q item = do
    m ← measure q item
    room ← can_admit q m.0 m.1
    ok (if room then some (admit q item m.0 m.1) else none)

  pub try_put : WeightedQueue T X → T → Outcome (Bool × WeightedQueue T X)
  try_put q item = do
    m ← measure q item
    room ← can_admit q m.0 m.1
    ok (if room then (true, admit q item m.0 m.1) else (false, q))

  pub put_control : WeightedQueue T X → T → Outcome (WeightedQueue T X)
  put_control q item = do m ← measure q item; ok (admit q item m.0 m.1)

  -- One round of `get`: `none` while the queue is empty.
  pub get : WeightedQueue T X → Option (T × WeightedQueue T X)
  get q = take_item q 0

  -- One round of `get_matching`: `none` while no item is eligible.
  pub get_matching : WeightedQueue T X → (T → Bool) → Option (T × WeightedQueue T X)
  get_matching q p = elim (first_index p q.items) [ none ↦ none | some i ↦ take_item q i ]

  pub qsize : WeightedQueue T X → ℕ
  qsize q = q.weight

  pub byte_size : WeightedQueue T X → ℕ
  byte_size q = q.bytes

  pub retained_byte_size : WeightedQueue T X → Outcome ℕ
  unfolding external_byte_size
  retained_byte_size q = do external ← external_byte_size q; ok (q.bytes + external)

  pub envelope_count : WeightedQueue T X → ℕ
  envelope_count q = length q.items
