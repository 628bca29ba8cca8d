-- ===== src/WeightedQueue/Tests.antt =====
-- A queue with a weight limit of 10 and a byte limit of 100, whose items are their own weights and
-- take three bytes for each unit of weight.
use klein.Base.{
  ℕ, ◌+◌, ◌*◌, ◌≤◌, ◌≡◌, ◌⊎◌, refl, none, some, List, [], ◌∷◌, ok, raise, value_error, ltb,
}
use klein.Base.Int.{ℤ, pos}
use klein.WeightedQueue.{
  Entry, Reservation, WeightedQueue, weighted_queue, measure, external_byte_size, can_admit, admit,
  put, put_control, get, get_matching, qsize, byte_size, envelope_count,
}
use klein.WeightedQueue.Order.{view, get_lem, Selects, get_matching-Selects}
use klein.WeightedQueue.Steps.{DataReach, here, next, putting, controlling}
use klein.WeightedQueue.Capacity.{weights, sizes, Reach-IsValid, DataReach-IsBounded}

abbrev own_weight : ℕ → ℤ
own_weight n = pos n

abbrev own_size : ℕ → ℤ
own_size n = pos (3 * n)

-- The consumer's state is the number of bytes that it has reserved.
abbrev reserve : Reservation ℕ ℕ
reserve = record { external_bytes = λ n. pos n; on_take = λ item size n. n + size }

-- A queue that holds `items`.
abbrev entries : List ℕ → List (Entry ℕ)
entries [] = []
entries (n ∷ ns) = record { item = n; weight = n; size_bytes = 3 * n } ∷ entries ns

abbrev queue_with : List ℕ → WeightedQueue ℕ ℕ
queue_with ns = record {
  max_weight = 10;
  weigh = own_weight;
  max_bytes = some 100;
  size_of = some own_size;
  items = entries ns;
  weight = weights (entries ns);
  bytes = sizes (entries ns);
  reservation = none;
  consumer = 0;
}

abbrev bound_with : List ℕ → WeightedQueue ℕ ℕ
bound_with ns = record (queue_with ns) { reservation = some reserve }

new_queue :
    weighted_queue (pos 10) own_weight (some (pos 100)) (some own_size) 0 ≡ ok (queue_with [])
unfolding weighted_queue
new_queue = refl

no_size :
    weighted_queue {T = ℕ} {X = ℕ} (pos 10) own_weight (some (pos 100)) none 0 ≡ raise value_error
unfolding weighted_queue
no_size = refl

first_put : put (queue_with []) 4 ≡ ok (some (queue_with (4 ∷ [])))
unfolding put measure can_admit admit
first_put = refl

full : put (queue_with (4 ∷ 5 ∷ [])) 3 ≡ ok none
unfolding put measure can_admit
full = refl

abbrev two_items : List ℕ
two_items = 4 ∷ 5 ∷ []

get_example :
    (two_items ≡ [] → get (queue_with two_items) ≡ none)
    × ((x : ℕ) (xs : List ℕ)
        → two_items ≡ x ∷ xs
        → (q' : WeightedQueue ℕ ℕ) × (get (queue_with two_items) ≡ some (x, q')) × (view q' ≡ xs))
get_example = get_lem (queue_with two_items)

get_matching-Selects_example :
    Selects (ltb 4) (4 ∷ 5 ∷ []) (get_matching (queue_with (4 ∷ 5 ∷ [])) (ltb 4))
get_matching-Selects_example = get_matching-Selects (queue_with (4 ∷ 5 ∷ [])) (ltb 4)

abbrev one_put : DataReach (queue_with []) (queue_with (4 ∷ []))
one_put = next here (putting 4 first_put)

control_put : put_control (queue_with []) 12 ≡ ok (queue_with (12 ∷ []))
unfolding put_control measure admit
control_put = refl

Reach-IsValid_example :
    (qsize (queue_with (12 ∷ [])) ≡ 12) × (byte_size (queue_with (12 ∷ [])) ≡ 36)
Reach-IsValid_example =
    Reach-IsValid (pos 10) own_weight (some (pos 100)) (some own_size) 0 (queue_with [])
      (queue_with (12 ∷ [])) new_queue (next here (controlling 12 control_put))

DataReach-IsBounded_example :
    (qsize (queue_with (4 ∷ [])) ≤ 10) ⊎ (envelope_count (queue_with (4 ∷ [])) ≤ 1)
DataReach-IsBounded_example =
    DataReach-IsBounded (pos 10) own_weight (some (pos 100)) (some own_size) 0 (queue_with [])
      (queue_with (4 ∷ [])) new_queue one_put

no_reservation : external_byte_size (queue_with (4 ∷ [])) ≡ ok 0
unfolding external_byte_size
no_reservation = refl

second_put : put (queue_with (4 ∷ [])) 5 ≡ ok (some (queue_with (4 ∷ 5 ∷ [])))
unfolding put measure can_admit admit
second_put = refl

empty_unreserved : external_byte_size (queue_with []) ≡ ok 0
unfolding external_byte_size
empty_unreserved = refl

measured : measure (queue_with []) 40 ≡ ok (40, 120)
unfolding measure
measured = refl
