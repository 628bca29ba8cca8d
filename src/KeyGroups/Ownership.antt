-- ===== src/KeyGroups/Ownership.antt =====
-- Ranges and owners of key groups agree: a subtask's range is the set of the key groups it owns.
use klein.Base.{ℕ, ◌+◌, ◌*◌, ◌/◌, ◌≤◌, ◌<◌, ◌≡◌, ◌↔◌, true, ok, raise, value_error, arith}
use klein.Base.Int.{ℤ, pos, ◌-ℤ◌, ◌≤ℤ◌, ◌<ℤ◌}
use klein.Base.Division.{ceil_div, ceil_div-le_iff, div-eq_iff, mul-lt-cancel}
use klein.KeyGroups.{KeyGroupRange, in_range, assign_key_group_range, key_group_owner}

module _ (m p : ℕ) (some_subtask : 1 ≤ p) (within : p ≤ m) where
  -- The range of a valid subtask.
  abbrev pub range_of : ℕ → KeyGroupRange
  range_of i = record {
    start = pos (ceil_div (i * m) p);
    stop = pos (ceil_div ((i + 1) * m) p) -ℤ pos 1;
  }

  -- `max_parallelism` is at least `parallelism`, so consecutive starts differ.
  pub start-lt-start : (i : ℕ) → ceil_div (i * m) p < ceil_div ((i + 1) * m) p
  start-lt-start i =
      let s = ceil_div (i * m) p in
      let t = ceil_div ((i + 1) * m) p in
      let covers : (i + 1) * m ≤ t * p =
        (ceil_div-le_iff ((i + 1) * m) p t some_subtask).0 (omega arith) in
      let tight : (s * p < i * m + p) = omega arith in mul-lt-cancel s t p (omega arith)

  -- For a valid subtask `assign_key_group_range` returns, and its range is not empty.
  pub assign_key_group_range_lem :
      (i : ℕ) → i < p → assign_key_group_range (pos m) (pos p) (pos i) ≡ ok (range_of i)
  unfolding assign_key_group_range
  assign_key_group_range_lem i h = ground (arith, start-lt-start i)

  pub key_group_owner_lem :
      (g : ℕ) → g < m → key_group_owner (pos g) (pos m) (pos p) ≡ ok (pos (g * p / m))
  unfolding key_group_owner
  key_group_owner_lem g h = ground arith

  pub in_range_iff :
      (i g : ℕ)
      → (in_range (range_of i) (pos g) ≡ true)
        ↔ ((ceil_div (i * m) p ≤ g) × (g < ceil_div ((i + 1) * m) p))
  unfolding in_range ◌-ℤ◌
  in_range_iff i g = ground (arith, start-lt-start i)

  pub owner_iff :
      (i g : ℕ) → (g * p / m ≡ i) ↔ ((ceil_div (i * m) p ≤ g) × (g < ceil_div ((i + 1) * m) p))
  owner_iff i g = grind (
    arith,
    div-eq_iff (g * p) m i (omega arith),
    ceil_div-le_iff (i * m) p g some_subtask,
    ceil_div-le_iff ((i + 1) * m) p g some_subtask,
  )

  owner-in_range_iff :
      (i g : ℕ)
      → g < m
      → (key_group_owner (pos g) (pos m) (pos p) ≡ ok (pos i))
        ↔ (in_range (range_of i) (pos g) ≡ true)
  owner-in_range_iff i g h = grind (arith, key_group_owner_lem g h, in_range_iff i g, owner_iff i g)

-- For valid parallelisms every subtask gets a range, and a key group of the job lies in it exactly
-- when `key_group_owner` gives that subtask.
pub assign_key_group_range-key_group_owner :
    (m p i : ℕ)
    → 1 ≤ p
    → p ≤ m
    → i < p
    → (r : KeyGroupRange) × (assign_key_group_range (pos m) (pos p) (pos i) ≡ ok r)
      × ((g : ℕ)
          → g < m
          → (key_group_owner (pos g) (pos m) (pos p) ≡ ok (pos i)) ↔ (in_range r (pos g) ≡ true))
assign_key_group_range-key_group_owner m p i hp hm hi = (
  range_of m p hp hm i,
  assign_key_group_range_lem m p hp hm i hi,
  owner-in_range_iff m p hp hm i,
)

-- Each call raises `ValueError` exactly when an argument is out of its range.
pub assign_key_group_range-eq-raise_iff :
    (m p i : ℤ)
    → (assign_key_group_range m p i ≡ raise value_error)
      ↔ ¬ ((pos 1 ≤ℤ p) × (p ≤ℤ m) × (pos 0 ≤ℤ i) × (i <ℤ p))
unfolding assign_key_group_range
assign_key_group_range-eq-raise_iff (pos m) (pos p) (pos i) = (
  λ e v. cc (e, assign_key_group_range_lem m p (omega arith) (omega arith) i (omega arith)),
  λ v. ground arith,
)
assign_key_group_range-eq-raise_iff m p i = (λ e v. ground arith, λ v. ground arith)
