-- ===== src/KeyGroups/Coverage.antt =====
-- The ranges of all subtasks together: they follow one another, cover every key group once and
-- have nearly equal sizes.
use klein.Base.{ℕ, ◌+◌, ◌-◌, ◌*◌, ◌/◌, ◌%◌, ◌≤◌, ◌<◌, ◌≡◌, ap, ◌∙◌, subst, Outcome, ok, arith}
use klein.Base.Int.{pos, ◌-ℤ◌, ◌+ℤ◌}
use klein.Base.Division.{ceil_div, ceil_div-le_iff, div_bounds, mul-lt-cancel, mul-le-cancel}
use klein.KeyGroups.{
  KeyGroupRange, assign_key_group_range, key_group_owner, key_group_for_key, range_len,
}
use klein.KeyGroups.Ownership.{
  range_of, start-lt-start, assign_key_group_range_lem, key_group_owner_lem,
}

ceil_div-zero : (m p : ℕ) → 1 ≤ p → ceil_div (0 * m) p ≡ 0
ceil_div-zero m p h = omega (arith, (ceil_div-le_iff (0 * m) p 0 h).1 (omega arith))

ceil_div_self : (m p : ℕ) → 1 ≤ p → ceil_div (p * m) p ≡ m
ceil_div_self m p h =
    let up : ceil_div (p * m) p ≤ m = (ceil_div-le_iff (p * m) p m h).1 (omega arith) in
    let t = ceil_div (p * m) p in
    let down : p * m ≤ t * p = (ceil_div-le_iff (p * m) p t h).0 (omega arith) in
    omega (arith, mul-le-cancel m t p h (omega arith), up)

stop-add-one :
    (a b p : ℕ)
    → ceil_div a p < ceil_div b p
    → pos (ceil_div b p) -ℤ pos 1 +ℤ pos 1 ≡ pos (ceil_div b p)
unfolding ◌-ℤ◌ ◌+ℤ◌
stop-add-one a b p h = ground arith

-- The quotients of two numbers that lie `m` apart.
ceil_div-sub :
    (a m p : ℕ)
    → 1 ≤ p
    → (ceil_div a p + m / p ≤ ceil_div (a + m) p) × (ceil_div (a + m) p ≤ ceil_div a p + m / p + 1)
ceil_div-sub a m p h =
    let s = ceil_div a p in
    let t = ceil_div (a + m) p in
    let q = m / p in
    let sb = div_bounds (a + p - 1) p h in
    let tb = div_bounds (a + m + p - 1) p h in
    let qb = div_bounds m p h in
    let lo : (s + q) * p < (t + 1) * p = omega (arith, sb, tb, qb) in
    let hi : t * p < (s + q + 2) * p = omega (arith, sb, tb, qb) in
    (
      omega (arith, mul-lt-cancel (s + q) (t + 1) p lo),
      omega (arith, mul-lt-cancel t (s + q + 2) p hi),
    )

owner-lt : (g m p : ℕ) → 1 ≤ p → g < m → g * p / m < p
owner-lt g m p hp h =
    let b = div_bounds (g * p) m (omega arith) in
    let product : g * p < m * p = grind arith in
    mul-lt-cancel (g * p / m) p m (omega (arith, b, product))

-- The first range starts at 0, the last one ends at the last key group, and each range starts right
-- behind the one before it.
pub assign_key_group_range_contiguous :
    (m p i : ℕ)
    → 1 ≤ p
    → p ≤ m
    → i < p
    → (r : KeyGroupRange) × (assign_key_group_range (pos m) (pos p) (pos i) ≡ ok r)
      × (i ≡ 0 → r.start ≡ pos 0)
      × (i + 1 ≡ p → r.stop +ℤ pos 1 ≡ pos m)
      × (i + 1 < p
          → (s : KeyGroupRange) × (assign_key_group_range (pos m) (pos p) (pos (i + 1)) ≡ ok s)
            × (r.stop +ℤ pos 1 ≡ s.start))
assign_key_group_range_contiguous m p i hp hm hi =
    let next : (range_of m p hp hm i).stop +ℤ pos 1 ≡ pos (ceil_div ((i + 1) * m) p) =
      stop-add-one (i * m) ((i + 1) * m) p (start-lt-start m p hp hm i) in
    (
      range_of m p hp hm i,
      assign_key_group_range_lem m p hp hm i hi,
      λ first. rw first (ap pos (ceil_div-zero m p hp)),
      λ last. next ∙ rw last (ap pos (ceil_div_self m p hp)),
      λ more. (range_of m p hp hm (i + 1), assign_key_group_range_lem m p hp hm (i + 1) more, next),
    )

range_len-pos :
    (s t : ℕ) → s < t → range_len (record { start = pos s; stop = pos t -ℤ pos 1 }) ≡ pos (t - s)
unfolding range_len
range_len-pos s t h = ground arith

-- A subtask owns `m // p` key groups or one more.
pub range_len-balanced :
    (m p i : ℕ)
    → 1 ≤ p
    → p ≤ m
    → i < p
    → (r : KeyGroupRange) × (n : ℕ) × (assign_key_group_range (pos m) (pos p) (pos i) ≡ ok r)
      × (range_len r ≡ pos n)
      × (m / p ≤ n)
      × (n ≤ m / p + 1)
range_len-balanced m p i hp hm hi =
    let s = ceil_div (i * m) p in
    let t = ceil_div ((i + 1) * m) p in
    let apart = start-lt-start m p hp hm i in
    let size = ceil_div-sub (i * m) m p hp in
    let next : i * m + m ≡ (i + 1) * m = omega arith in
    let sized =
      subst (λ b. (s + m / p ≤ ceil_div b p) × (ceil_div b p ≤ s + m / p + 1)) next size in
    (
      range_of m p hp hm i,
      t - s,
      assign_key_group_range_lem m p hp hm i hi,
      range_len-pos s t apart,
      omega (arith, sized),
      omega (arith, sized),
    )

-- For a key that can be encoded, its key group is below `max_parallelism` and some subtask owns it.
pub key_group_for_key-key_group_owner :
    {Key Bytes : Type 0} (encode : Key → Outcome Bytes) (digest : Bytes → ℕ) (key : Key)
    (bytes : Bytes) (m p : ℕ)
    → 1 ≤ p
    → p ≤ m
    → encode key ≡ ok bytes
    → (g i : ℕ) × (key_group_for_key encode digest key (pos m) ≡ ok (pos g))
      × (key_group_owner (pos g) (pos m) (pos p) ≡ ok (pos i))
      × (g < m)
      × (i < p)
unfolding key_group_for_key
key_group_for_key-key_group_owner encode digest key bytes m p hp hm e =
    let g = digest bytes % m in
    let below : g < m = omega arith in
    (
      g,
      g * p / m,
      rw e (ground arith),
      key_group_owner_lem m p hp hm g below,
      below,
      owner-lt g m p hp below,
    )
