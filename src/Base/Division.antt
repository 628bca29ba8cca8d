-- ===== src/Base/Division.antt =====
-- Division rounded down and up, by the products that pin the quotient.
use klein.Base.{ℕ, ◌+◌, ◌-◌, ◌*◌, ◌/◌, ◌≤◌, ◌<◌, ◌≡◌, ◌↔◌, arith}

-- `(a + p - 1) // p`
abbrev pub ceil_div : ℕ → ℕ → ℕ
ceil_div a p = (a + p - 1) / p

pub div_bounds : (a p : ℕ) → 0 < p → (a / p * p ≤ a) × (a < a / p * p + p)
div_bounds a p h = omega arith

pub mul-lt-cancel : (a b p : ℕ) → a * p < b * p → a < b
mul-lt-cancel a b p h = grind arith

pub mul-le-cancel : (a b p : ℕ) → 0 < p → a * p ≤ b * p → a ≤ b
mul-le-cancel a b p h k = grind arith

-- A number is at least the rounded-up quotient exactly when its product covers the dividend.
pub ceil_div-le_iff : (a p q : ℕ) → 0 < p → (ceil_div a p ≤ q) ↔ (a ≤ q * p)
ceil_div-le_iff a p q h = (to, from)
  where
    bounds : (ceil_div a p * p ≤ a + p - 1) × (a + p - 1 < ceil_div a p * p + p)
    bounds = div_bounds (a + p - 1) p h

    to : ceil_div a p ≤ q → a ≤ q * p
    to le = grind (arith, bounds)

    from : a ≤ q * p → ceil_div a p ≤ q
    from le =
        let below : ceil_div a p * p < (q + 1) * p = omega (arith, bounds) in
        omega (arith, mul-lt-cancel (ceil_div a p) (q + 1) p below)

-- A number is the rounded-down quotient exactly when the dividend lies in its block.
pub div-eq_iff : (a p q : ℕ) → 0 < p → (a / p ≡ q) ↔ ((q * p ≤ a) × (a < (q + 1) * p))
div-eq_iff a p q h = (to, from)
  where
    bounds : (a / p * p ≤ a) × (a < a / p * p + p)
    bounds = div_bounds a p h

    to : a / p ≡ q → (q * p ≤ a) × (a < (q + 1) * p)
    to e = rw (← e) (bounds.0, omega (arith, bounds))

    from : (q * p ≤ a) × (a < (q + 1) * p) → a / p ≡ q
    from (lo, hi) =
        let up : a / p * p < (q + 1) * p = omega (arith, bounds) in
        let down : q * p < (a / p + 1) * p = omega (arith, bounds) in
        omega (arith, mul-lt-cancel (a / p) (q + 1) p up, mul-lt-cancel q (a / p + 1) p down)
