-- ===== src/Partitioning/Topology.antt =====
-- The channels of a topology: every target has a source, and no index is out of range.
use klein.Base.{
  ℕ, zero, suc, ◌+◌, ◌-◌, ◌*◌, ◌/◌, ◌%◌, ◌<◌, ◌≡◌, refl, true, List, [], ◌∷◌, ok, arith, length,
  Bool-cases, inl, inr, leb, subst,
}
use klein.Base.Int.{pos}
use klein.Base.Division.{div-eq_iff, ceil_div, ceil_div-le_iff, div_bounds}
use klein.Base.Predicates.{All, contains}
use klein.Partitioning.{ChannelPattern, all_to_all, forward, rescale, range_from, target_indices}

contains-range_from :
    (i n start step : ℕ) → i < n → contains (start + i * step) (range_from n start step) ≡ true
contains-range_from i zero start step h = absurd (omega arith)
contains-range_from zero (suc n) start step h = ground arith
contains-range_from (suc i) (suc n) start step h =
    let shifted : start + step + i * step ≡ start + suc i * step = omega arith in
    let rest = contains-range_from i n (start + step) step (omega arith) in
    ground (arith, subst (λ k. contains k (range_from n (start + step) step) ≡ true) shifted rest)

range_from-All :
    (n start step t : ℕ) → start + n * step < t + step → All (λ k. k < t) (range_from n start step)
range_from-All zero start step t h = tt
range_from-All (suc n) start step t h =
    (omega arith, range_from-All n (start + step) step t (omega arith))

range_from-length : (n start step : ℕ) → 0 < n → 0 < length (range_from n start step)
range_from-length zero start step h = absurd (omega arith)
range_from-length (suc n) start step h = omega arith

-- The targets of a source are below `t`, and there is one.
abbrev pub AreTargets : ℕ → List ℕ → Type 0
AreTargets t ts = All (λ k. k < t) ts × (0 < length ts)

-- For positive parallelisms, which the forward pattern wants equal, every target below
-- `target_parallelism` is reached from some source below `source_parallelism`.
pub target_indices-covers :
    (pattern : ChannelPattern) (s t j : ℕ)
    → 0 < s
    → j < t
    → (pattern ≡ forward → s ≡ t)
    → (i : ℕ) × (ts : List ℕ) × (i < s)
      × (target_indices pattern (pos s) (pos t) (pos i) ≡ ok ts)
      × (contains j ts ≡ true)
unfolding target_indices
target_indices-covers all_to_all s t j hs hj same =
    let found = contains-range_from j t 0 1 hj in
    (
      0,
      range_from t 0 1,
      hs,
      ground arith,
      subst (λ k. contains k (range_from t 0 1) ≡ true) (omega arith) found,
    )
target_indices-covers forward s t j hs hj same =
    let eq = same refl in (j, j ∷ [], omega (arith, eq), ground (arith, eq), ground arith)
target_indices-covers rescale s t j hs hj same = elim (Bool-cases (leb t s)) [
  | inl fewer ↦
      let none_before : j / t ≡ 0 = (div-eq_iff j t 0 (omega arith)).1 (omega arith, omega arith) in
      let own : j % t ≡ j = grind (arith, none_before) in
      (j, j % t ∷ [], ground (arith, fewer), ground (arith, fewer), ground (arith, own))
  | inr more ↦
      let i = j % s in
      let q = j / s in
      let n = ceil_div (t - i) s in
      let split : j ≡ i + q * s = omega arith in
      let within : q < n = ground (arith, ceil_div-le_iff (t - i) s q hs, split) in
      let found = contains-range_from q n i s within in
      let below : i < s = omega arith in
      (
        i,
        range_from n i s,
        below,
        ground (arith, more, below),
        subst (λ k. contains k (range_from n i s) ≡ true) (omega (arith, split)) found,
      )
]

-- For positive parallelisms, which the forward pattern wants equal, every valid source has a target,
-- and all its targets are below `target_parallelism`.
pub target_indices-AreTargets :
    (pattern : ChannelPattern) (s t i : ℕ)
    → 0 < t
    → i < s
    → (pattern ≡ forward → s ≡ t)
    → (ts : List ℕ) × (target_indices pattern (pos s) (pos t) (pos i) ≡ ok ts) × AreTargets t ts
unfolding target_indices
target_indices-AreTargets all_to_all s t i ht hi same = (
  range_from t 0 1,
  ground arith,
  (range_from-All t 0 1 t (omega arith), range_from-length t 0 1 ht),
)
target_indices-AreTargets forward s t i ht hi same =
    let eq = same refl in (i ∷ [], ground (arith, eq), ((omega (arith, eq), tt), omega arith))
target_indices-AreTargets rescale s t i ht hi same = elim (Bool-cases (leb t s)) [
  | inl fewer ↦ (i % t ∷ [], ground (arith, fewer), ((omega arith, tt), omega arith))
  | inr more ↦
      let n = ceil_div (t - i) s in
      let bounds = div_bounds (t - i + s - 1) s (omega arith) in
      let small : i < t = ground (arith, more) in
      let some_target : 0 < n = ground (arith, ceil_div-le_iff (t - i) s 0 (omega arith), small) in
      (
        range_from n i s,
        ground (arith, more),
        (
          range_from-All n i s t (omega (arith, bounds, small)),
          range_from-length n i s some_target,
        ),
      )
]
