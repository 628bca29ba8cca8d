-- ===== src/Checkpoints/BarrierIds.antt =====
-- src/ray/klein/runtime/coordinator/barrier_id_generator.py. The state is the counter itself.
use klein.Base.{ℕ, ◌+◌, ◌≤◌, ◌<◌, max, List, [], ◌∷◌, arith, if◌then◌else◌}
use klein.Base.Int.{ℤ, pos, pos_part, ltb_ℤ}

abbrev pub reseed_stride : ℕ
reseed_stride = 1000000

-- `reseed`
unfoldable pub reseed : ℕ → ℤ → ℕ
reseed current high_water =
    if ltb_ℤ (pos 0) high_water then max current (pos_part high_water + reseed_stride) else current

-- `__next__`: the id and the new state.
unfoldable pub next : ℕ → ℕ × ℕ
next current = (current + 1, current + 1)

-- What a coordinator does with its generator.
pub data Use : Type 0 where
  allocated : Use
  restored : ℤ → Use

-- The ids that a sequence of uses allocates.
unfoldable pub run : ℕ → List Use → List ℕ
run current [] = []
run current (allocated ∷ us) = let (barrier, current') = next current in barrier ∷ run current' us
run current (restored high_water ∷ us) = run (reseed current high_water) us

-- Each id is above `low` and above those before it.
abbrev pub RisesFrom : ℕ → List ℕ → Type 0
RisesFrom low [] = Unit
RisesFrom low (b ∷ bs) = (low < b) × RisesFrom b bs

RisesFrom-mono : (low low' : ℕ) (bs : List ℕ) → low ≤ low' → RisesFrom low' bs → RisesFrom low bs
RisesFrom-mono low low' [] h r = tt
RisesFrom-mono low low' (b ∷ bs) h (above, r) = (omega arith, r)

le-reseed : (current : ℕ) (high_water : ℤ) → current ≤ reseed current high_water
unfolding reseed
le-reseed current high_water = ground arith

run-RisesFrom : (us : List Use) (current : ℕ) → RisesFrom current (run current us)
unfolding run next
run-RisesFrom [] current = tt
run-RisesFrom (allocated ∷ us) current = (omega arith, run-RisesFrom us (current + 1))
run-RisesFrom (restored h ∷ us) current =
    RisesFrom-mono current (reseed current h) (run (reseed current h) us) (le-reseed current h)
      (run-RisesFrom us (reseed current h))

-- However a coordinator allocates and restores, its ids rise strictly: each is above the counter at
-- the start and above every id before it. Behind a restore with a positive high-water mark they are
-- more than `RESEED_STRIDE` above that mark.
pub run-reseed :
    (current : ℕ) (high_water : ℕ) (us : List Use)
    → RisesFrom current (run current us)
      × (0 < high_water
          → RisesFrom (high_water + reseed_stride) (run current (restored (pos high_water) ∷ us)))
unfolding run reseed
run-reseed current high_water us = (
  run-RisesFrom us current,
  λ positive.
      RisesFrom-mono (high_water + reseed_stride) (reseed current (pos high_water)) _ (ground arith)
        (run-RisesFrom us (reseed current (pos high_water))),
)
