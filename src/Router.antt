-- ===== src/Router.antt =====
-- src/ray/klein/runtime/collector/record_router.py: the routes of a partitioner are checked before
-- records are sent along them. The rows of a slice stand for the slice.
mod Targets
mod Rows
mod Columnar
mod Tests
use klein.Base.{
  ℕ, Bool, true, false, not, ◌&&◌, ◌||◌, Option, none, some, List, [], ◌∷◌, length, Outcome, ok,
  raise, value_error, raise_if, ◌>>=◌, ◌>>◌, leb, ltb, ◌==◌, if◌then◌else◌,
}
use klein.Base.Int.{ℤ, pos, negsuc}
use klein.Base.Dict.{Dict, insert, lookup}
use klein.Base.Predicates.{contains}

-- `retry_targets` is the partitioner's. The control topology is none while it is validated.
pub record RecordRouter : Type 0 where
  pub target_count : ℕ
  pub control_target_indices : Option (List ℕ)
  pub retry_targets : ℕ → List ℤ
  pub retry_rings : Dict (List ℕ)

-- `hasattr(self, "_allowed_targets") and target not in self._allowed_targets`
abbrev pub is_outside : ℕ → Option (List ℕ) → Bool
is_outside target none = false
is_outside target (some allowed) = not (contains target allowed)

-- `_validate_target`
pub validate_target : RecordRouter → ℤ → Outcome ℕ
validate_target r (negsuc n) = raise value_error
validate_target r (pos target) = do
  raise_if (leb r.target_count target) value_error
  raise_if (is_outside target r.control_target_indices) value_error
  ok target

-- The loop of `_validate_targets`, behind the targets that it has seen.
pub validate_targets : RecordRouter → List ℕ → List ℤ → Outcome (List ℕ)
unfolding validate_target
validate_targets r seen [] = ok []
validate_targets r seen (raw ∷ targets) = do
  target ← validate_target r raw
  raise_if (contains target seen) value_error
  rest ← validate_targets r (target ∷ seen) targets
  ok (target ∷ rest)

-- The constructor.
pub new_router : ℕ → List ℤ → (ℕ → List ℤ) → Outcome RecordRouter
unfolding validate_targets
new_router target_count control_target_indices retry_targets = do
  raise_if (target_count == 0) value_error
  targets ←
      validate_targets
        (record {
          target_count = target_count;
          control_target_indices = none;
          retry_targets = retry_targets;
          retry_rings = [];
        })
        [] control_target_indices
  raise_if (length targets == 0) value_error
  ok (record {
    target_count = target_count;
    control_target_indices = some targets;
    retry_targets = retry_targets;
    retry_rings = [];
  })

-- `ring and ring[0] == initial_target`
abbrev pub starts_at : ℕ → List ℕ → Bool
starts_at initial [] = false
starts_at initial (target ∷ ring) = target == initial

-- `retry_ring`
pub retry_ring : ℕ → RecordRouter → Outcome (List ℕ × RecordRouter)
unfolding validate_targets
retry_ring initial r = elim (lookup initial r.retry_rings) [
  | some cached ↦ ok (cached, r)
  | none ↦ do
    ring ← validate_targets r [] (r.retry_targets initial)
    raise_if (not (starts_at initial ring)) value_error
    ok (ring, record r { retry_rings = insert initial ring r.retry_rings })
]

-- The loop of `_route_row`: the targets that it yields, and how it ends.
pub yield_targets : List ℕ → RecordRouter → List ℕ × Outcome RecordRouter
unfolding retry_ring
yield_targets [] r = ([], ok r)
yield_targets (target ∷ targets) r = elim (retry_ring target r) [
  | raise fault ↦ ([], raise fault)
  | ok (ring, r') ↦ let rest = yield_targets targets r' in (target ∷ rest.0, rest.1)
]

-- `_route_row`, of the targets that the partitioner gives
pub route_row : List ℤ → RecordRouter → List ℕ × Outcome RecordRouter
unfolding yield_targets validate_targets
route_row partitioned r = elim (validate_targets r [] partitioned) [
  | raise fault ↦ ([], raise fault)
  | ok [] ↦ ([], raise value_error)
  | ok (target ∷ targets) ↦ yield_targets (target ∷ targets) r
]

-- The loop of `_validate_row_indices`
pub validate_rows : ℕ → List ℕ → List ℤ → Outcome (List ℕ)
validate_rows num_rows seen [] = ok []
validate_rows num_rows seen (negsuc n ∷ indices) = raise value_error
validate_rows num_rows seen (pos index ∷ indices) = do
  raise_if (leb num_rows index) value_error
  raise_if (contains index seen) value_error
  rest ← validate_rows num_rows (index ∷ seen) indices
  ok (index ∷ rest)

pub validate_row_indices : ℕ → List ℤ → Outcome (List ℕ)
unfolding validate_rows
validate_row_indices num_rows [] = raise value_error
validate_row_indices num_rows (index ∷ indices) = validate_rows num_rows [] (index ∷ indices)

-- `set.update`
abbrev pub cover : List ℕ → List ℕ → List ℕ
cover [] covered = covered
cover (index ∷ indices) covered =
    let rest = cover indices covered in if contains index rest then rest else index ∷ rest

-- A target with the rows that it gets; none is the whole block.
abbrev pub Slice : Type 0
Slice = ℕ × Option (List ℕ)

abbrev pub covered_by : Option (List ℕ) → List ℕ → List ℕ
covered_by none covered = covered
covered_by (some rows) covered = cover rows covered

abbrev pub is_whole : Option (List ℕ) → Bool
is_whole none = true
is_whole (some rows) = false

pub validate_slice : ℕ → Option (List ℤ) → Outcome (Option (List ℕ))
unfolding validate_row_indices
validate_slice num_rows none = ok none
validate_slice num_rows (some indices) = do
  rows ← validate_row_indices num_rows indices
  ok (some rows)

-- The checks of one route, with the slice that it gives.
pub validate_route :
    ℕ → List ℕ → RecordRouter → ℤ × Option (List ℤ) → Outcome (Slice × RecordRouter)
unfolding validate_target retry_ring validate_slice
validate_route num_rows seen r route = do
  target ← validate_target r route.0
  raise_if (contains target seen) value_error
  ring ← retry_ring target r
  rows ← validate_slice num_rows route.1
  ok ((target, rows), ring.1)

-- The loop of `_route_columnar` with the check behind it: what it yields, and how it ends.
pub route_slices :
    ℕ
    → List (ℤ × Option (List ℤ))
    → List ℕ
    → List ℕ
    → Bool
    → RecordRouter
    → List Slice × Outcome RecordRouter
unfolding validate_route
route_slices num_rows [] seen covered whole r =
    ([], if not whole && not (length covered == num_rows) then raise value_error else ok r)
route_slices num_rows (route ∷ routes) seen covered whole r =
    elim (validate_route num_rows seen r route) [
      | raise fault ↦ ([], raise fault)
      | ok (slice, r') ↦
          let rest =
            route_slices num_rows routes (slice.0 ∷ seen) (covered_by slice.1 covered)
              (is_whole slice.1 || whole) r' in
          (slice ∷ rest.0, rest.1)
    ]

-- `_route_columnar`
pub route_columnar :
    ℕ → List (ℤ × Option (List ℤ)) → RecordRouter → List Slice × Outcome RecordRouter
unfolding route_slices
route_columnar num_rows routes r = elim routes [
  | [] ↦ if ltb 0 num_rows then ([], raise value_error) else route_slices num_rows [] [] [] false r
  | route ∷ rest ↦ route_slices num_rows (route ∷ rest) [] [] false r
]
