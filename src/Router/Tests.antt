-- ===== src/Router/Tests.antt =====
-- Two targets of a router, and a batch of three rows.
use klein.Base.{
  zero, suc, arith, ℕ, ◌≡◌, refl, true, Option, some, List, [], ◌∷◌, ok, raise, value_error,
}
use klein.Base.Int.{ℤ, pos}
use klein.Router.{RecordRouter, new_router, route_row, route_columnar}
use klein.Router.Targets.{AreTargets, route_row-AreTargets}
use klein.Router.Rows.{reached}
use klein.Router.Columnar.{route_columnar-reached}

abbrev two_ways : ℕ → List ℤ
two_ways zero = pos 0 ∷ pos 1 ∷ []
two_ways (suc n) = pos (suc n) ∷ pos 0 ∷ []

abbrev two_targets : RecordRouter
two_targets = record {
  target_count = 2;
  control_target_indices = some (0 ∷ 1 ∷ []);
  retry_targets = two_ways;
  retry_rings = [];
}

abbrev after_both : RecordRouter
after_both = record two_targets { retry_rings = (0, 0 ∷ 1 ∷ []) ∷ (1, 1 ∷ 0 ∷ []) ∷ [] }

abbrev routes : List (ℤ × Option (List ℤ))
routes = (pos 0, some (pos 2 ∷ pos 0 ∷ [])) ∷ (pos 1, some (pos 1 ∷ [])) ∷ []

new_router_run : new_router 2 (pos 0 ∷ pos 1 ∷ []) two_ways ≡ ok two_targets
unfolding new_router
new_router_run = refl

route_row_run : (route_row (pos 1 ∷ pos 0 ∷ []) two_targets).0 ≡ 1 ∷ 0 ∷ []
unfolding route_row
route_row_run = refl

missing_row_run :
    (route_columnar 3 ((pos 0, some (pos 2 ∷ [])) ∷ []) two_targets)
    ≡ ((0, some (2 ∷ [])) ∷ [], raise value_error)
unfolding route_columnar
missing_row_run = refl

route_columnar-reached_example : reached 1 (route_columnar 3 routes two_targets).0 ≡ true
unfolding route_columnar
route_columnar-reached_example =
    route_columnar-reached 3 1 routes two_targets after_both refl (omega arith)

abbrev both : List ℤ
both = pos 0 ∷ pos 1 ∷ []

route_row-AreTargets_example :
    AreTargets two_targets both (route_row both two_targets).0 × ¬ (both ≡ [])
unfolding route_row
route_row-AreTargets_example = route_row-AreTargets both two_targets after_both refl
