-- ===== src/Router/Targets.antt =====
-- The targets that a row is sent to, and those of a retry ring.
use klein.Base.{
  ap, outcome-elim, map, ℕ, ◌<◌, ◌≡◌, refl, sym, subst, false, List, [], ◌∷◌, Outcome, ok, raise,
  value_error, raise_if-eq-ok, >>=-eq-ok, leb, arith,
}
use klein.Base.Int.{ℤ, pos, negsuc}
use klein.Base.Predicates.{contains, Distinct, All}
use klein.Router.{
  RecordRouter, is_outside, validate_target, validate_targets, yield_targets, route_row, retry_ring,
}

-- The target is one of the edge, and one of its control topology.
pub IsTarget : RecordRouter → ℕ → Type 0
IsTarget r target = (target < r.target_count) × (is_outside target r.control_target_indices ≡ false)

validate_target-IsTarget :
    (r : RecordRouter) (raw : ℤ) (target : ℕ)
    → validate_target r raw ≡ ok target
    → (raw ≡ pos target) × IsTarget r target
unfolding validate_target IsTarget
validate_target-IsTarget r (negsuc n) target h = absurd (cc)
validate_target-IsTarget r (pos n) target h =
    let (low, h1) = raise_if-eq-ok (leb r.target_count n) value_error _ h in
    let (within, last) = raise_if-eq-ok (is_outside n r.control_target_indices) value_error _ h1 in
    let same : n ≡ target = cc in
    subst
      (λ t.
        (pos n ≡ pos t) × ((t < r.target_count) × (is_outside t r.control_target_indices ≡ false)))
      same (refl, (ground arith, within))

abbrev Fresh : List ℕ → List ℕ → Type 0
Fresh seen = All (λ target. contains target seen ≡ false)

-- What is fresh behind a target differs from it.
Fresh-behind :
    (target : ℕ) (seen targets : List ℕ)
    → Fresh (target ∷ seen) targets
    → (contains target targets ≡ false) × Fresh seen targets
Fresh-behind target seen [] h = (refl, tt)
Fresh-behind target seen (other ∷ targets) (new, h) =
    let (absent, fresh) = Fresh-behind target seen targets h in
    (ground (arith, new, absent), (ground (arith, new), fresh))

-- The targets are those that were named, each one once, and all of them may be sent to.
abbrev pub AreTargets : RecordRouter → List ℤ → List ℕ → Type 0
AreTargets r raw targets = (raw ≡ map pos targets) × (Distinct targets × All (IsTarget r) targets)

validate_targets-Fresh :
    (r : RecordRouter) (seen : List ℕ) (raw : List ℤ) (targets : List ℕ)
    → validate_targets r seen raw ≡ ok targets
    → AreTargets r raw targets × Fresh seen targets
unfolding validate_targets
validate_targets-Fresh r seen [] targets h =
    let same : [] ≡ targets = cc in
    subst (λ targets. AreTargets r [] targets × Fresh seen targets) same ((refl, (tt, tt)), tt)
validate_targets-Fresh r seen (z ∷ raw) targets h =
    let (target, valid, h1) = >>=-eq-ok (validate_target r z) _ h in
    let (new, h2) = raise_if-eq-ok (contains target seen) value_error _ h1 in
    let (rest, checked, last) = >>=-eq-ok (validate_targets r (target ∷ seen) raw) _ h2 in
    let (named, is_target) = validate_target-IsTarget r z target valid in
    let ((same_rest, (distinct, all_targets)), fresh) =
      validate_targets-Fresh r (target ∷ seen) raw rest checked in
    let (absent, fresh_behind) = Fresh-behind target seen rest fresh in
    let same : target ∷ rest ≡ targets = cc in
    let whole : z ∷ raw ≡ pos target ∷ map pos rest = cc in
    subst (λ targets. AreTargets r (z ∷ raw) targets × Fresh seen targets) same
      ((whole, ((absent, distinct), (is_target, all_targets))), (new, fresh_behind))

-- What the loop yields once the ring of a target is there.
abbrev after_ring : ℕ → List ℕ → Outcome (List ℕ × RecordRouter) → List ℕ × Outcome RecordRouter
after_ring target targets ring = elim ring [
  | raise fault ↦ ([], raise fault)
  | ok (ring, r') ↦ let rest = yield_targets targets r' in (target ∷ rest.0, rest.1)
]

yield_targets-all :
    (targets : List ℕ) (r r' : RecordRouter)
    → (yield_targets targets r).1 ≡ ok r'
    → (yield_targets targets r).0 ≡ targets
unfolding yield_targets
yield_targets-all [] r r' = λ h. refl
yield_targets-all (target ∷ targets) r r' =
    outcome-elim
      (λ o.
        (after_ring target targets o).1 ≡ ok r'
        → (after_ring target targets o).0 ≡ target ∷ targets)
      (retry_ring target r)
      (λ (a : List ℕ × RecordRouter) known h.
        ap (λ ts. target ∷ ts) (yield_targets-all targets a.1 r' h))
      (λ fault h. absurd (cc))

abbrev after_validation : RecordRouter → Outcome (List ℕ) → List ℕ × Outcome RecordRouter
after_validation r validated = elim validated [
  | raise fault ↦ ([], raise fault)
  | ok [] ↦ ([], raise value_error)
  | ok (target ∷ targets) ↦ yield_targets (target ∷ targets) r
]

sent :
    (partitioned : List ℤ) (targets : List ℕ) (r r' : RecordRouter)
    → AreTargets r partitioned targets
    → (after_validation r (ok targets)).1 ≡ ok r'
    → AreTargets r partitioned (after_validation r (ok targets)).0 × ¬ (partitioned ≡ [])
sent partitioned [] r r' named h = absurd (cc)
sent partitioned (target ∷ targets) r r' named h = (
  subst (AreTargets r partitioned) (sym (yield_targets-all (target ∷ targets) r r' h)) named,
  λ gone. let same = named.0 in cc,
)

-- A row that is routed without an error is sent to exactly the targets that the partitioner named,
-- at least one, each one once, and all of them targets of the edge's control topology.
pub route_row-AreTargets :
    (partitioned : List ℤ) (r r' : RecordRouter)
    → (route_row partitioned r).1 ≡ ok r'
    → AreTargets r partitioned (route_row partitioned r).0 × ¬ (partitioned ≡ [])
unfolding route_row
route_row-AreTargets partitioned r r' =
    outcome-elim
      (λ o.
        (after_validation r o).1 ≡ ok r'
        → AreTargets r partitioned (after_validation r o).0 × ¬ (partitioned ≡ []))
      (validate_targets r [] partitioned)
      (λ targets checked h.
        sent partitioned targets r r' (validate_targets-Fresh r [] partitioned targets checked).0 h)
      (λ fault h. absurd (cc))
