-- ===== src/Router/Columnar.antt =====
-- A columnar batch that is routed without an error reaches a target with each of its rows.
use klein.Base.{
  outcome-elim, ◌>>◌, ℕ, zero, suc, ◌<◌, ◌≡◌, refl, subst, Bool, true, false, not, ◌&&◌, ◌||◌,
  Option, none, some, List, [], ◌∷◌, length, Outcome, ok, raise, value_error, raise_if,
  raise_if-eq-ok, ltb, ◌==◌, if◌then◌else◌, arith, ==_iff,
}
use klein.Base.Int.{ℤ}
use klein.Base.Predicates.{contains, Distinct}
use klein.Base.Counting.{Below, contains-Below}
use klein.Router.{
  RecordRouter, Slice, covered_by, is_whole, validate_route, route_slices, route_columnar,
}
use klein.Router.Rows.{
  InRange, reached, validate_route-InRange, contains-cover, cover-Distinct, cover-Below,
}

-- Some slice takes the row, or one before did.
abbrev served : ℕ → List Slice → List ℕ → Bool → Bool
served k slices covered whole = whole || (contains k covered || reached k slices)

covered_by-Distinct :
    (rows : Option (List ℕ)) (covered : List ℕ)
    → Distinct covered
    → Distinct (covered_by rows covered)
covered_by-Distinct none covered d = d
covered_by-Distinct (some rows) covered d = cover-Distinct rows covered d

covered_by-Below :
    (n : ℕ) (rows : Option (List ℕ)) (covered : List ℕ)
    → InRange n rows
    → Below n covered
    → Below n (covered_by rows covered)
covered_by-Below n none covered inside b = b
covered_by-Below n (some rows) covered inside b = cover-Below n rows covered inside b

-- What a slice adds to the rows that are served is the rows that it takes.
served-covered_by :
    (k target : ℕ) (rows : Option (List ℕ)) (slices : List Slice) (covered : List ℕ) (whole : Bool)
    → served k slices (covered_by rows covered) (is_whole rows || whole) ≡ true
    → served k ((target, rows) ∷ slices) covered whole ≡ true
served-covered_by k target none slices covered whole h = ground (arith, h)
served-covered_by k target (some rows) slices covered whole h =
    ground (arith, h, contains-cover k rows covered)

guarded-raise_if {ℓ} :
    {B : Type ℓ} (test : Bool) (value : B) {result : B}
    → (if test then raise value_error else ok value) ≡ ok result
    → (raise_if test value_error >> ok value) ≡ ok result
guarded-raise_if true value h = absurd (cc)
guarded-raise_if false value h = h

all_covered :
    (n k : ℕ) (r r' : RecordRouter) (covered : List ℕ) (whole : Bool)
    → Distinct covered
    → Below n covered
    → k < n
    → (if not whole && not (length covered == n) then raise value_error else ok r) ≡ ok r'
    → served k [] covered whole ≡ true
all_covered n k r r' covered true d b low h = refl
all_covered n k r r' covered false d b low h =
    let (full, last) =
      raise_if-eq-ok (not (length covered == n)) value_error (ok r) (guarded-raise_if _ _ h) in
    let same : (length covered == n) ≡ true = ground arith in
    rw (contains-Below n k covered d b ((==_iff (length covered) n).0 same) low) refl

-- What the loop gives once a route is checked.
abbrev after_check :
    ℕ
    → List (ℤ × Option (List ℤ))
    → List ℕ
    → List ℕ
    → Bool
    → Outcome (Slice × RecordRouter)
    → List Slice × Outcome RecordRouter
after_check n routes seen covered whole (raise fault) = ([], raise fault)
after_check n routes seen covered whole (ok (slice, r)) =
    let rest =
      route_slices n routes (slice.0 ∷ seen) (covered_by slice.1 covered)
        (is_whole slice.1 || whole) r in
    (slice ∷ rest.0, rest.1)

route_slices-after_check :
    (n : ℕ) (route : ℤ × Option (List ℤ)) (routes : List (ℤ × Option (List ℤ)))
    (seen covered : List ℕ) (whole : Bool) (r : RecordRouter)
    → after_check n routes seen covered whole (validate_route n seen r route)
      ≡ route_slices n (route ∷ routes) seen covered whole r
unfolding route_slices
route_slices-after_check n route routes seen covered whole r =
    elim (validate_route n seen r route)
      as (λ o.
        after_check n routes seen covered whole o
        ≡ elim o as (λ _. List Slice × Outcome RecordRouter) [
          | raise fault ↦ ([], raise fault)
          | ok (slice, r') ↦
              let rest =
                route_slices n routes (slice.0 ∷ seen) (covered_by slice.1 covered)
                  (is_whole slice.1 || whole) r' in
              (slice ∷ rest.0, rest.1)
        ]) [ raise fault ↦ refl | ok (slice, r') ↦ refl ]

-- A routed batch has its rows served.
abbrev Served : ℕ → ℕ → List ℕ → Bool → List Slice × Outcome RecordRouter → Type 0
Served n k covered whole routed =
    (r' : RecordRouter) → routed.1 ≡ ok r' → served k routed.0 covered whole ≡ true

route_slices-Served :
    (n k : ℕ) (routes : List (ℤ × Option (List ℤ))) (seen covered : List ℕ) (whole : Bool)
    (r : RecordRouter)
    → Distinct covered
    → Below n covered
    → k < n
    → Served n k covered whole (route_slices n routes seen covered whole r)
unfolding route_slices
route_slices-Served n k [] seen covered whole r d b low =
    λ r' h. all_covered n k r r' covered whole d b low h
route_slices-Served n k (route ∷ routes) seen covered whole r d b low =
    subst (Served n k covered whole) (route_slices-after_check n route routes seen covered whole r)
      (outcome-elim (λ o. Served n k covered whole (after_check n routes seen covered whole o))
        (validate_route n seen r route)
        (λ (a : Slice × RecordRouter) valid.
          let (slice, r1) = a in
          let (inside, new) = validate_route-InRange n seen r r1 route slice valid in
          λ r' h.
            served-covered_by k slice.0 slice.1
              (route_slices n routes (slice.0 ∷ seen) (covered_by slice.1 covered)
                (is_whole slice.1 || whole) r1).0
              covered whole
              (route_slices-Served n k routes (slice.0 ∷ seen) (covered_by slice.1 covered)
                (is_whole slice.1 || whole) r1 (covered_by-Distinct slice.1 covered d)
                (covered_by-Below n slice.1 covered inside b) low r' h))
        (λ fault r' h. absurd (cc)))

-- A batch that is routed without an error has each of its rows in a slice that is sent, or goes
-- whole to a target.
pub route_columnar-reached :
    (n k : ℕ) (routes : List (ℤ × Option (List ℤ))) (r r' : RecordRouter)
    → (route_columnar n routes r).1 ≡ ok r'
    → k < n
    → reached k (route_columnar n routes r).0 ≡ true
unfolding route_columnar
route_columnar-reached zero k [] r r' h low = absurd (omega arith)
route_columnar-reached (suc n) k [] r r' h low =
    let some_rows : ltb 0 (suc n) ≡ true = ground arith in
    let failed : raise value_error ≡ ok r' =
      subst
        (λ test.
          (if test then ([], raise value_error) else route_slices (suc n) [] [] [] false r).1
          ≡ ok r')
        some_rows h in
    absurd (cc)
route_columnar-reached n k (route ∷ routes) r r' h low =
    route_slices-Served n k (route ∷ routes) [] [] false r tt tt low r' h
