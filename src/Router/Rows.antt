-- ===== src/Router/Rows.antt =====
-- The rows of the batch that the slices of its routes take.
use klein.Base.{
  ℕ, ◌<◌, ◌≡◌, inl, inr, refl, ◌∙◌, ap, subst, Bool, true, false, ◌||◌, Option, none, some, List,
  [], ◌∷◌, ok, value_error, raise_if-eq-ok, >>=-eq-ok, leb, ◌==◌, arith, Bool-cases, ==_iff,
}
use klein.Base.Int.{ℤ, pos, negsuc}
use klein.Base.Predicates.{contains, Distinct}
use klein.Base.Counting.{Below}
use klein.Router.{
  RecordRouter, Slice, cover, validate_rows, validate_row_indices, validate_slice, validate_route,
  validate_target, retry_ring,
}

pub contains-cover :
    (k : ℕ) (rows covered : List ℕ)
    → contains k (cover rows covered) ≡ (contains k rows || contains k covered)
contains-cover k [] covered = refl
contains-cover k (i ∷ rows) covered =
    let rest = contains-cover k rows covered in
    elim (Bool-cases (contains i (cover rows covered))) [
      | inr new ↦ rw new (ground (arith, rest))
      | inl known ↦ elim (Bool-cases (k == i)) [
        | inl hit ↦
            let there = ap (λ x. contains x (cover rows covered)) ((==_iff k i).0 hit) ∙ known in
            rw (known, hit) there
        | inr miss ↦ rw (known, miss) rest
      ]
    ]

pub cover-Distinct : (rows covered : List ℕ) → Distinct covered → Distinct (cover rows covered)
cover-Distinct [] covered h = h
cover-Distinct (i ∷ rows) covered h = elim (Bool-cases (contains i (cover rows covered))) [
  | inl known ↦ rw known (cover-Distinct rows covered h)
  | inr new ↦ rw new (new, cover-Distinct rows covered h)
]

pub cover-Below :
    (n : ℕ) (rows covered : List ℕ) → Below n rows → Below n covered → Below n (cover rows covered)
cover-Below n [] covered hr h = h
cover-Below n (i ∷ rows) covered (low, hr) h = elim (Bool-cases (contains i (cover rows covered))) [
  | inl known ↦ rw known (cover-Below n rows covered hr h)
  | inr new ↦ rw new (low, cover-Below n rows covered hr h)
]

validate_rows-Below :
    (n : ℕ) (seen : List ℕ) (raw : List ℤ) (rows : List ℕ)
    → validate_rows n seen raw ≡ ok rows
    → Below n rows
unfolding validate_rows
validate_rows-Below n seen [] rows h = let same : [] ≡ rows = cc in subst (Below n) same tt
validate_rows-Below n seen (negsuc i ∷ raw) rows h = absurd (cc)
validate_rows-Below n seen (pos i ∷ raw) rows h =
    let (in_range, h1) = raise_if-eq-ok (leb n i) value_error _ h in
    let (new, h2) = raise_if-eq-ok (contains i seen) value_error _ h1 in
    let (rest, valid, last) = >>=-eq-ok (validate_rows n (i ∷ seen) raw) _ h2 in
    let low : i < n = ground arith in
    let same : i ∷ rest ≡ rows = cc in
    subst (Below n) same (low, validate_rows-Below n (i ∷ seen) raw rest valid)

-- The rows of a slice are rows of the batch.
abbrev pub InRange : ℕ → Option (List ℕ) → Type 0
InRange n none = Unit
InRange n (some rows) = Below n rows

validate_slice-InRange :
    (n : ℕ) (raw : Option (List ℤ)) (rows : Option (List ℕ))
    → validate_slice n raw ≡ ok rows
    → InRange n rows
unfolding validate_slice validate_row_indices
validate_slice-InRange n none rows h = let same : none ≡ rows = cc in subst (InRange n) same tt
validate_slice-InRange n (some []) rows h = absurd (cc)
validate_slice-InRange n (some (i ∷ raw)) rows h =
    let (valid, checked, last) = >>=-eq-ok (validate_rows n [] (i ∷ raw)) _ h in
    let same : some valid ≡ rows = cc in
    subst (InRange n) same (validate_rows-Below n [] (i ∷ raw) valid checked)

-- Some slice takes the row.
abbrev pub takes : ℕ → Option (List ℕ) → Bool
takes k none = true
takes k (some rows) = contains k rows

abbrev pub reached : ℕ → List Slice → Bool
reached k [] = false
reached k (s ∷ slices) = takes k s.1 || reached k slices

pub validate_route-InRange :
    (n : ℕ) (seen : List ℕ) (r r' : RecordRouter) (route : ℤ × Option (List ℤ)) (slice : Slice)
    → validate_route n seen r route ≡ ok (slice, r')
    → InRange n slice.1 × (contains slice.0 seen ≡ false)
unfolding validate_route
validate_route-InRange n seen r r' route slice h =
    let (target, valid, h1) = >>=-eq-ok (validate_target r route.0) _ h in
    let (new, h2) = raise_if-eq-ok (contains target seen) value_error _ h1 in
    let (ring, kept, h3) = >>=-eq-ok (retry_ring target r) _ h2 in
    let (rows, sliced, last) = >>=-eq-ok (validate_slice n route.1) _ h3 in
    let inside = validate_slice-InRange n route.1 rows sliced in
    let same : (target, rows) ≡ slice = cc in
    subst (λ (s : Slice). InRange n s.1 × (contains s.0 seen ≡ false)) same (inside, new)
