-- ===== src/TopN/Search.antt =====
-- The binary search of `_insert_sorted` finds the place of a stable insertion.
use klein.Base.{
  ℕ, zero, suc, ◌+◌, ◌/◌, ◌≤◌, ◌<◌, ◌≡◌, refl, ap, ◌∙◌, true, false, some, List, [], ◌∷◌, ◌++◌,
  arith, ltb, leb, if◌then◌else◌, length, get_elem?, take, drop, Bool-cases, inl, inr, Option-cases,
  length-le_of_none,
}
use klein.Base.Predicates.{All}
use klein.TopN.{SqlTopNOperator, is_before, bisect, insert_sorted, insert_after}

module _ {Row : Type 0} (o : SqlTopNOperator Row) where
  -- The comparison orders all rows: it is asymmetric, and "not after" is transitive.
  pub record IsOrder : Type 0 where
    pub asym : (a b : Row) → is_before o a b ≡ true → is_before o b a ≡ false
    pub trans :
        (a b c : Row) → is_before o b a ≡ false → is_before o c b ≡ false → is_before o c a ≡ false

  -- No row stands behind one that it comes before.
  abbrev pub IsSorted : List Row → Type 0
  IsSorted [] = Unit
  IsSorted (r ∷ rows) = All (λ s. is_before o s r ≡ false) rows × IsSorted rows

  -- The number of rows before the first one that `row` comes before.
  place : Row → List Row → ℕ
  place row [] = 0
  place row (r ∷ rows) = let rest = suc (place row rows) in if is_before o row r then 0 else rest

  -- `row` comes before exactly the rows from `k` on.
  abbrev Splits : List Row → Row → ℕ → Type 0
  Splits rows row k = (i : ℕ) (r : Row) → get_elem? rows i ≡ some r → is_before o row r ≡ leb k i

  bisect_lem :
      (rows : List Row) (row : Row) (k fuel low high : ℕ)
      → Splits rows row k
      → low ≤ k
      → k ≤ high
      → high ≤ length rows
      → high ≤ low + fuel
      → bisect o rows row fuel low high ≡ some k
  unfolding bisect
  bisect_lem rows row k zero low high s a b c d =
      let same : low ≡ k = omega arith in rw (same) (ground arith)
  bisect_lem rows row k (suc fuel) low high s a b c d = elim (Bool-cases (ltb low high)) [
    | inr done ↦ rw (done, bisect) (ap some (ground arith))
    | inl more ↦ elim (Option-cases (get_elem? rows ((low + high) / 2))) [
      | inl out ↦ absurd (grind (arith, length-le_of_none rows ((low + high) / 2) out))
      | inr (r, at) ↦
          let side = s ((low + high) / 2) r at in
          elim (Bool-cases (is_before o row r)) [
            | inl upper ↦
                let below : k ≤ (low + high) / 2 = ground (arith, side) in
                rw (more, bisect, at, upper)
                  (bisect_lem rows row k fuel low ((low + high) / 2) s a below (ground arith)
                    (ground arith))
            | inr lower ↦
                let above : (low + high) / 2 < k = ground (arith, side) in
                rw (more, bisect, at, lower)
                  (bisect_lem rows row k fuel ((low + high) / 2 + 1) high s (omega (arith, above)) b
                    c (ground arith))
          ]
    ]
  ]

  -- In sorted rows all rows behind one that `row` comes before are so, too.
  behind :
      (ord : IsOrder) (row r : Row) (rows : List Row)
      → is_before o row r ≡ true
      → All (λ s. is_before o s r ≡ false) rows
      → (i : ℕ) (s : Row) → get_elem? rows i ≡ some s
      → is_before o row s ≡ true
  behind ord row r [] h all i s e = cc
  behind ord row r (x ∷ rows) h (hx, all) zero s e =
      let same : x ≡ s = cc in
      elim (Bool-cases (is_before o row x)) [
        | inl good ↦ rw (← same) good
        | inr bad ↦ absurd (ground (arith, ord.trans r x row hx bad, h))
      ]
  behind ord row r (x ∷ rows) h (hx, all) (suc i) s e = behind ord row r rows h all i s e

  place-Splits :
      (ord : IsOrder) (row : Row) (rows : List Row)
      → IsSorted rows
      → Splits rows row (place row rows)
  unfolding place
  place-Splits ord row [] s i r e = cc
  place-Splits ord row (x ∷ rows) (front, s) zero r e = ground arith
  place-Splits ord row (x ∷ rows) (front, s) (suc i) r e = elim (Bool-cases (is_before o row x)) [
    | inl before ↦ rw (before, place) (behind ord row x rows before front i r e ∙ ground arith)
    | inr after ↦
        let rest = place-Splits ord row rows s i r e in rw (after, place) (rest ∙ ground arith)
  ]

  place-le : (row : Row) (rows : List Row) → place row rows ≤ length rows
  unfolding place
  place-le row [] = omega arith
  place-le row (x ∷ rows) = ground (arith, place-le row rows)

  take-place :
      (row : Row) (rows : List Row)
      → take (place row rows) rows ++ row ∷ drop (place row rows) rows ≡ insert_after o row rows
  unfolding place insert_after
  take-place row [] = refl
  take-place row (x ∷ rows) = ground (arith, take-place row rows)

  -- On sorted rows and an order of the rows, `_insert_sorted` ends within one round for each row, no
  -- index is out of range, and the new row stands right behind all rows that it does not come before.
  pub insert_sorted-insert_after :
      (ord : IsOrder) (rows : List Row) (row : Row)
      → IsSorted rows
      → insert_sorted o rows row ≡ some (insert_after o row rows)
  unfolding insert_sorted
  insert_sorted-insert_after ord rows row s =
      let found =
        bisect_lem rows row (place row rows) (length rows) 0 (length rows)
          (place-Splits ord row rows s) (omega arith) (place-le row rows) (omega arith)
          (omega arith) in
      rw (found, insert_sorted) (ap some (take-place row rows))

  insert_after-All :
      (P : Row → Type 0) (row : Row) (rows : List Row)
      → P row
      → All P rows
      → All P (insert_after o row rows)
  unfolding insert_after
  insert_after-All P row [] h a = (h, tt)
  insert_after-All P row (x ∷ rows) h (hx, a) = elim (Bool-cases (is_before o row x)) [
    | inl before ↦ rw (before, insert_after) (h, (hx, a))
    | inr after ↦ rw (after, insert_after) (hx, insert_after-All P row rows h a)
  ]

  All-trans :
      (ord : IsOrder) (row x : Row) (rows : List Row)
      → is_before o x row ≡ false
      → All (λ s. is_before o s x ≡ false) rows
      → All (λ s. is_before o s row ≡ false) rows
  All-trans ord row x [] h a = tt
  All-trans ord row x (s ∷ rows) h (hs, a) = (ord.trans row x s h hs, All-trans ord row x rows h a)

  pub insert_after-IsSorted :
      (ord : IsOrder) (row : Row) (rows : List Row)
      → IsSorted rows
      → IsSorted (insert_after o row rows)
  unfolding insert_after
  insert_after-IsSorted ord row [] s = (tt, tt)
  insert_after-IsSorted ord row (x ∷ rows) (front, s) = elim (Bool-cases (is_before o row x)) [
    | inl before ↦
        let not_after = ord.asym row x before in
        rw (before, insert_after)
          ((not_after, All-trans ord row x rows not_after front), (front, s))
    | inr after ↦
        rw (after, insert_after)
          (
            insert_after-All (λ s. is_before o s x ≡ false) row rows after front,
            insert_after-IsSorted ord row rows s,
          )
  ]
