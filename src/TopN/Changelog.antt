-- ===== src/TopN/Changelog.antt =====
-- What goes downstream: the changelog turns the rows that were first into those that are first now.
use klein.Base.{
  ℕ, ◌+◌, ◌-◌, ◌<◌, ◌≡◌, refl, ap, ◌∙◌, sym, ltb→lt, false, none, some, List, [], ◌∷◌, ◌++◌, map,
  arith, ltb, ◌==◌, if◌then◌else◌, Bool-cases, inl, inr, Option-cases, ==_iff, subst,
}
use klein.Base.Dict.{Dict, lookup_or, insert, lookup_or-insert}
use klein.Base.Predicates.{All}
use klein.TopN.{
  Change, delete_row, insert_row, SqlTopNOperator, is_before, retract, insert_after, count_rows,
  unaccounted, emit_diff,
}
use klein.TopN.Search.{IsSorted}

module _ {Row : Type 0} (o : SqlTopNOperator Row) where
  -- How many rows have the key.
  abbrev pub copies : ℕ → List Row → ℕ
  copies k [] = 0
  copies k (r ∷ rows) = (if k == o.key r then 1 else 0) + copies k rows

  -- How many rows with the key a changelog deletes, and how many it inserts.
  abbrev pub deleted : ℕ → List (Change Row) → ℕ
  deleted k [] = 0
  deleted k (delete_row r ∷ cs) = (if k == o.key r then 1 else 0) + deleted k cs
  deleted k (insert_row r ∷ cs) = deleted k cs

  abbrev pub inserted : ℕ → List (Change Row) → ℕ
  inserted k [] = 0
  inserted k (delete_row r ∷ cs) = inserted k cs
  inserted k (insert_row r ∷ cs) = (if k == o.key r then 1 else 0) + inserted k cs

  one_more :
      (k j : ℕ) (d : Dict ℕ)
      → lookup_or k 0 (insert j (lookup_or j 0 d + 1) d)
        ≡ lookup_or k 0 d + (if k == j then 1 else 0)
  one_more k j d = elim (Bool-cases (k == j)) [
    | inl hit ↦
        let same : lookup_or j 0 d ≡ lookup_or k 0 d =
          ap (λ i. lookup_or i 0 d) (sym ((==_iff k j).0 hit)) in
        lookup_or-insert k j (lookup_or j 0 d + 1) 0 d ∙ rw (hit, same) refl
    | inr miss ↦ lookup_or-insert k j (lookup_or j 0 d + 1) 0 d ∙ rw miss (omega arith)
  ]

  one_less :
      (k j : ℕ) (d : Dict ℕ)
      → 0 < lookup_or j 0 d
      → lookup_or k 0 (insert j (lookup_or j 0 d - 1) d) + (if k == j then 1 else 0)
        ≡ lookup_or k 0 d
  one_less k j d h = elim (Bool-cases (k == j)) [
    | inl hit ↦
        let same : lookup_or j 0 d ≡ lookup_or k 0 d =
          ap (λ i. lookup_or i 0 d) (sym ((==_iff k j).0 hit)) in
        let new : lookup_or k 0 (insert j (lookup_or j 0 d - 1) d) ≡ lookup_or j 0 d - 1 =
          lookup_or-insert k j (lookup_or j 0 d - 1) 0 d ∙ rw hit refl in
        rw hit (omega (arith, same, new, h))
    | inr miss ↦
        let new : lookup_or k 0 (insert j (lookup_or j 0 d - 1) d) ≡ lookup_or k 0 d =
          lookup_or-insert k j (lookup_or j 0 d - 1) 0 d ∙ rw miss refl in
        rw miss (omega (arith, new))
  ]

  count_rows_lem :
      (k : ℕ) (counts : Dict ℕ) (rows : List Row)
      → lookup_or k 0 (count_rows o counts rows) ≡ lookup_or k 0 counts + copies k rows
  unfolding count_rows
  count_rows_lem k counts [] = omega arith
  count_rows_lem k counts (r ∷ rows) = omega (
    arith,
    count_rows_lem k (insert (o.key r) (lookup_or (o.key r) 0 counts + 1) counts) rows,
    one_more k (o.key r) counts,
  )

  unaccounted_lem :
      (k : ℕ) (counts : Dict ℕ) (rows : List Row)
      → copies k (unaccounted o counts rows) ≡ copies k rows - lookup_or k 0 counts
  unfolding unaccounted
  unaccounted_lem k counts [] = omega arith
  unaccounted_lem k counts (r ∷ rows) =
      let n = lookup_or (o.key r) 0 counts in
      elim (Bool-cases (ltb 0 n)) [
        | inl known ↦
            let rest = unaccounted_lem k (insert (o.key r) (n - 1) counts) rows in
            let less = one_less k (o.key r) counts (ltb→lt 0 n known) in
            rw (known, unaccounted) (omega (arith, rest, less))
        | inr unknown ↦
            let rest = unaccounted_lem k counts rows in
            let none_left : k ≡ o.key r → lookup_or k 0 counts ≡ 0 =
              λ e. ap (λ i. lookup_or i 0 counts) e ∙ ground arith in
            rw (unknown, unaccounted) (ground (arith, rest, none_left))
      ]

  deleted-append :
      (k : ℕ) (xs ys : List Row)
      → (deleted k (map delete_row xs ++ map insert_row ys) ≡ copies k xs)
        × (inserted k (map delete_row xs ++ map insert_row ys) ≡ copies k ys)
  deleted-append k [] [] = (refl, refl)
  deleted-append k [] (y ∷ ys) =
      let rest = deleted-append k [] ys in (ground (arith, rest), ground (arith, rest))
  deleted-append k (x ∷ xs) ys =
      let rest = deleted-append k xs ys in (ground (arith, rest), ground (arith, rest))

  -- `_emit_diff` is the smallest changelog between the two lists: of each row it deletes the copies
  -- that are too many and inserts those that are missing.
  pub emit_diff_lem :
      (k : ℕ) (previous current : List Row)
      → (deleted k (emit_diff o previous current) ≡ copies k previous - copies k current)
        × (inserted k (emit_diff o previous current) ≡ copies k current - copies k previous)
  unfolding emit_diff
  emit_diff_lem k previous current =
      let removed = unaccounted o (count_rows o [] current) previous in
      let added = unaccounted o (count_rows o [] previous) current in
      let (del, ins) = deleted-append k removed added in
      let fewer = unaccounted_lem k (count_rows o [] current) previous in
      let more = unaccounted_lem k (count_rows o [] previous) current in
      (
        del ∙ fewer ∙ ap (λ n. copies k previous - n) (count_rows_lem k [] current ∙ omega arith),
        ins ∙ more ∙ ap (λ n. copies k current - n) (count_rows_lem k [] previous ∙ omega arith),
      )

  -- `_retract` takes one row with the key away, and keeps the order of the others.
  pub retract-none :
      (rows : List Row) (row : Row) → retract o rows row ≡ none → copies (o.key row) rows ≡ 0
  unfolding retract
  retract-none [] row h = refl
  retract-none (r ∷ rows) row h = elim (Bool-cases (o.key r == o.key row)) [
    | inl hit ↦ absurd (ground arith)
    | inr miss ↦ elim (Option-cases (retract o rows row)) [
      | inl gone ↦ ground (arith, miss, retract-none rows row gone)
      | inr (rs, at) ↦ absurd (ground arith)
    ]
  ]

  retract-All :
      (P : Row → Type 0) (rows rs : List Row) (row : Row)
      → retract o rows row ≡ some rs
      → All P rows
      → All P rs
  unfolding retract
  retract-All P [] rs row h a = cc
  retract-All P (r ∷ rows) rs row h (hr, a) = elim (Bool-cases (o.key r == o.key row)) [
    | inl hit ↦ let same : rows ≡ rs = ground arith in subst (All P) same a
    | inr miss ↦ elim (Option-cases (retract o rows row)) [
      | inl gone ↦ absurd (ground arith)
      | inr (rs', at) ↦
          let same : r ∷ rs' ≡ rs = ground arith in
          subst (All P) same (hr, retract-All P rows rs' row at a)
    ]
  ]

  -- What is left of sorted rows is sorted, and has one row less of the key.
  pub retract_lem :
      (rows rs : List Row) (row : Row)
      → retract o rows row ≡ some rs
      → (IsSorted o rows → IsSorted o rs)
        × ((k : ℕ) → copies k rows ≡ (if k == o.key row then 1 else 0) + copies k rs)
  unfolding retract
  retract_lem [] rs row h = cc
  retract_lem (r ∷ rows) rs row h = elim (Bool-cases (o.key r == o.key row)) [
    | inl hit ↦
        let same : rows ≡ rs = ground arith in
        let key : o.key r ≡ o.key row = ground arith in rw (← same, key) (λ s. s.1, λ k. refl)
    | inr miss ↦ elim (Option-cases (retract o rows row)) [
      | inl gone ↦ absurd (ground arith)
      | inr (rs', at) ↦
          let same : r ∷ rs' ≡ rs = ground arith in
          let (sorted, count) = retract_lem rows rs' row at in
          rw (← same) (
            λ s. (retract-All (λ x. is_before o x r ≡ false) rows rs' row at s.0, sorted s.1),
            λ k. omega (arith, count k),
          )
    ]
  ]

  pub insert_after-copies :
      (k : ℕ) (row : Row) (rows : List Row)
      → copies k (insert_after o row rows) ≡ (if k == o.key row then 1 else 0) + copies k rows
  unfolding insert_after
  insert_after-copies k row [] = refl
  insert_after-copies k row (x ∷ rows) = elim (Bool-cases (is_before o row x)) [
    | inl before ↦ rw (before, insert_after) refl
    | inr after ↦ rw (after, insert_after) (omega (arith, insert_after-copies k row rows))
  ]
