-- ===== src/TopN/Stream.antt =====
-- The operator over a stream of additions and retractions.
use klein.Base.{
  ℕ, ◌+◌, ◌-◌, ◌<◌, ◌≡◌, refl, ap, ◌∙◌, sym, Bool, true, false, Option, none, some, List, [], ◌∷◌,
  ◌++◌, Outcome, ok, ◌>>=◌, arith, ◌==◌, if◌then◌else◌, take, Option-cases, take-nil, inl, inr,
}
use klein.TopN.{
  Change, delete_row, insert_row, SqlTopNOperator, Stored, absent, retract, insert_after,
  restore_rows, trim, emit_diff, change_rows, pop_last, store, process_managed_element,
}
use klein.TopN.Search.{IsOrder, IsSorted, insert_sorted-insert_after, insert_after-IsSorted}
use klein.TopN.Changelog.{
  copies, deleted, inserted, emit_diff_lem, retract-none, retract_lem, insert_after-copies,
}

module _ {Row : Type 0} (o : SqlTopNOperator Row) where
  -- The records of a stream, and all that they make the operator emit.
  unfoldable pub run : Stored Row → List (Bool × Row) → Outcome (List (Change Row) × Stored Row)
  run stored [] = ok ([], stored)
  run stored (r ∷ records) = do
    first ← process_managed_element o stored (some r)
    rest ← run first.1 records
    ok (first.0 ++ rest.0, rest.1)

  -- How many rows with the key a table holds after the records, when it held `n` before: a retraction
  -- of a row that is not there is ignored.
  abbrev pub net : ℕ → ℕ → List (Bool × Row) → ℕ
  net k n [] = n
  net k n ((true, row) ∷ records) = net k (n + (if k == o.key row then 1 else 0)) records
  net k n ((false, row) ∷ records) = net k (n - (if k == o.key row then 1 else 0)) records

  -- One call has turned `rows` into the sorted `rows'`, and has told of every change at the top.
  record Turns (stored : Stored Row) (r : Bool × Row) (rows : List Row) : Type 0 where
    changes : List (Change Row)
    stored' : Stored Row
    rows' : List Row
    returned : process_managed_element o stored (some r) ≡ ok (changes, stored')
    kept : restore_rows o stored' ≡ ok rows'
    sorted : IsSorted o rows'
    counted : (k : ℕ) → copies o k rows' ≡ net k (copies o k rows) (r ∷ [])
    told :
        (k : ℕ)
        → inserted o k changes + copies o k (take o.limit rows)
          ≡ deleted o k changes + copies o k (take o.limit rows')

  module _ (ord : IsOrder o) (some_limit : 0 < o.limit) (may_retract : o.retractable ≡ true) where
    restore-store : (rows : List Row) → restore_rows o (store rows) ≡ ok rows
    unfolding restore_rows trim store
    restore-store [] = ground (arith, may_retract)
    restore-store (r ∷ rows) = ground (arith, may_retract)

    positive : (o.limit == 0) ≡ false
    positive = ground arith

    added :
        (row : Row) (rows : List Row)
        → IsSorted o rows
        → change_rows o rows true row ≡ ok (some (insert_after o row rows))
    unfolding change_rows pop_last
    added row rows s = ground (arith, insert_sorted-insert_after o ord rows row s, may_retract)

    removed :
        (row : Row) (rows : List Row) (left : Option (List Row))
        → retract o rows row ≡ left
        → change_rows o rows false row ≡ ok left
    unfolding change_rows
    removed row rows left h = ground (arith, may_retract, h)

    told_lem :
        (k : ℕ) (previous current : List Row)
        → inserted o k (emit_diff o previous current) + copies o k previous
          ≡ deleted o k (emit_diff o previous current) + copies o k current
    told_lem k previous current = omega (arith, emit_diff_lem o k previous current)

    changed :
        (stored : Stored Row) (b : Bool) (row : Row) (rows rows' : List Row)
        → restore_rows o stored ≡ ok rows
        → change_rows o rows b row ≡ ok (some rows')
        → IsSorted o rows'
        → ((k : ℕ) → copies o k rows' ≡ net k (copies o k rows) ((b, row) ∷ []))
        → Turns stored (b, row) rows
    unfolding process_managed_element
    changed stored b row rows rows' at new sorted counted = record {
      changes = emit_diff o (take o.limit rows) (take o.limit rows');
      stored' = store rows';
      rows' = rows';
      returned = rw (positive, process_managed_element, at, new) refl;
      kept = restore-store rows';
      sorted = sorted;
      counted = counted;
      told = λ k. told_lem k (take o.limit rows) (take o.limit rows');
    }

    turn :
        (stored : Stored Row) (r : Bool × Row) (rows : List Row)
        → restore_rows o stored ≡ ok rows
        → IsSorted o rows
        → Turns stored r rows
    unfolding process_managed_element
    turn stored (true, row) rows at s =
        changed stored true row rows (insert_after o row rows) at (added row rows s)
          (insert_after-IsSorted o ord row rows s)
          (λ k. omega (arith, insert_after-copies o k row rows))
    turn stored (false, row) rows at s = elim (Option-cases (retract o rows row)) [
      | inr (rs, found) ↦
          let (sorted, counted) = retract_lem o rows rs row found in
          changed stored false row rows rs at (removed row rows (some rs) found) (sorted s)
            (λ k. omega (arith, counted k))
      | inl gone ↦ record {
        changes = [];
        stored' = stored;
        rows' = rows;
        returned = rw (positive, process_managed_element, at, removed row rows none gone) refl;
        kept = at;
        sorted = s;
        counted = λ k. ground (arith, retract-none o rows row gone);
        told = λ k. refl;
      }
    ]

    -- What a run has done to a table and to the rows downstream.
    record Ran (stored : Stored Row) (records : List (Bool × Row)) (rows : List Row) : Type 0 where
      changes : List (Change Row)
      stored' : Stored Row
      rows' : List Row
      returned : run stored records ≡ ok (changes, stored')
      kept : restore_rows o stored' ≡ ok rows'
      sorted : IsSorted o rows'
      counted : (k : ℕ) → copies o k rows' ≡ net k (copies o k rows) records
      told :
          (k : ℕ)
          → inserted o k changes + copies o k (take o.limit rows)
            ≡ deleted o k changes + copies o k (take o.limit rows')

    changes-append :
        (k : ℕ) (xs ys : List (Change Row))
        → (inserted o k (xs ++ ys) ≡ inserted o k xs + inserted o k ys)
          × (deleted o k (xs ++ ys) ≡ deleted o k xs + deleted o k ys)
    changes-append k [] ys = (omega arith, omega arith)
    changes-append k (delete_row r ∷ xs) ys =
        let rest = changes-append k xs ys in (omega (arith, rest), omega (arith, rest))
    changes-append k (insert_row r ∷ xs) ys =
        let rest = changes-append k xs ys in (omega (arith, rest), omega (arith, rest))

    net-cons :
        (k n : ℕ) (r : Bool × Row) (records : List (Bool × Row))
        → net k n (r ∷ records) ≡ net k (net k n (r ∷ [])) records
    net-cons k n (true, row) records = refl
    net-cons k n (false, row) records = refl

    run-Ran :
        (records : List (Bool × Row)) (stored : Stored Row) (rows : List Row)
        → restore_rows o stored ≡ ok rows
        → IsSorted o rows
        → Ran stored records rows
    unfolding run
    run-Ran [] stored rows at s = record {
      changes = [];
      stored' = stored;
      rows' = rows;
      returned = refl;
      kept = at;
      sorted = s;
      counted = λ k. refl;
      told = λ k. refl;
    }
    run-Ran (r ∷ records) stored rows at s =
        let t = turn stored r rows at s in
        let later = run-Ran records t.stored' t.rows' t.kept t.sorted in
        record {
          changes = t.changes ++ later.changes;
          stored' = later.stored';
          rows' = later.rows';
          returned = rw (run, t.returned, later.returned) refl;
          kept = later.kept;
          sorted = later.sorted;
          counted = λ k.
              later.counted k
              ∙ ap (λ n. net k n records) (t.counted k)
              ∙ sym (net-cons k (copies o k rows) r records);
          told =
              λ k. omega (arith, changes-append k t.changes later.changes, t.told k, later.told k);
        }

    restore-absent : restore_rows o absent ≡ ok []
    unfolding restore_rows trim
    restore-absent = ground (arith, may_retract)

  -- For an order of the rows, a positive limit and an operator that may retract: from no state the
  -- operator takes every stream of additions and retractions without an error. It then holds exactly
  -- the rows that were added and not retracted, sorted, and what it has emitted amounts to the first
  -- `limit` of them: of each row it has inserted as many copies, net of the deleted ones.
  pub run-top :
      IsOrder o
      → 0 < o.limit
      → o.retractable ≡ true
      → (records : List (Bool × Row))
      → (changes : List (Change Row)) × (stored : Stored Row) × (rows : List Row) × (run absent
            records
          ≡ ok (changes, stored))
        × (restore_rows o stored ≡ ok rows)
        × IsSorted o rows
        × ((k : ℕ) → copies o k rows ≡ net k 0 records)
        × ((k : ℕ) → inserted o k changes ≡ deleted o k changes + copies o k (take o.limit rows))
  run-top ord some_limit may_retract records =
      let nothing = restore-absent ord some_limit may_retract in
      let r = run-Ran ord some_limit may_retract records absent [] nothing tt in
      (
        r.changes,
        r.stored',
        r.rows',
        r.returned,
        r.kept,
        r.sorted,
        r.counted,
        λ k. omega (arith, r.told k, ap (copies o k) (take-nil {A = Row} o.limit)),
      )
