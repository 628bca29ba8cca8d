-- ===== src/TopN.antt =====
-- src/ray/klein/runtime/operator/sql_top_n_operator.py: streaming ORDER BY and LIMIT. The rows are
-- kept sorted, and each change of the first `limit` rows goes downstream as a changelog.
pub mod Search
pub mod Changelog
pub mod Stream
mod Tests
use klein.Base.{
  ℕ, zero, suc, ◌+◌, ◌-◌, ◌/◌, Bool, true, false, not, ◌&&◌, Option, none, some, List, [], ◌∷◌,
  ◌++◌, map, Outcome, ok, raise, value_error, raise_if, ◌>>=◌, ◌>>◌, ltb, ◌==◌, if◌then◌else◌,
  length, get_or, take, drop, sql_query_error, index_error, get_elem?,
}
use klein.Base.Int.{ℤ, pos, negsuc, pos_part, ltb_ℤ}
use klein.Base.Dict.{Dict, lookup_or, insert}

-- `ChangelogRow` as the operator emits it: a deletion or an insertion of a row.
pub data Change (Row : Type 0) : Type 0 where
  delete_row : Row → Change Row
  insert_row : Row → Change Row

-- One `exp.Ordered`: the value of its expression on a row, which is `None` where there is none.
pub record Ordered (Row Value : Type 0) : Type 0 where
  pub this : Row → Option Value
  pub nulls_first : Bool
  pub desc : Bool

abbrev minus : ℤ → ℤ
minus (pos zero) = pos 0
minus (pos (suc n)) = negsuc n
minus (negsuc n) = pos (suc n)

abbrev is_zero : ℤ → Bool
is_zero (pos zero) = true
is_zero (pos (suc n)) = false
is_zero (negsuc n) = false

-- `_compare_values`, where `compare_non_null` is `compare_non_null_values`.
compare_values : {Value : Type 0} → (Value → Value → ℤ) → Option Value → Option Value → Bool → ℤ
compare_values compare_non_null none none nulls_first = pos 0
compare_values compare_non_null none (some r) nulls_first = if nulls_first then negsuc 0 else pos 1
compare_values compare_non_null (some l) none nulls_first = if nulls_first then pos 1 else negsuc 0
compare_values compare_non_null (some l) (some r) nulls_first = compare_non_null l r

-- The result of one order key that tells the rows apart.
signed : {Value : Type 0} → Option Value → Option Value → Bool → ℤ → ℤ
signed none right desc c = c
signed (some l) none desc c = c
signed (some l) (some r) desc c = if desc then minus c else c

module _ {Row Value : Type 0} (compare_non_null : Value → Value → ℤ) where
  -- `_compare`
  pub compare_rows : List (Ordered Row Value) → Row → Row → ℤ
  unfolding compare_values signed
  compare_rows [] left right = pos 0
  compare_rows (o ∷ os) left right =
      let c = compare_values compare_non_null (o.this left) (o.this right) o.nulls_first in
      let rest = compare_rows os left right in
      if is_zero c then rest else signed (o.this left) (o.this right) o.desc c

-- The operator's configuration. `compare` is the comparison of two rows, and `key` is
-- `state_value_key`, which is only compared.
pub record SqlTopNOperator (Row : Type 0) : Type 0 where
  pub compare : Row → Row → ℤ
  pub key : Row → ℕ
  pub limit : ℕ
  pub retractable : Bool

-- What the state can hold: nothing, a bare list, the current version, or anything else.
pub data Stored (Row : Type 0) : Type 0 where
  absent : Stored Row
  bare : List Row → Stored Row
  versioned : List Row → Stored Row
  unsupported : Stored Row

module _ {Row : Type 0} where
  -- `__init__`
  pub sql_top_n_operator : (Row → Row → ℤ) → (Row → ℕ) → ℤ → Bool → Outcome (SqlTopNOperator Row)
  sql_top_n_operator compare key limit retractable = do
    raise_if (ltb_ℤ limit (pos 0)) value_error
    ok (record { compare = compare; key = key; limit = pos_part limit; retractable = retractable })

  -- `self._compare(left, right) < 0`
  abbrev pub is_before : SqlTopNOperator Row → Row → Row → Bool
  is_before o left right = ltb_ℤ (o.compare left right) (pos 0)

  -- The loop of `_insert_sorted`; `none` when the fuel is used up or an index is out of range.
  pub bisect : SqlTopNOperator Row → List Row → Row → ℕ → ℕ → ℕ → Option ℕ
  bisect o rows row zero low high = if ltb low high then none else some low
  bisect o rows row (suc fuel) low high =
      let middle = (low + high) / 2 in
      elim (ltb low high) [
        | false ↦ some low
        | true ↦ elim (get_elem? rows middle) [
          | none ↦ none
          | some r ↦
              let upper = is_before o row r in
              bisect o rows row fuel (if upper then low else middle + 1)
                (if upper then middle else high)
        ]
      ]

  -- `_insert_sorted`, on fuel for one round for each row.
  pub insert_sorted : SqlTopNOperator Row → List Row → Row → Option (List Row)
  insert_sorted o rows row = elim (bisect o rows row (length rows) 0 (length rows)) [
    | none ↦ none
    | some low ↦ some (take low rows ++ row ∷ drop low rows)
  ]

  -- `_retract`; `none` when no row has the key.
  pub retract : SqlTopNOperator Row → List Row → Row → Option (List Row)
  retract o [] row = none
  retract o (r ∷ rows) row =
      let rest = retract o rows row in
      if o.key r == o.key row
      then some rows
      else elim rest [ none ↦ none | some rs ↦ some (r ∷ rs) ]

  -- `sorted(stored, key=cmp_to_key(self._compare))`, the stable sort.
  pub insert_after : SqlTopNOperator Row → Row → List Row → List Row
  insert_after o row [] = row ∷ []
  insert_after o row (r ∷ rows) =
      let rest = insert_after o row rows in if is_before o row r then row ∷ r ∷ rows else r ∷ rest

  pub sort : SqlTopNOperator Row → List Row → List Row → List Row
  unfolding insert_after
  sort o done [] = done
  sort o done (r ∷ rows) = sort o (insert_after o r done) rows

  -- `if not self._retractable and len(rows) > self._limit: del rows[self._limit:]`
  trim : SqlTopNOperator Row → List Row → List Row
  trim o rows = if not o.retractable && ltb o.limit (length rows) then take o.limit rows else rows

  -- `_restore_rows`
  pub restore_rows : SqlTopNOperator Row → Stored Row → Outcome (List Row)
  unfolding trim sort
  restore_rows o absent = ok (trim o [])
  restore_rows o (bare rows) = ok (trim o (sort o [] rows))
  restore_rows o (versioned rows) = ok (trim o rows)
  restore_rows o unsupported = raise sql_query_error

  -- `_row_counts`, from the left.
  count_rows : SqlTopNOperator Row → Dict ℕ → List Row → Dict ℕ
  count_rows o counts [] = counts
  count_rows o counts (r ∷ rows) =
      count_rows o (insert (o.key r) (lookup_or (o.key r) 0 counts + 1) counts) rows

  -- The rows that `counts` does not account for.
  unaccounted : SqlTopNOperator Row → Dict ℕ → List Row → List Row
  unaccounted o counts [] = []
  unaccounted o counts (r ∷ rows) =
      let known = ltb 0 (lookup_or (o.key r) 0 counts) in
      let rest =
        unaccounted o
          (if known then insert (o.key r) (lookup_or (o.key r) 0 counts - 1) counts else counts)
          rows in
      if known then rest else r ∷ rest

  -- `_emit_diff`
  pub emit_diff : SqlTopNOperator Row → List Row → List Row → List (Change Row)
  unfolding count_rows unaccounted
  emit_diff o previous current =
      map delete_row (unaccounted o (count_rows o [] current) previous)
      ++ map insert_row (unaccounted o (count_rows o [] previous) current)

  -- `if not self._retractable and len(rows) > self._limit: rows.pop()`
  pop_last : SqlTopNOperator Row → List Row → List Row
  pop_last o rows =
      if not o.retractable && ltb o.limit (length rows) then take (length rows - 1) rows else rows

  store : List Row → Stored Row
  store [] = absent
  store (r ∷ rows) = versioned (r ∷ rows)

  -- What `process_managed_element` does once `rows` have been restored. The rows after the change are
  -- `none` where it returns early.
  pub change_rows : SqlTopNOperator Row → List Row → Bool → Row → Outcome (Option (List Row))
  unfolding insert_sorted pop_last
  change_rows o rows true row = elim (insert_sorted o rows row) [
    | none ↦ raise index_error
    | some rows' ↦ ok (some (pop_last o rows'))
  ]
  change_rows o rows false row = do
    raise_if (not o.retractable) sql_query_error
    ok (retract o rows row)

  -- `process_managed_element`, on a record whose block is a row with its kind, or no block.
  pub process_managed_element :
      SqlTopNOperator Row
      → Stored Row
      → Option (Bool × Row)
      → Outcome (List (Change Row) × Stored Row)
  unfolding store
  process_managed_element o stored none = ok ([], stored)
  process_managed_element o stored (some (is_addition, row)) =
      if o.limit == 0 then ok ([], stored) else (do
        rows ← restore_rows o stored
        changed ← change_rows o rows is_addition row
        ok (elim changed [
          | none ↦ ([], stored)
          | some rows' ↦ (emit_diff o (take o.limit rows) (take o.limit rows'), store rows')
        ]))
