-- ===== src/TopN/Tests.antt =====
-- The two smallest of some numbers.
use klein.Base.{
  ℕ, ◌+◌, ◌-◌, ◌≡◌, refl, Bool, true, false, some, List, [], ◌∷◌, ok, arith, take, ltb,
}
use klein.Base.Int.{sub_ℕ}
use klein.TopN.{
  Change, delete_row, insert_row, SqlTopNOperator, Stored, absent, versioned, bisect, insert_sorted,
  insert_after, retract, restore_rows, emit_diff, change_rows, is_before, process_managed_element,
}
use klein.TopN.Search.{IsOrder, IsSorted, insert_sorted-insert_after}
use klein.TopN.Changelog.{copies, deleted, inserted, emit_diff_lem}
use klein.TopN.Stream.{run, net, run-top}

abbrev top_two : SqlTopNOperator ℕ
top_two = record { compare = sub_ℕ; key = λ n. n; limit = 2; retractable = true }

before-sub : (a b : ℕ) → is_before top_two a b ≡ ltb a b
before-sub a b = ground arith

numbers-IsOrder : IsOrder top_two
numbers-IsOrder = record {
  asym = λ a b h. ground (arith, before-sub a b, before-sub b a);
  trans = λ a b c h k. ground (arith, before-sub b a, before-sub c b, before-sub c a);
}

abbrev three_rows : List ℕ
three_rows = 2 ∷ 5 ∷ 5 ∷ []

inserted_four : insert_sorted top_two three_rows 4 ≡ some (2 ∷ 4 ∷ 5 ∷ 5 ∷ [])
unfolding insert_sorted bisect
inserted_four = refl

insert_sorted-insert_after_example :
    insert_sorted top_two three_rows 4 ≡ some (insert_after top_two 4 three_rows)
insert_sorted-insert_after_example =
    insert_sorted-insert_after top_two numbers-IsOrder three_rows 4
      ((refl, (refl, tt)), ((refl, tt), (tt, tt)))

emit_diff_example :
    (deleted top_two 5 (emit_diff top_two (2 ∷ 5 ∷ []) (2 ∷ 4 ∷ []))
      ≡ copies top_two 5 (2 ∷ 5 ∷ []) - copies top_two 5 (2 ∷ 4 ∷ []))
    × (inserted top_two 5 (emit_diff top_two (2 ∷ 5 ∷ []) (2 ∷ 4 ∷ []))
        ≡ copies top_two 5 (2 ∷ 4 ∷ []) - copies top_two 5 (2 ∷ 5 ∷ []))
emit_diff_example = emit_diff_lem top_two 5 (2 ∷ 5 ∷ []) (2 ∷ 4 ∷ [])

abbrev records : List (Bool × ℕ)
records = (true, 5) ∷ (true, 2) ∷ (true, 4) ∷ (false, 2) ∷ (false, 9) ∷ []

-- 4 takes the place of 5, and 5 comes back when 2 is retracted.
emitted :
    run top_two absent records
    ≡ ok (
      insert_row 5 ∷ insert_row 2 ∷ delete_row 5 ∷ insert_row 4 ∷ delete_row 2 ∷ insert_row 5 ∷ [],
      versioned (4 ∷ 5 ∷ []),
    )
unfolding run process_managed_element restore_rows change_rows emit_diff insert_sorted bisect
    retract
emitted = refl

run-top_example :
    (changes : List (Change ℕ)) × (stored : Stored ℕ) × (rows : List ℕ) × (run top_two absent
        records
      ≡ ok (changes, stored))
    × (restore_rows top_two stored ≡ ok rows)
    × IsSorted top_two rows
    × ((k : ℕ) → copies top_two k rows ≡ net top_two k 0 records)
    × ((k : ℕ)
        → inserted top_two k changes ≡ deleted top_two k changes + copies top_two k (take 2 rows))
run-top_example = run-top top_two numbers-IsOrder (omega arith) refl records
