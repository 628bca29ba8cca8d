-- ===== src/Partitioning/Tests.antt =====
-- Three sources, two targets; and a batch of four rows over two targets.
use klein.Base.{
  ℕ, zero, suc, ◌+◌, ◌<◌, ◌≡◌, refl, Option, none, some, List, [], ◌∷◌, Outcome, ok, arith,
}
use klein.Base.Int.{pos}
use klein.Base.Predicates.{count}
use klein.KeyGroups.{key_group_for_key, key_group_owner}
use klein.Partitioning.{
  rescale, target_indices, WorkerPoolDispatcher, ring_from, target_for_key, key_partition_columnar,
  simple_partition_columnar, bucket_row,
}
use klein.Partitioning.Rings.{ring_from_lem}
use klein.Partitioning.Columnar.{rows_for, chosen, key_partition_columnar-chosen}

second_of_two : target_indices rescale (pos 2) (pos 5) (pos 1) ≡ ok (1 ∷ 3 ∷ [])
unfolding target_indices
second_of_two = refl

abbrev dispatcher : WorkerPoolDispatcher
dispatcher = record { tasks = 1 ∷ 3 ∷ 5 ∷ []; cursor = 0 }

ring_from_example :
    (rest : List ℕ) × (ring_from dispatcher 3 ≡ ok (3 ∷ rest))
    × ((k : ℕ) → count k (3 ∷ rest) ≡ count k (1 ∷ 3 ∷ 5 ∷ []))
ring_from_example = ring_from_lem dispatcher 3 refl

abbrev encode_number : ℕ → Outcome ℕ
encode_number n = ok n

abbrev digest_number : ℕ → ℕ
digest_number n = n

abbrev row_key : ℕ → ℕ
row_key r = r + 6

-- Key groups 6, 7, 0 and 1 of 8 over two subtasks.
abbrev row_target : ℕ → ℕ
row_target zero = 1
row_target (suc zero) = 1
row_target (suc (suc r)) = 0

rows_have_targets :
    (r : ℕ)
    → r < 4
    → target_for_key encode_number digest_number (some (pos 8)) (some 2) (row_key r)
      ≡ ok (row_target r)
unfolding target_for_key key_group_for_key key_group_owner
rows_have_targets zero h = refl
rows_have_targets (suc zero) h = refl
rows_have_targets (suc (suc zero)) h = refl
rows_have_targets (suc (suc (suc zero))) h = refl
rows_have_targets (suc (suc (suc (suc r)))) h = absurd (omega arith)

key_partition_columnar-chosen_example :
    (ss : List (ℕ × Option (List ℕ))) × (key_partition_columnar encode_number digest_number
        (some (pos 8))
        (some 2)
        row_key
        4
      ≡ ok ss)
    × ((t : ℕ) → rows_for 4 t ss ≡ chosen row_target t 4 0)
key_partition_columnar-chosen_example =
    key_partition_columnar-chosen encode_number digest_number (some (pos 8)) (some 2) row_key 4
      row_target rows_have_targets

-- Two whole copies of a single row, and nothing for the other: the batch is taken for a whole one.
fan_out :
    simple_partition_columnar (λ r. elim r [ zero ↦ 5 ∷ 5 ∷ [] | suc r' ↦ [] ]) 2 ≡ (5, none) ∷ []
unfolding simple_partition_columnar bucket_row
fan_out = refl
