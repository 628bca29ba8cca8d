-- ===== src/KeyGroups/Tests.antt =====
-- The key-group functions on ten key groups and four subtasks.
use klein.Base.{ℕ, ◌+◌, ◌<◌, ◌≡◌, ◌↔◌, refl, true, Outcome, ok, raise, value_error, arith}
use klein.Base.Int.{pos, negsuc, ◌+ℤ◌}
use klein.KeyGroups.{
  KeyGroupRange, in_range, assign_key_group_range, key_group_owner, key_group_for_key,
}
use klein.KeyGroups.Ownership.{assign_key_group_range-key_group_owner}
use klein.KeyGroups.Coverage.{assign_key_group_range_contiguous, key_group_for_key-key_group_owner}

-- 10 * 1 / 4 and 10 * 2 / 4, rounded up.
second_range :
    assign_key_group_range (pos 10) (pos 4) (pos 1) ≡ ok (record { start = pos 3; stop = pos 4 })
unfolding assign_key_group_range
second_range = refl

owner_of_seven : key_group_owner (pos 7) (pos 10) (pos 4) ≡ ok (pos 2)
unfolding key_group_owner
owner_of_seven = refl

negative_subtask : assign_key_group_range (pos 10) (pos 4) (negsuc 0) ≡ raise value_error
unfolding assign_key_group_range
negative_subtask = refl

assign_key_group_range-key_group_owner_example :
    (r : KeyGroupRange) × (assign_key_group_range (pos 10) (pos 4) (pos 1) ≡ ok r)
    × ((g : ℕ)
        → g < 10
        → (key_group_owner (pos g) (pos 10) (pos 4) ≡ ok (pos 1)) ↔ (in_range r (pos g) ≡ true))
assign_key_group_range-key_group_owner_example =
    assign_key_group_range-key_group_owner 10 4 1 (omega arith) (omega arith) (omega arith)

assign_key_group_range_contiguous_example :
    (r : KeyGroupRange) × (assign_key_group_range (pos 10) (pos 4) (pos 1) ≡ ok r)
    × (◌≡◌ {A = ℕ} 1 0 → r.start ≡ pos 0)
    × (◌≡◌ {A = ℕ} (1 + 1) 4 → r.stop +ℤ pos 1 ≡ pos 10)
    × (1 + 1 < 4
        → (s : KeyGroupRange) × (assign_key_group_range (pos 10) (pos 4) (pos (1 + 1)) ≡ ok s)
          × (r.stop +ℤ pos 1 ≡ s.start))
assign_key_group_range_contiguous_example =
    assign_key_group_range_contiguous 10 4 1 (omega arith) (omega arith) (omega arith)

-- Keys are numbers, encoded as themselves.
abbrev encode_number : ℕ → Outcome ℕ
encode_number n = ok n

abbrev digest_number : ℕ → ℕ
digest_number n = n + 5

key_group_for_key-key_group_owner_example :
    (g i : ℕ) × (key_group_for_key encode_number digest_number 32 (pos 10) ≡ ok (pos g))
    × (key_group_owner (pos g) (pos 10) (pos 4) ≡ ok (pos i))
    × (g < 10)
    × (i < 4)
key_group_for_key-key_group_owner_example =
    key_group_for_key-key_group_owner encode_number digest_number 32 32 10 4 (omega arith)
      (omega arith) refl
