-- ===== src/KeyGroups.antt =====
-- src/ray/klein/state/key_group_range.py: the stable assignment of keys to key groups and of key
-- groups to subtasks, which keyed routing and the rescaling of checkpoints share.
pub mod Ownership
pub mod Coverage
mod Tests
use klein.Base.{
  ℕ, ◌+◌, ◌*◌, ◌/◌, ◌%◌, Bool, not, ◌&&◌, ◌||◌, Outcome, ok, raise, value_error, raise_if, ◌>>=◌,
  ◌>>◌, List,
}
use klein.Base.Int.{ℤ, pos, pos_part, ◌-ℤ◌, ◌+ℤ◌, ltb_ℤ, leb_ℤ}
use klein.Base.Division.{ceil_div}

-- `KeyGroupRange`: an inclusive contiguous range of key groups.
pub record KeyGroupRange : Type 0 where
  pub start : ℤ
  pub stop : ℤ

-- The constructor with `__post_init__`.
pub key_group_range : ℤ → ℤ → Outcome KeyGroupRange
key_group_range start stop = do
  raise_if (ltb_ℤ start (pos 0)) value_error
  raise_if (ltb_ℤ stop start) value_error
  ok (record { start = start; stop = stop })

-- `__contains__`
pub in_range : KeyGroupRange → ℤ → Bool
in_range r key_group = leb_ℤ r.start key_group && leb_ℤ key_group r.stop

-- `__len__`
pub range_len : KeyGroupRange → ℤ
unfolding ◌-ℤ◌ ◌+ℤ◌
range_len r = r.stop -ℤ r.start +ℤ pos 1

pub validate_parallelism : ℤ → ℤ → Outcome (Unit {0})
validate_parallelism max_parallelism parallelism = do
  raise_if (ltb_ℤ max_parallelism (pos 1)) value_error
  raise_if (ltb_ℤ parallelism (pos 1)) value_error
  raise_if (ltb_ℤ max_parallelism parallelism) value_error

-- Behind the guards every argument is at least 0, so the quotients are those of the naturals.
pub assign_key_group_range : ℤ → ℤ → ℤ → Outcome KeyGroupRange
unfolding validate_parallelism key_group_range ◌-ℤ◌
assign_key_group_range max_parallelism parallelism subtask_index = do
  validate_parallelism max_parallelism parallelism
  raise_if (not (leb_ℤ (pos 0) subtask_index && ltb_ℤ subtask_index parallelism)) value_error
  let m = pos_part max_parallelism
  let p = pos_part parallelism
  let i = pos_part subtask_index
  key_group_range (pos (ceil_div (i * m) p)) (pos (ceil_div ((i + 1) * m) p) -ℤ pos 1)

unfoldable pub key_group_owner : ℤ → ℤ → ℤ → Outcome ℤ
unfolding validate_parallelism
key_group_owner key_group max_parallelism parallelism = do
  validate_parallelism max_parallelism parallelism
  raise_if (not (leb_ℤ (pos 0) key_group && ltb_ℤ key_group max_parallelism)) value_error
  ok (pos (pos_part key_group * pos_part parallelism / pos_part max_parallelism))

-- `encode` is `encode_key(key, protocol=4)`, which raises for a key that cannot be pickled, and
-- `digest` the number that BLAKE2b gives for the bytes.
unfoldable pub key_group_for_key :
    {Key Bytes : Type 0} → (Key → Outcome Bytes) → (Bytes → ℕ) → Key → ℤ → Outcome ℤ
key_group_for_key encode digest key max_parallelism = do
  raise_if (ltb_ℤ max_parallelism (pos 1)) value_error
  encoded ← encode key
  ok (pos (digest encoded % pos_part max_parallelism))
