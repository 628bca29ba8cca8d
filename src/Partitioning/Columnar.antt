-- ===== src/Partitioning/Columnar.antt =====
-- The slices of a columnar batch: each target gets the rows whose key it owns, in their order.
use klein.Base.{
  ℕ, zero, suc, ◌+◌, ◌<◌, ◌≡◌, ◌≢◌, refl, ◌∙◌, ap, sym, Option, none, some, List, [], ◌∷◌, ◌++◌,
  map, append-nil, append_assoc, Outcome, ok, arith, Bool-cases, inl, inr, ◌==◌, if◌then◌else◌,
  ==_iff,
}
use klein.Base.Keys.{keys_of, IsDict, insert-IsDict, lookup-none}
use klein.Base.Predicates.{contains}
use klein.Base.Dict.{Dict, lookup_or, lookup_or-insert}
use klein.Base.Int.{ℤ}
use klein.Partitioning.{
  range_from, bucket_row, bucket_rows, slices, target_for_key, key_partition_columnar,
}

-- The rows from `row` on, `n` of them, that have the target `t`.
abbrev pub chosen : (ℕ → ℕ) → ℕ → ℕ → ℕ → List ℕ
chosen target t zero row = []
chosen target t (suc n) row =
    let rest = chosen target t n (row + 1) in if t == target row then row ∷ rest else rest

-- The rows of a batch of `n` that the slices for `t` take, all of them one after another.
abbrev pub slice_rows : ℕ → Option (List ℕ) → List ℕ
slice_rows n none = range_from n 0 1
slice_rows n (some rows) = rows

abbrev pub rows_for : ℕ → ℕ → List (ℕ × Option (List ℕ)) → List ℕ
rows_for n t [] = []
rows_for n t (s ∷ ss) = if t == s.0 then slice_rows n s.1 ++ rows_for n t ss else rows_for n t ss

bucket_row_lem :
    (b : Dict (List ℕ)) (t u row : ℕ)
    → lookup_or t [] (bucket_row b u row)
      ≡ (if t == u then lookup_or t [] b ++ row ∷ [] else lookup_or t [] b)
unfolding bucket_row
bucket_row_lem b t u row = elim (Bool-cases (t == u)) [
  | inl hit ↦
      let same : u ≡ t = sym ((==_iff t u).0 hit) in
      lookup_or-insert t u (lookup_or u [] b ++ row ∷ []) [] b ∙ rw (hit, same) refl
  | inr miss ↦ lookup_or-insert t u (lookup_or u [] b ++ row ∷ []) [] b ∙ rw miss refl
]

bucket_row-IsDict : (b : Dict (List ℕ)) (u row : ℕ) → IsDict b → IsDict (bucket_row b u row)
unfolding bucket_row
bucket_row-IsDict b u row once = insert-IsDict u (lookup_or u [] b ++ row ∷ []) b once

-- The buckets behind the loop, when no row raises.
record Buckets (target_of : ℕ → Outcome ℕ) (target : ℕ → ℕ) (b : Dict (List ℕ)) (n row : ℕ)
    : Type 0 where
  buckets : Dict (List ℕ)
  once : IsDict buckets
  returned : bucket_rows target_of b n row ≡ ok buckets
  gathered : (t : ℕ) → lookup_or t [] buckets ≡ lookup_or t [] b ++ chosen target t n row

bucket_rows-Buckets :
    (target_of : ℕ → Outcome ℕ) (target : ℕ → ℕ) (n row : ℕ) (b : Dict (List ℕ))
    → IsDict b
    → ((r : ℕ) → r < row + n → target_of r ≡ ok (target r))
    → Buckets target_of target b n row
unfolding bucket_rows
bucket_rows-Buckets target_of target zero row b once h = record {
  buckets = b;
  once = once;
  returned = refl;
  gathered = λ t. sym (append-nil (lookup_or t [] b));
}
bucket_rows-Buckets target_of target (suc n) row b once h =
    let rest =
      bucket_rows-Buckets target_of target n (row + 1) (bucket_row b (target row) row)
        (bucket_row-IsDict b (target row) row once) (λ r lt. h r (omega arith)) in
    record {
      buckets = rest.buckets;
      once = rest.once;
      returned = rw (bucket_rows, h row (omega arith)) rest.returned;
      gathered = λ t. rest.gathered t ∙ gather t (chosen target t n (row + 1));
    }
  where
    gather :
        (t : ℕ) (later : List ℕ)
        → lookup_or t [] (bucket_row b (target row) row) ++ later
          ≡ lookup_or t [] b ++ (if t == target row then row ∷ later else later)
    gather t later = elim (Bool-cases (t == target row)) [
      | inl hit ↦
          rw (bucket_row_lem b t (target row) row, hit)
            (append_assoc (lookup_or t [] b) (row ∷ []) later)
      | inr miss ↦ rw (bucket_row_lem b t (target row) row, miss) refl
    ]

-- If no other target has rows, one has all of them.
chosen-all :
    (target : ℕ → ℕ) (t n row : ℕ)
    → ((u : ℕ) → u ≢ t → chosen target u n row ≡ [])
    → chosen target t n row ≡ range_from n row 1
chosen-all target t zero row h = refl
chosen-all target t (suc n) row h = elim (Bool-cases (t == target row)) [
  | inl hit ↦
      rw hit (ap (λ l. row ∷ l) (chosen-all target t n (row + 1) (λ u ne. ground (arith, h u ne))))
  | inr miss ↦ absurd (ground (arith, h (target row)))
]

-- A target without a bucket has no slice, and one with a bucket has one.
mapped_rows_for :
    (n t : ℕ) (d : Dict (List ℕ))
    → IsDict d
    → rows_for n t (map (λ e. (e.0, some e.1)) d) ≡ lookup_or t [] d
mapped_rows_for n t [] once = refl
mapped_rows_for n t ((k, rows) ∷ d) (new, once) = elim (Bool-cases (t == k)) [
  | inl hit ↦
      let gone = lookup-none t d (ap (λ x. contains x (keys_of d)) ((==_iff t k).0 hit) ∙ new) in
      let nothing : rows_for n t (map (λ e. (e.0, some e.1)) d) ≡ [] =
        mapped_rows_for n t d once ∙ rw (lookup_or, gone) refl in
      let found : rows ≡ lookup_or t [] ((k, rows) ∷ d) = ground (arith, hit) in
      rw (hit, nothing) (append-nil rows ∙ found)
  | inr miss ↦
      let passed : lookup_or t [] d ≡ lookup_or t [] ((k, rows) ∷ d) = ground (arith, miss) in
      rw miss (mapped_rows_for n t d once ∙ passed)
]

-- The slices that are returned for buckets with these rows.
slices_lem :
    (target : ℕ → ℕ) (n : ℕ) (b : Dict (List ℕ)) (t : ℕ)
    → IsDict b
    → ((u : ℕ) → lookup_or u [] b ≡ chosen target u n 0)
    → rows_for n t (slices b) ≡ chosen target t n 0
unfolding slices
slices_lem target n [] t once h = h t
slices_lem target n ((k, rows) ∷ []) t once h = elim (Bool-cases (t == k)) [
  | inl hit ↦
      let same : t ≡ k = (==_iff t k).0 hit in
      rw hit (
        append-nil (range_from n 0 1)
        ∙ sym (chosen-all target t n 0 (λ u ne. sym (h u) ∙ ground (arith, same))))
  | inr miss ↦
      let missing : [] ≡ lookup_or t [] ((k, rows) ∷ []) = ground arith in rw miss (missing ∙ h t)
]
slices_lem target n (b ∷ c ∷ bs) t once h = mapped_rows_for n t (b ∷ c ∷ bs) once ∙ h t

-- If every row of a batch of `n` has a target, the batch is routed without an error, and what
-- the slices of a target hold, taken together, is exactly the rows with that target, each once and in
-- their order: a whole batch goes out as one only when all rows agree.
pub key_partition_columnar-chosen :
    {Key Bytes : Type 0} (encode : Key → Outcome Bytes) (digest : Bytes → ℕ)
    (max_parallelism : Option ℤ) (count : Option ℕ) (key_of : ℕ → Key) (n : ℕ) (target : ℕ → ℕ)
    → ((r : ℕ)
        → r < n
        → target_for_key encode digest max_parallelism count (key_of r) ≡ ok (target r))
    → (ss : List (ℕ × Option (List ℕ))) × (key_partition_columnar encode digest max_parallelism
          count key_of n
        ≡ ok ss)
      × ((t : ℕ) → rows_for n t ss ≡ chosen target t n 0)
unfolding key_partition_columnar
key_partition_columnar-chosen encode digest max_parallelism count key_of n target h =
    let target_of : ℕ → Outcome ℕ =
      λ row. target_for_key encode digest max_parallelism count (key_of row) in
    let b = bucket_rows-Buckets target_of target n 0 [] tt (λ r lt. h r (omega arith)) in
    (
      slices b.buckets,
      rw (key_partition_columnar, b.returned) refl,
      λ t. slices_lem target n b.buckets t b.once b.gathered,
    )
