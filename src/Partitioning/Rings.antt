-- ===== src/Partitioning/Rings.antt =====
-- The rings in which a full target is passed over: they start at the first choice and hold every
-- eligible task as often as it is assigned.
use klein.Base.{
  ℕ, suc, ◌+◌, ◌≡◌, refl, ◌∙◌, ap, true, some, List, [], ◌∷◌, ◌++◌, ok, arith, Bool-cases, inl, inr,
  ◌==◌, take, drop, take-append-drop, sym,
}
use klein.Base.Predicates.{contains, count}
use klein.Partitioning.{WorkerPoolDispatcher, index_of, ring_from}

count-append : (k : ℕ) (xs ys : List ℕ) → count k (xs ++ ys) ≡ count k xs + count k ys
count-append k [] ys = omega arith
count-append k (x ∷ xs) ys = omega (arith, count-append k xs ys)

count-rotate : (k n : ℕ) (xs : List ℕ) → count k (drop n xs ++ take n xs) ≡ count k xs
count-rotate k n xs =
    let whole = ap (count k) (take-append-drop n xs) in
    omega
      (arith, whole, count-append k (drop n xs) (take n xs), count-append k (take n xs) (drop n xs))

index_of-some :
    (task : ℕ) (ts : List ℕ)
    → contains task ts ≡ true
    → (i : ℕ) × (rest : List ℕ) × (index_of task ts ≡ some i) × (drop i ts ≡ task ∷ rest)
unfolding index_of
index_of-some task [] h = cc
index_of-some task (t ∷ ts) h = elim (Bool-cases (task == t)) [
  | inl here ↦
      let same : t ≡ task = ground arith in (0, ts, rw (here, index_of) refl, ap (λ u. u ∷ ts) same)
  | inr later ↦
      let (i, rest, at, left) = index_of-some task ts (ground arith) in
      (suc i, rest, rw (later, index_of, at) refl, left)
]

-- For an assigned task `ring_from` gives a ring that starts with it and in which every task stands as
-- often as it is assigned.
pub ring_from_lem :
    (d : WorkerPoolDispatcher) (task : ℕ)
    → contains task d.tasks ≡ true
    → (rest : List ℕ) × (ring_from d task ≡ ok (task ∷ rest))
      × ((k : ℕ) → count k (task ∷ rest) ≡ count k d.tasks)
unfolding ring_from
ring_from_lem d task h =
    let (i, rest, at, left) = index_of-some task d.tasks h in
    let whole : drop i d.tasks ++ take i d.tasks ≡ task ∷ (rest ++ take i d.tasks) =
      ap (λ l. l ++ take i d.tasks) left in
    (
      rest ++ take i d.tasks,
      rw (at, ring_from) (ap ok whole),
      λ k. sym (ap (count k) whole) ∙ count-rotate k i d.tasks,
    )
