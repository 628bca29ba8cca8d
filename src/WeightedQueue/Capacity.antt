-- ===== src/WeightedQueue/Capacity.antt =====
-- The counters agree with the items, and ordinary data never exceeds the weight limit by more than
-- one item that has the queue for itself.
use klein.Base.{
  ℕ, suc, ◌+◌, ◌≤◌, ◌≡◌, ◌⊎◌, inl, inr, Bool, true, Option, some, List, [], ◌∷◌, ◌++◌, ok, arith,
  length, length-append, Option-cases,
}
use klein.Base.Int.{ℤ}
use klein.WeightedQueue.{
  qsize, byte_size, envelope_count, Entry, WeightedQueue, Reservation, weighted_queue, take_at,
  take_item, without_entry, get, get_matching, first_index, bind, admit, can_admit, fits,
}
use klein.WeightedQueue.Order.{Splits, take_at-Splits}
use klein.WeightedQueue.Steps.{
  DataStep, putting, trying, getting, matching, binding, outside, Step, plain, controlling,
  DataReach, here, next, Reach,
}
use klein.WeightedQueue.Admission.{Admitted, put-Admitted, try_put-Admitted, put_control-Added}

module _ {T : Type 0} where
  abbrev pub weights : List (Entry T) → ℕ
  weights [] = 0
  weights (e ∷ es) = e.weight + weights es

  abbrev pub sizes : List (Entry T) → ℕ
  sizes [] = 0
  sizes (e ∷ es) = e.size_bytes + sizes es

  weights-append : (xs ys : List (Entry T)) → weights (xs ++ ys) ≡ weights xs + weights ys
  weights-append [] ys = omega arith
  weights-append (x ∷ xs) ys = omega (arith, weights-append xs ys)

  sizes-append : (xs ys : List (Entry T)) → sizes (xs ++ ys) ≡ sizes xs + sizes ys
  sizes-append [] ys = omega arith
  sizes-append (x ∷ xs) ys = omega (arith, sizes-append xs ys)

  weights-Splits :
      (xs : List (Entry T)) (y : Entry T) (ys : List (Entry T))
      → Splits xs y ys
      → (weights xs ≡ y.weight + weights ys)
        × (sizes xs ≡ y.size_bytes + sizes ys)
        × (length xs ≡ suc (length ys))
  weights-Splits xs y ys s =
      rw (s.whole, s.rest)
        (
          omega (arith, weights-append s.before (y ∷ s.after), weights-append s.before s.after),
          omega (arith, sizes-append s.before (y ∷ s.after), sizes-append s.before s.after),
          omega (arith, length-append s.before (y ∷ s.after), length-append s.before s.after),
        )

module _ {T X : Type 0} where
  -- The two counters are the sums over the queued items.
  pub record IsValid (q : WeightedQueue T X) : Type 0 where
    pub weighed : q.weight ≡ weights q.items
    pub sized : q.bytes ≡ sizes q.items

  -- The queue keeps its weight limit, or holds a single item.
  abbrev pub IsBounded : WeightedQueue T X → Type 0
  IsBounded q = (q.weight ≤ q.max_weight) ⊎ (length q.items ≤ 1)

  abbrev Good : WeightedQueue T X → Type 0
  Good q = IsValid q × IsBounded q

  admit-IsValid :
      (q : WeightedQueue T X) (item : T) (w s : ℕ) → IsValid q → IsValid (admit q item w s)
  unfolding admit
  admit-IsValid q item w s v = record {
    weighed = omega (
      arith,
      weights-append q.items (record { item = item; weight = w; size_bytes = s } ∷ []),
      v.weighed,
    );
    sized = omega (
      arith,
      sizes-append q.items (record { item = item; weight = w; size_bytes = s } ∷ []),
      v.sized,
    );
  }

  bounded :
      (q : WeightedQueue T X) (e : Entry T) (rest : List (Entry T))
      → (weights q.items ≡ e.weight + weights rest)
        × (sizes q.items ≡ e.size_bytes + sizes rest)
        × (length q.items ≡ suc (length rest))
      → Good q
      → IsBounded (without_entry q e rest)
  unfolding without_entry
  bounded q e rest s (v, inl light) = inl (omega (arith, s, v.weighed))
  bounded q e rest s (v, inr single) = inr (omega (arith, s))

  take_item-Good :
      (q q' : WeightedQueue T X) (i : ℕ) (x : T)
      → take_item q i ≡ some (x, q')
      → (IsValid q → IsValid q') × (Good q → IsBounded q')
  unfolding take_item without_entry
  take_item-Good q q' i x h = elim (Option-cases (take_at q.items i)) [
    | inl gone ↦ absurd (ground arith)
    | inr ((e, rest), at) ↦
        let s = weights-Splits q.items e rest (take_at-Splits q.items i e rest at) in
        let after : q' ≡ without_entry q e rest = ground (arith, h, at) in
        rw after (
          λ v. record { weighed = omega (arith, s, v.weighed); sized = omega (arith, s, v.sized) },
          λ g. bounded q e rest s g,
        )
  ]

  admit-IsBounded :
      (q : WeightedQueue T X) (item : T) (w s : ℕ)
      → can_admit q w s ≡ ok true
      → IsBounded (admit q item w s)
  unfolding can_admit admit fits
  admit-IsBounded q item w s h =
      ground
        (arith, length-append q.items (record { item = item; weight = w; size_bytes = s } ∷ []))

  take-Good :
      (q q' : WeightedQueue T X) (p : T → Bool) (x : T)
      → (get q ≡ some (x, q')) ⊎ (get_matching q p ≡ some (x, q'))
      → (IsValid q → IsValid q') × (Good q → IsBounded q')
  unfolding get get_matching
  take-Good q q' p x (inl h) = take_item-Good q q' 0 x h
  take-Good q q' p x (inr h) = elim (Option-cases (first_index p q.items)) [
    | inl gone ↦ absurd (ground arith)
    | inr (i, at) ↦ take_item-Good q q' i x (ground (arith, h, at))
  ]

  bind-same :
      (q q' : WeightedQueue T X) (r : Reservation T X)
      → bind r q ≡ ok q'
      → (IsValid q → IsValid q') × (Good q → IsBounded q')
  unfolding bind
  bind-same q q' r h = (λ v. ground arith, λ g. ground (arith, g.1))

  Admitted-Good : (q q' : WeightedQueue T X) (item : T) → Admitted q q' item → Good q → Good q'
  Admitted-Good q q' item a g =
      rw a.result
        (admit-IsValid q item a.weight a.size g.0, admit-IsBounded q item a.weight a.size a.room)

  -- Every data step keeps the counters right and the capacity bounded.
  DataStep-Good : {q q' : WeightedQueue T X} → DataStep q q' → Good q → Good q'
  DataStep-Good {q} {q'} (putting item h) g = Admitted-Good q q' item (put-Admitted q q' item h) g
  DataStep-Good {q} {q'} (trying item done h) g = elim (try_put-Admitted q q' item done h) [
    | inl (_, a) ↦ Admitted-Good q q' item a g
    | inr (_, same) ↦ rw same g
  ]
  DataStep-Good {q} {q'} (getting x h) g =
      let t = take-Good q q' (λ _. true) x (inl h) in (t.0 g.0, t.1 g)
  DataStep-Good {q} {q'} (matching p x h) g = let t = take-Good q q' p x (inr h) in (t.0 g.0, t.1 g)
  DataStep-Good {q} {q'} (binding r h) g = let t = bind-same q q' r h in (t.0 g.0, t.1 g)
  DataStep-Good {q} {q'} (outside x e) g =
      rw e (record { weighed = g.0.weighed; sized = g.0.sized }, g.1)

  Step-IsValid : {q q' : WeightedQueue T X} → Step q q' → IsValid q → IsValid q'
  Step-IsValid {q} {q'} (plain (putting item h)) v =
      let a = put-Admitted q q' item h in rw a.result (admit-IsValid q item a.weight a.size v)
  Step-IsValid {q} {q'} (plain (trying item done h)) v = elim (try_put-Admitted q q' item done h) [
    | inl (_, a) ↦ rw a.result (admit-IsValid q item a.weight a.size v)
    | inr (_, same) ↦ rw same v
  ]
  Step-IsValid {q} {q'} (plain (getting x h)) v = (take-Good q q' (λ _. true) x (inl h)).0 v
  Step-IsValid {q} {q'} (plain (matching p x h)) v = (take-Good q q' p x (inr h)).0 v
  Step-IsValid {q} {q'} (plain (binding r h)) v = (bind-same q q' r h).0 v
  Step-IsValid {q} {q'} (plain (outside x e)) v =
      rw e (record { weighed = v.weighed; sized = v.sized })
  Step-IsValid {q} {q'} (controlling item h) v =
      let a = put_control-Added q q' item h in rw a.result (admit-IsValid q item a.weight a.size v)

  Reach-keeps : {q q' : WeightedQueue T X} → IsValid q → Reach q q' → IsValid q'
  Reach-keeps v here = v
  Reach-keeps v (next r st) = Step-IsValid st (Reach-keeps v r)

  DataReach-keeps : {q q' : WeightedQueue T X} → Good q → DataReach q q' → Good q'
  DataReach-keeps g here = g
  DataReach-keeps g (next r st) = DataStep-Good st (DataReach-keeps g r)

  new-Good :
      (max_weight : ℤ) (weigh : T → ℤ) (max_bytes : Option ℤ) (size_of : Option (T → ℤ)) (x : X)
      (q : WeightedQueue T X)
      → weighted_queue max_weight weigh max_bytes size_of x ≡ ok q
      → Good q
  unfolding weighted_queue
  new-Good max_weight weigh max_bytes size_of x q h = ground arith

  -- After any calls on a new queue, `qsize` and `byte_size` are the sums of the weights and of the
  -- sizes of the queued items.
  pub Reach-IsValid :
      (max_weight : ℤ) (weigh : T → ℤ) (max_bytes : Option ℤ) (size_of : Option (T → ℤ)) (x : X)
      (q q' : WeightedQueue T X)
      → weighted_queue max_weight weigh max_bytes size_of x ≡ ok q
      → Reach q q'
      → (qsize q' ≡ weights q'.items) × (byte_size q' ≡ sizes q'.items)
  unfolding qsize byte_size
  Reach-IsValid max_weight weigh max_bytes size_of x q q' h r =
      let v = Reach-keeps (new-Good max_weight weigh max_bytes size_of x q h).0 r in
      (v.weighed, v.sized)

  -- After any calls but `put_control` on a new queue, the queued weight is within the limit, or a
  -- single item is queued.
  pub DataReach-IsBounded :
      (max_weight : ℤ) (weigh : T → ℤ) (max_bytes : Option ℤ) (size_of : Option (T → ℤ)) (x : X)
      (q q' : WeightedQueue T X)
      → weighted_queue max_weight weigh max_bytes size_of x ≡ ok q
      → DataReach q q'
      → (qsize q' ≤ q'.max_weight) ⊎ (envelope_count q' ≤ 1)
  unfolding qsize envelope_count
  DataReach-IsBounded max_weight weigh max_bytes size_of x q q' h r =
      (DataReach-keeps (new-Good max_weight weigh max_bytes size_of x q h) r).1
