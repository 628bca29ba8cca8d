-- ===== src/WeightedQueue/Order.antt =====
-- The order in which items leave: the oldest first, or the oldest that is eligible.
use klein.Base.{
  ℕ, zero, suc, ◌≡◌, refl, ap, ◌∙◌, Bool, true, false, Option, none, some, List, [], ◌∷◌, ◌++◌, map,
  map-append, ok, inl, inr, arith, Option-cases, Bool-cases,
}
use klein.Base.Predicates.{All, All-map}
use klein.WeightedQueue.{
  Entry, WeightedQueue, take_at, first_index, take_item, without_entry, put, get, get_matching,
  admit,
}
use klein.WeightedQueue.Admission.{put-Admitted}

-- What stands at a place of a list, and the list without it.
pub record Splits {ℓ} {A : Type ℓ} (xs : List A) (y : A) (ys : List A) : Type ℓ where
  pub before : List A
  pub after : List A
  pub whole : xs ≡ before ++ y ∷ after
  pub rest : ys ≡ before ++ after

pub take_at-Splits {ℓ} :
    {A : Type ℓ} (xs : List A) (i : ℕ) (y : A) (ys : List A)
    → take_at xs i ≡ some (y, ys)
    → Splits xs y ys
unfolding take_at
take_at-Splits [] i y ys e = cc
take_at-Splits (x ∷ xs) zero y ys e = record { before = []; after = xs; whole = cc; rest = cc }
take_at-Splits (x ∷ xs) (suc i) y ys e = elim (Option-cases (take_at xs i)) [
  | inl gone ↦ absurd (ground arith)
  | inr ((z, zs), at) ↦
      let s = take_at-Splits xs i z zs at in
      record {
        before = x ∷ s.before;
        after = s.after;
        whole = ground (arith, s.whole);
        rest = ground (arith, s.rest);
      }
]

module _ {T : Type 0} where
  -- The first eligible entry, with the entries around it.
  pub record FirstMatch (p : T → Bool) (es : List (Entry T)) (i : ℕ) : Type 0 where
    pub found : Entry T
    pub before : List (Entry T)
    pub after : List (Entry T)
    pub taken : take_at es i ≡ some (found, before ++ after)
    pub whole : es ≡ before ++ found ∷ after
    pub passed : All (λ e. p e.item ≡ false) before
    pub eligible : p found.item ≡ true

  first_index-none :
      (p : T → Bool) (es : List (Entry T))
      → first_index p es ≡ none
      → All (λ e. p e.item ≡ false) es
  unfolding first_index
  first_index-none p [] h = tt
  first_index-none p (e ∷ es) h = ground (arith, first_index-none p es)

  first_index-some :
      (p : T → Bool) (es : List (Entry T)) (i : ℕ) → first_index p es ≡ some i → FirstMatch p es i
  unfolding first_index take_at
  first_index-some p [] i h = cc
  first_index-some p (e ∷ es) i h = elim (Bool-cases (p e.item)) [
    | inl hit ↦
        let first : i ≡ 0 = ground (arith, hit) in
        record {
          found = e;
          before = [];
          after = es;
          taken = rw first refl;
          whole = refl;
          passed = tt;
          eligible = hit;
        }
    | inr miss ↦ elim (Option-cases (first_index p es)) [
      | inl gone ↦ absurd (ground arith)
      | inr (j, at) ↦
          let m = first_index-some p es j at in
          let later : i ≡ suc j = ground (arith, miss, at) in
          record {
            found = m.found;
            before = e ∷ m.before;
            after = m.after;
            taken = rw (later, m.taken, take_at) refl;
            whole = ap (λ l. e ∷ l) m.whole;
            passed = (miss, m.passed);
            eligible = m.eligible;
          }
    ]
  ]

module _ {T X : Type 0} where
  -- The queue as its callers see it: its items, the next one first.
  abbrev pub view : WeightedQueue T X → List T
  view q = map (λ e. e.item) q.items

  -- A producer whose round succeeds has put its item behind all others.
  pub view-put :
      (q q' : WeightedQueue T X) (item : T)
      → put q item ≡ ok (some q')
      → view q' ≡ view q ++ item ∷ []
  unfolding admit
  view-put q q' item h = let a = put-Admitted q q' item h in rw (a.result, map-append) refl

  get_by :
      (q : WeightedQueue T X) (es : List (Entry T))
      → q.items ≡ es
      → (map (λ e. e.item) es ≡ [] → get q ≡ none)
        × ((x : T) (xs : List T)
            → map (λ e. e.item) es ≡ x ∷ xs
            → (q' : WeightedQueue T X) × (get q ≡ some (x, q')) × (view q' ≡ xs))
  unfolding get take_item take_at without_entry
  get_by q [] h = (λ _. rw (h, get, take_item) refl, λ x xs e. cc)
  get_by q (e ∷ es) h =
      (λ n. cc, λ x xs m. (without_entry q e es, ground (arith, h, m), ground (arith, m)))

  -- `get` waits while the queue is empty; otherwise it hands out the oldest item and leaves the
  -- others in their order.
  pub get_lem :
      (q : WeightedQueue T X)
      → (view q ≡ [] → get q ≡ none)
        × ((x : T) (xs : List T)
            → view q ≡ x ∷ xs
            → (q' : WeightedQueue T X) × (get q ≡ some (x, q')) × (view q' ≡ xs))
  get_lem q = get_by q q.items refl

  -- What a round of `get_matching` has to return.
  abbrev pub Selects : (T → Bool) → List T → Option (T × WeightedQueue T X) → Type 0
  Selects p xs none = All (λ x. p x ≡ false) xs
  Selects p xs (some (x, q')) =
      (before after : List T) × (xs ≡ before ++ x ∷ after)
      × (view q' ≡ before ++ after)
      × All (λ y. p y ≡ false) before
      × (p x ≡ true)

  -- `get_matching` waits exactly while no item is eligible; otherwise it hands out the oldest
  -- eligible item, and the items before and behind it keep their order.
  pub get_matching-Selects :
      (q : WeightedQueue T X) (p : T → Bool) → Selects p (view q) (get_matching q p)
  unfolding get_matching take_item without_entry
  get_matching-Selects q p = elim (Option-cases (first_index p q.items)) [
    | inl gone ↦
        rw (gone, get_matching) (All-map _ (λ e. e.item) q.items (first_index-none p q.items gone))
    | inr (i, at) ↦
        let m = first_index-some p q.items i at in
        rw (at, get_matching, m.taken, take_item)
          (
            map (λ e. e.item) m.before,
            map (λ e. e.item) m.after,
            ap (map (λ e. e.item)) m.whole ∙ map-append _ m.before _,
            map-append _ m.before m.after,
            All-map _ (λ e. e.item) m.before m.passed,
            m.eligible,
          )
  ]
