-- ===== src/DeliveryJournal/Totals.antt =====
-- The two totals of the journal against its lanes, and the byte guard.
use klein.Base.{
  ℕ, zero, suc, ◌+◌, ◌≤◌, ◌<◌, ◌≡◌, refl, Bool, true, Option, some, List, [], ◌∷◌, ◌++◌, ok, raise,
  memory_error, arith, Option-cases, inl, inr, >>=-eq-ok, get_elem?, set, replicate,
  get_elem?-set_self, lt-length_of_some, ◌↔◌,
}
use klein.Base.Int.{ℤ, pos, ◌<ℤ◌, ◌≤ℤ◌}
use klein.DeliveryJournal.{
  ReplayEntry, Lane, Sender, DeliveryJournal, delivery_journal, configure, empty_lane, lane_at,
  next_sequence, acknowledge, record_delivery, replay_entry, drop_covered, take_covered, total_rows,
  total_bytes,
}
use klein.DeliveryJournal.Events.{Event, landed, forwarded, step, run}

module _ {R : Type 0} where
  -- The sums over all lanes.
  abbrev pub all_bytes : List (Lane R) → ℕ
  all_bytes [] = 0
  all_bytes (l ∷ ls) = total_bytes l.buffer + all_bytes ls

  abbrev pub all_rows : List (Lane R) → ℕ
  all_rows [] = 0
  all_rows (l ∷ ls) = total_rows l.buffer + all_rows ls

  -- The totals agree with the buffers, and a positive guard is kept.
  pub record IsValid (j : DeliveryJournal R) : Type 0 where
    pub bytes : j.buffered_bytes ≡ all_bytes j.lanes
    pub rows : j.buffered_records ≡ all_rows j.lanes
    pub guarded : 0 < j.max_bytes → j.buffered_bytes ≤ j.max_bytes

  all-set :
      (ls : List (Lane R)) (t : ℕ) (l k : Lane R)
      → get_elem? ls t ≡ some l
      → (all_bytes (set ls t k) + total_bytes l.buffer ≡ all_bytes ls + total_bytes k.buffer)
        × (all_rows (set ls t k) + total_rows l.buffer ≡ all_rows ls + total_rows k.buffer)
  all-set [] t l k h = cc
  all-set (x ∷ ls) zero l k h = let same : x ≡ l = cc in rw same (omega arith, omega arith)
  all-set (x ∷ ls) (suc t) l k h =
      let rest = all-set ls t l k h in (omega (arith, rest), omega (arith, rest))

  total-append :
      (es : List (ReplayEntry R)) (e : ReplayEntry R)
      → (total_bytes (es ++ e ∷ []) ≡ total_bytes es + e.size_bytes)
        × (total_rows (es ++ e ∷ []) ≡ total_rows es + e.row_count)
  total-append [] e = (omega arith, omega arith)
  total-append (x ∷ es) e =
      let rest = total-append es e in (omega (arith, rest), omega (arith, rest))

  total-split :
      (a : ℤ) (es : List (ReplayEntry R))
      → (total_bytes (take_covered a es) + total_bytes (drop_covered a es) ≡ total_bytes es)
        × (total_rows (take_covered a es) + total_rows (drop_covered a es) ≡ total_rows es)
  unfolding take_covered drop_covered
  total-split a [] = (refl, refl)
  total-split a (e ∷ es) =
      let rest = total-split a es in (ground (arith, rest), ground (arith, rest))

  acknowledge-IsValid :
      (j j' : DeliveryJournal R) (t : ℕ) (a : ℤ)
      → acknowledge j t a ≡ ok j'
      → IsValid j
      → IsValid j'
  unfolding acknowledge lane_at
  acknowledge-IsValid j j' t a h v = elim (Option-cases (get_elem? j.lanes t)) [
    | inl out ↦ ground arith
    | inr (l, at) ↦
        let lane = record l { buffer = drop_covered a l.buffer; forwarded = a } in
        ground (arith, total-split a l.buffer, all-set j.lanes t l lane at)
  ]

  replicate-empty :
      (n : ℕ) (l : Lane R)
      → l.buffer ≡ []
      → (all_bytes (replicate n l) ≡ 0) × (all_rows (replicate n l) ≡ 0)
  replicate-empty zero l h = (refl, refl)
  replicate-empty (suc n) l h =
      let rest = replicate-empty n l h in (ground (arith, rest), ground (arith, rest))

  configure-IsValid :
      (target_count : ℕ) (enabled : Bool) (sender : Sender) (max_bytes : ℤ) (j : DeliveryJournal R)
      → configure enabled sender max_bytes (delivery_journal target_count) ≡ ok j
      → IsValid j
  unfolding configure delivery_journal
  configure-IsValid target_count enabled sender max_bytes j h =
      ground (arith, replicate-empty target_count (empty_lane {R = R}) refl)

module _ {R : Type 0} (num_rows : R → Option ℕ) (retained_size : List R → ℕ) where
  record_delivery-IsValid :
      (j j' : DeliveryJournal R) (t : ℕ) (records : List R) (sequence : ℕ)
      → record_delivery num_rows retained_size j t records sequence ≡ ok j'
      → IsValid j
      → IsValid j'
  unfolding record_delivery lane_at
  record_delivery-IsValid j j' t records sequence h v = elim (Option-cases (get_elem? j.lanes t)) [
    | inl out ↦ absurd (ground arith)
    | inr (l, at) ↦
        let entry = replay_entry num_rows retained_size sequence records in
        let kept = record l { buffer = l.buffer ++ entry ∷ []; sequence = sequence } in
        let covered = record l { sequence = sequence } in
        ground (
          arith,
          at,
          total-append l.buffer entry,
          all-set j.lanes t l kept at,
          all-set j.lanes t l covered at,
        )
  ]

  run-keeps :
      (es : List (Event R)) (j j' : DeliveryJournal R)
      → run num_rows retained_size j es ≡ ok j'
      → IsValid j
      → IsValid j'
  unfolding run step
  run-keeps [] j j' h v = let same : j' ≡ j = cc in rw same v
  run-keeps (landed t records ∷ es) j j' h v =
      let (k, one, more) = >>=-eq-ok (step num_rows retained_size j (landed t records)) _ h in
      let (sequence, peeked, stored) = >>=-eq-ok (next_sequence j t) _ one in
      run-keeps es k j' more (record_delivery-IsValid j k t records sequence stored v)
  run-keeps (forwarded t a ∷ es) j j' h v =
      let (k, one, more) = >>=-eq-ok (step num_rows retained_size j (forwarded t a)) _ h in
      run-keeps es k j' more (acknowledge-IsValid j k t a one v)

  -- After any events that raised nothing on a configured journal, `buffered_bytes` and
  -- `buffered_record_count` are the sums over what the buffers hold, and the retained bytes are within
  -- a positive guard.
  pub run-IsValid :
      (target_count : ℕ) (enabled : Bool) (sender : Sender) (max_bytes : ℤ) (es : List (Event R))
      (j j' : DeliveryJournal R)
      → configure enabled sender max_bytes (delivery_journal target_count) ≡ ok j
      → run num_rows retained_size j es ≡ ok j'
      → IsValid j'
  run-IsValid target_count enabled sender max_bytes es j j' start h =
      run-keeps es j j' h (configure-IsValid target_count enabled sender max_bytes j start)

  -- A batch is refused exactly when it would be retained and would take the journal over its guard.
  pub record_delivery-eq-raise_iff :
      (j : DeliveryJournal R) (t sequence : ℕ) (records : List R) (l : Lane R)
      → get_elem? j.lanes t ≡ some l
      → (record_delivery num_rows retained_size j t records sequence ≡ raise memory_error) ↔ (
          (j.enabled ≡ true)
          × (l.forwarded <ℤ pos sequence)
          × (0 < j.max_bytes)
          × (j.max_bytes < j.buffered_bytes + retained_size records))
  unfolding record_delivery lane_at
  record_delivery-eq-raise_iff j t sequence records l at = (λ h. ground arith, λ h. ground arith)

module _ {R : Type 0} where
  -- Acknowledgements may be repeated and may arrive late: after one, any that is not newer changes
  -- nothing.
  pub acknowledge-acknowledge :
      (j j' : DeliveryJournal R) (t : ℕ) (a b : ℤ)
      → acknowledge j t a ≡ ok j'
      → b ≤ℤ a
      → acknowledge j' t b ≡ ok j'
  unfolding acknowledge lane_at
  acknowledge-acknowledge j j' t a b h older = elim (Option-cases (get_elem? j.lanes t)) [
    | inl out ↦ ground arith
    | inr (l, at) ↦
        let lane = record l { buffer = drop_covered a l.buffer; forwarded = a } in
        ground (arith, get_elem?-set_self j.lanes t lane, lt-length_of_some j.lanes t l at)
  ]
