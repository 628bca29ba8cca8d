-- ===== src/DeliveryJournal/Replay.antt =====
-- What the journal can replay after any use by its sender, against the history of each target.
use klein.Base.{
  ℕ, zero, suc, ◌+◌, ◌<◌, ◌≡◌, ◌≢◌, refl, ap, ◌∙◌, true, false, Option, some, List, [], ◌∷◌, ◌++◌,
  arith, length, Bool-cases, Option-cases, inl, inr, ◌==◌, ok, >>=-eq-ok, get_elem?, set, replicate,
  get_elem?-set_cases, length-le_of_none, length-replicate, length-set, subst,
}
use klein.Base.Int.{ℤ, pos, ltb_ℤ, leb_ℤ}
use klein.DeliveryJournal.{
  Lane, Sender, DeliveryJournal, delivery_journal, configure, empty_lane, lane_at, next_sequence,
  acknowledge, pending_for, record_delivery, replay_entry, drop_covered,
}
use klein.DeliveryJournal.Events.{Event, landed, forwarded, step, run, observe, history, target_of}
use klein.DeliveryJournal.Lanes.{
  History, Follows, no_history, uncovered, acknowledged, delivered-Follows, acknowledged-Follows,
  pairs,
}

module _ {R : Type 0} (num_rows : R → Option ℕ) (retained_size : List R → ℕ) where
  -- Every lane follows the history of its target.
  abbrev AllFollow : DeliveryJournal R → (ℕ → History R) → Type 0
  AllFollow j hs = (t : ℕ) (l : Lane R) → get_elem? j.lanes t ≡ some l → Follows l (hs t)

  -- One lane is replaced.
  set-Follows :
      (ls : List (Lane R)) (t : ℕ) (l : Lane R) (hs hs' : ℕ → History R)
      → ((u : ℕ) (k : Lane R) → get_elem? ls u ≡ some k → Follows k (hs u))
      → Follows l (hs' t)
      → ((u : ℕ) → t ≢ u → hs' u ≡ hs u)
      → (u : ℕ) (k : Lane R) → get_elem? (set ls t l) u ≡ some k
      → Follows k (hs' u)
  set-Follows ls t l hs hs' all here others u k e = elim (get_elem?-set_cases ls t l u k e) [
    | inl (same, new) ↦ rw (new, ← same) here
    | inr (other, old) ↦ rw (others u other) (all u k old)
  ]

  -- A landed batch that is recorded replaces the lane of its target.
  landed_lanes :
      (j j' : DeliveryJournal R) (target : ℕ) (records : List R) (l : Lane R)
      → j.enabled ≡ true
      → get_elem? j.lanes target ≡ some l
      → step num_rows retained_size j (landed target records) ≡ ok j'
      → let entry = replay_entry num_rows retained_size (l.sequence + 1) records in
        (j'.enabled ≡ true)
        × (ltb_ℤ l.forwarded (pos (l.sequence + 1)) ≡ true
            → j'.lanes
              ≡ set j.lanes target
                  (record l { buffer = l.buffer ++ entry ∷ []; sequence = l.sequence + 1 }))
        × (ltb_ℤ l.forwarded (pos (l.sequence + 1)) ≡ false
            → j'.lanes ≡ set j.lanes target (record l { sequence = l.sequence + 1 }))
  unfolding step next_sequence record_delivery lane_at
  landed_lanes j j' target records l on at h =
      (ground arith, λ new. ground arith, λ old. ground arith)

  forwarded_lanes :
      (j j' : DeliveryJournal R) (target : ℕ) (a : ℤ) (l : Lane R)
      → j.enabled ≡ true
      → get_elem? j.lanes target ≡ some l
      → step num_rows retained_size j (forwarded target a) ≡ ok j'
      → (j'.enabled ≡ true)
        × (leb_ℤ a l.forwarded ≡ true → j'.lanes ≡ j.lanes)
        × (leb_ℤ a l.forwarded ≡ false
            → j'.lanes
              ≡ set j.lanes target (record l { buffer = drop_covered a l.buffer; forwarded = a }))
  unfolding step acknowledge lane_at
  forwarded_lanes j j' target a l on at h =
      (ground arith, λ stale. ground arith, λ newer. ground arith)

  step-target :
      (j j' : DeliveryJournal R) (e : Event R)
      → j.enabled ≡ true
      → step num_rows retained_size j e ≡ ok j'
      → (l : Lane R) × (get_elem? j.lanes (target_of e) ≡ some l)
  unfolding step next_sequence acknowledge lane_at
  step-target j j' (landed target records) on h = elim (Option-cases (get_elem? j.lanes target)) [
    | inl out ↦ absurd (ground arith)
    | inr found ↦ found
  ]
  step-target j j' (forwarded target a) on h = elim (Option-cases (get_elem? j.lanes target)) [
    | inl out ↦ absurd (ground arith)
    | inr found ↦ found
  ]

  -- A stale acknowledgement leaves every lane and every history alone.
  stale-Follows :
      (ls : List (Lane R)) (target : ℕ) (hs : ℕ → History R) (a : ℤ) (l : Lane R)
      → ((u : ℕ) (k : Lane R) → get_elem? ls u ≡ some k → Follows k (hs u))
      → get_elem? ls target ≡ some l
      → Follows l (acknowledged (hs target) a)
      → (t : ℕ) (k : Lane R) → get_elem? ls t ≡ some k
      → Follows k (observe t (hs t) (forwarded target a))
  stale-Follows ls target hs a l all at same t k e = elim (Bool-cases (t == target)) [
    | inl hit ↦
        let here : t ≡ target = ground arith in
        let lane : k ≡ l = cc (ap (get_elem? ls) here, e, at) in rw (hit, lane, here) same
    | inr miss ↦ rw miss (all t k e)
  ]

  step-Follows :
      (j j' : DeliveryJournal R) (hs : ℕ → History R) (e : Event R)
      → j.enabled ≡ true
      → AllFollow j hs
      → step num_rows retained_size j e ≡ ok j'
      → (j'.enabled ≡ true) × AllFollow j' (λ t. observe t (hs t) e)
  step-Follows j j' hs (landed target records) on all h =
      let (l, at) = step-target j j' (landed target records) on h in
      let (on', new_lanes, old_lanes) = landed_lanes j j' target records l on at h in
      let entry = replay_entry num_rows retained_size (l.sequence + 1) records in
      let (kept, covered) = delivered-Follows l (hs target) entry (all target l at) refl in
      let others : (u : ℕ) → target ≢ u → observe u (hs u) (landed target records) ≡ hs u =
        λ u ne. ground arith in
      elim (Bool-cases (ltb_ℤ l.forwarded (pos (l.sequence + 1)))) [
        | inl new ↦ (
          on',
          rw (new_lanes new)
              (set-Follows j.lanes target _ hs _ all (ground (arith, kept new)) others),
        )
        | inr old ↦ (
          on',
          rw (old_lanes old)
              (set-Follows j.lanes target _ hs _ all (ground (arith, covered old)) others),
        )
      ]
  step-Follows j j' hs (forwarded target a) on all h =
      let (l, at) = step-target j j' (forwarded target a) on h in
      let (on', stale_lanes, newer_lanes) = forwarded_lanes j j' target a l on at h in
      let (same, dropped) = acknowledged-Follows l (hs target) a (all target l at) in
      let others : (u : ℕ) → target ≢ u → observe u (hs u) (forwarded target a) ≡ hs u =
        λ u ne. ground arith in
      elim (Bool-cases (leb_ℤ a l.forwarded)) [
        | inl stale ↦
            (on', rw (stale_lanes stale) (stale-Follows j.lanes target hs a l all at (same stale)))
        | inr newer ↦ (
          on',
          rw (newer_lanes newer)
              (set-Follows j.lanes target _ hs _ all (ground (arith, dropped newer)) others),
        )
      ]

  run-Follows :
      (es : List (Event R)) (j j' : DeliveryJournal R) (hs : ℕ → History R)
      → j.enabled ≡ true
      → AllFollow j hs
      → run num_rows retained_size j es ≡ ok j'
      → AllFollow j' (λ t. history t (hs t) es)
  unfolding run
  run-Follows [] j j' hs on all h = let same : j ≡ j' = cc in subst (λ k. AllFollow k hs) same all
  run-Follows (e ∷ es) j j' hs on all h =
      let (k, one, more) = >>=-eq-ok (step num_rows retained_size j e) _ h in
      let (on', all') = step-Follows j k hs e on all one in
      run-Follows es k j' (λ t. observe t (hs t) e) on' all' more

  replicate-Follows :
      (n : ℕ) (t : ℕ) (l : Lane R)
      → get_elem? (replicate n empty_lane) t ≡ some l
      → Follows l no_history
  replicate-Follows zero t l h = cc
  replicate-Follows (suc n) zero l h =
      let fresh : empty_lane ≡ l = cc in
      subst (λ k. Follows k no_history) fresh
        (record { numbered = refl; acknowledged = refl; retained = refl; rising = tt })
  replicate-Follows (suc n) (suc t) l h = replicate-Follows n t l h

  step-length :
      (j j' : DeliveryJournal R) (e : Event R)
      → step num_rows retained_size j e ≡ ok j'
      → length j'.lanes ≡ length j.lanes
  unfolding step next_sequence acknowledge record_delivery lane_at
  step-length j j' (landed target records) h = grind (arith, length-set)
  step-length j j' (forwarded target a) h = grind (arith, length-set)

  run-length :
      (es : List (Event R)) (j j' : DeliveryJournal R)
      → run num_rows retained_size j es ≡ ok j'
      → length j'.lanes ≡ length j.lanes
  unfolding run
  run-length [] j j' h = let same : j' ≡ j = cc in rw same refl
  run-length (e ∷ es) j j' h =
      let (k, one, more) = >>=-eq-ok (step num_rows retained_size j e) _ h in
      run-length es k j' more ∙ step-length j k e one

  configure_lanes :
      (target_count : ℕ) (sender : Sender) (max_bytes : ℤ) (j : DeliveryJournal R)
      → configure true sender max_bytes (delivery_journal target_count) ≡ ok j
      → (j.enabled ≡ true) × (j.lanes ≡ replicate target_count empty_lane)
  unfolding configure delivery_journal
  configure_lanes target_count sender max_bytes j h = ground arith

  pending_for_lane :
      (j : DeliveryJournal R) (t : ℕ) (l : Lane R)
      → get_elem? j.lanes t ≡ some l
      → pending_for j t ≡ ok (pairs l.buffer)
  unfolding pending_for lane_at
  pending_for_lane j t l at = rw (pending_for, lane_at, at) refl

  -- The journal of an enabled edge, after any landed batches and acknowledgements that raised
  -- nothing: `pending_for` of a target gives exactly the batches that landed there and that no
  -- acknowledgement covers, under their sequences and in order.
  pub pending_for-run :
      (target_count : ℕ) (sender : Sender) (max_bytes : ℤ) (es : List (Event R))
      (j j' : DeliveryJournal R) (t : ℕ)
      → configure true sender max_bytes (delivery_journal target_count) ≡ ok j
      → run num_rows retained_size j es ≡ ok j'
      → t < target_count
      → let h = history t no_history es in pending_for j' t ≡ ok (uncovered h.acked h.log)
  pending_for-run target_count sender max_bytes es j j' t start h within =
      let (on, lanes) = configure_lanes target_count sender max_bytes j start in
      let first : AllFollow j (λ _. no_history) =
        λ u l e. replicate-Follows target_count u l (cc (ap (λ ls. get_elem? ls u) lanes, e)) in
      let count : length j'.lanes ≡ target_count =
        run-length es j j' h ∙ ap length lanes ∙ length-replicate target_count empty_lane in
      elim (Option-cases (get_elem? j'.lanes t)) [
        | inl out ↦ absurd (omega (arith, count, length-le_of_none j'.lanes t out))
        | inr (l, at) ↦
            pending_for_lane j' t l at ∙ ap ok (run-Follows es j j' _ on first h t l at).retained
      ]
