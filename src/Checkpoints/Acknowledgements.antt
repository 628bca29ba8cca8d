-- ===== src/Checkpoints/Acknowledgements.antt =====
-- src/ray/klein/runtime/coordinator/checkpoint.py: the acknowledgements of one checkpoint. Vertex
-- ids, reasons and metric names are only compared, so they are numbers; the time is a parameter.
use klein.Base.{
  ℕ, ◌+◌, ◌≡◌, refl, ◌∙◌, Bool, true, false, not, ◌&&◌, ◌||◌, Option, some, List, [], ◌∷◌, arith,
  ◌==◌, if◌then◌else◌, length, Bool-cases, inl, inr, ==_iff, subst,
}
use klein.Base.Int.{ℤ, pos, ltb_ℤ, leb_ℤ}
use klein.Base.Dict.{Dict, insert}
use klein.Base.Predicates.{contains, Distinct}

pub data CheckpointStatus : Type 0 where
  created : CheckpointStatus
  in_progress : CheckpointStatus
  notifying : CheckpointStatus
  completed : CheckpointStatus
  failed : CheckpointStatus

-- A set is the list of its members, the last one first.
pub record Checkpoint : Type 0 where
  pub barrier_id : ℕ
  pub required_acknowledgements : ℤ
  pub trigger_sources : List ℕ
  pub coordinated : Bool
  pub domain_id : Option ℕ
  pub required_committers : List ℕ
  pub acknowledgements : ℕ
  pub reason : ℕ
  pub triggered_at_ms : Option ℕ
  pub last_acknowledged_at_ms : Option ℕ
  pub completed_at_ms : Option ℕ
  pub status : CheckpointStatus
  pub acknowledged_by : List ℕ
  pub started_sources : List ℕ
  pub eof_sources : List ℕ
  pub operator_metrics : Dict (Dict ℕ)

-- `set.add`
abbrev pub add : ℕ → List ℕ → List ℕ
add a xs = if contains a xs then xs else a ∷ xs

unfoldable pub mark_complete : ℕ → Checkpoint → Checkpoint
mark_complete now_ms c = record c {
  last_acknowledged_at_ms = some now_ms;
  completed_at_ms = some now_ms;
  status = completed;
}

unfoldable pub mark_failed : ℕ → ℕ → Checkpoint → Checkpoint
mark_failed reason now_ms c = record c {
  last_acknowledged_at_ms = some now_ms;
  completed_at_ms = some now_ms;
  status = failed;
  reason = reason;
}

unfoldable pub mark_in_progress : ℕ → Checkpoint → Checkpoint
mark_in_progress now_ms c = record c { triggered_at_ms = some now_ms; status = in_progress }

unfoldable pub mark_notifying : Checkpoint → Checkpoint
mark_notifying c = record c { status = notifying }

-- `self.status == CheckpointStatus.NOTIFYING`
abbrev pub is_notifying : CheckpointStatus → Bool
is_notifying created = false
is_notifying in_progress = false
is_notifying notifying = true
is_notifying completed = false
is_notifying failed = false

-- `not required_committers or committer in required_committers`
abbrev pub eligible : List ℕ → ℕ → Bool
eligible [] committer = true
eligible (r ∷ rs) committer = contains committer (r ∷ rs)

-- `acknowledge`
unfoldable pub acknowledge : Checkpoint → ℕ → ℕ → Bool × Checkpoint
unfolding mark_notifying
acknowledge c committer now_ms =
    if not (eligible c.required_committers committer)
    then (false, c)
    else if contains committer c.acknowledged_by
    then (is_notifying c.status, c)
    else (let c' = record c {
      acknowledged_by = add committer c.acknowledged_by;
      last_acknowledged_at_ms = some now_ms;
      acknowledgements = c.acknowledgements + 1;
    } in
        let c'' =
          if ltb_ℤ (pos 0) c.required_acknowledgements
            && leb_ℤ c.required_acknowledgements (pos c'.acknowledgements)
          then mark_notifying c'
          else c' in
        (is_notifying c''.status, c''))

-- `mark_source_started`
unfoldable pub mark_source_started : Checkpoint → ℕ → Bool → Bool × Checkpoint
mark_source_started c source is_eof =
    if not (contains source c.trigger_sources) then (false, c) else (
      true,
      record c {
        started_sources = add source c.started_sources;
        eof_sources = if is_eof then add source c.eof_sources else c.eof_sources;
      },
    )

pub record_operator_metrics : Checkpoint → ℕ → Dict ℕ → Checkpoint
record_operator_metrics c vertex_id metrics = record c {
  operator_metrics = insert vertex_id metrics c.operator_metrics;
}

-- Reports of committers, in the order of their arrival, each with its time.
unfoldable pub acknowledge_all : Checkpoint → List (ℕ × ℕ) → Checkpoint
acknowledge_all c [] = c
acknowledge_all c ((committer, now_ms) ∷ rest) =
    acknowledge_all (acknowledge c committer now_ms).1 rest

-- Some report is from `k`.
abbrev pub reported : ℕ → List (ℕ × ℕ) → Bool
reported k [] = false
reported k ((committer, now_ms) ∷ rest) = (k == committer) || reported k rest

-- The checkpoint has been acknowledged by the eligible committers that `heard` picks out.
abbrev pub Tallies : Checkpoint → (ℕ → Bool) → Type 0
Tallies c heard =
    Distinct c.acknowledged_by
    × ((k : ℕ) → contains k c.acknowledged_by ≡ (heard k && eligible c.required_committers k))
    × (c.acknowledgements ≡ length c.acknowledged_by)
    × (is_notifying c.status ≡ (
        ltb_ℤ (pos 0) c.required_acknowledgements
        && leb_ℤ c.required_acknowledgements (pos c.acknowledgements)))

-- What the acknowledgements do not change.
abbrev Same : Checkpoint → Checkpoint → Type 0
Same c c' =
    (c'.required_committers ≡ c.required_committers)
    × (c'.required_acknowledgements ≡ c.required_acknowledgements)

acknowledge-Same : (c : Checkpoint) (k now_ms : ℕ) → Same c (acknowledge c k now_ms).1
unfolding acknowledge
acknowledge-Same c k now_ms = (ground arith, ground arith)

-- A report that counts.
acknowledge-new :
    (c : Checkpoint) (k now_ms : ℕ)
    → eligible c.required_committers k ≡ true
    → contains k c.acknowledged_by ≡ false
    → let c' = (acknowledge c k now_ms).1 in
      let enough =
        ltb_ℤ (pos 0) c.required_acknowledgements
        && leb_ℤ c.required_acknowledgements (pos (c.acknowledgements + 1)) in
      (c'.acknowledged_by ≡ k ∷ c.acknowledged_by)
      × (c'.acknowledgements ≡ c.acknowledgements + 1)
      × (is_notifying c'.status ≡ (if enough then true else is_notifying c.status))
unfolding acknowledge mark_notifying
acknowledge-new c k now_ms known new = (ground arith, ground arith, ground arith)

-- More acknowledgements than enough are enough.
enough_mono :
    (required : ℤ) (n : ℕ) (old : Bool)
    → old ≡ (ltb_ℤ (pos 0) required && leb_ℤ required (pos n))
    → let enough = ltb_ℤ (pos 0) required && leb_ℤ required (pos (n + 1)) in
      (if enough then true else old) ≡ enough
enough_mono required n old h = ground arith

acknowledge-Tallies :
    (c : Checkpoint) (k now_ms : ℕ) (heard : ℕ → Bool)
    → Tallies c heard
    → Tallies (acknowledge c k now_ms).1 (λ j. (j == k) || heard j)
unfolding acknowledge mark_notifying
acknowledge-Tallies c k now_ms heard (distinct, members, tally, ready) =
    elim (Bool-cases (eligible c.required_committers k)) [
      | inr stranger ↦
          rw (stranger, acknowledge)
            (distinct, λ j. ground (arith, members j, ==_iff j k, stranger), tally, ready)
      | inl known ↦ elim (Bool-cases (contains k c.acknowledged_by)) [
        | inl again ↦
            rw (known, again, acknowledge)
              (
                distinct,
                λ j. ground (arith, members j, members k, ==_iff j k, again, known),
                tally,
                ready,
              )
        | inr new ↦
            let (by, acks, ready') = acknowledge-new c k now_ms known new in
            let (same, required) = acknowledge-Same c k now_ms in
            rw (by, acks, same, required, ready')
              (
                (new, distinct),
                λ j. ground (arith, members j, ==_iff j k, known),
                omega (arith, tally),
                enough_mono c.required_acknowledgements c.acknowledgements _ ready,
              )
      ]
    ]

Tallies-ext :
    (c : Checkpoint) (h h' : ℕ → Bool) → ((k : ℕ) → h k ≡ h' k) → Tallies c h → Tallies c h'
Tallies-ext c h h' same (distinct, members, tally, ready) =
    (distinct, λ k. ground (arith, members k, same k), tally, ready)

run-Tallies :
    (rs : List (ℕ × ℕ)) (c : Checkpoint) (heard : ℕ → Bool)
    → Tallies c heard
    → Tallies (acknowledge_all c rs) (λ j. heard j || reported j rs) × Same c (acknowledge_all c rs)
unfolding acknowledge_all
run-Tallies [] c heard t = (Tallies-ext c heard _ (λ k. ground arith) t, (refl, refl))
run-Tallies ((k, now_ms) ∷ rs) c heard t =
    let (later, (same', acks')) =
      run-Tallies rs (acknowledge c k now_ms).1 _ (acknowledge-Tallies c k now_ms heard t) in
    let (same, acks) = acknowledge-Same c k now_ms in
    (
      Tallies-ext (acknowledge_all (acknowledge c k now_ms).1 rs)
          (λ j. ((j == k) || heard j) || reported j rs) _ (λ j. ground arith) later,
      (same' ∙ same, acks' ∙ acks),
    )

-- A checkpoint that nobody has acknowledged, after any reports in any order and any number: it has
-- counted each eligible committer that has reported exactly once, and nobody else, and it is in
-- NOTIFYING exactly when `required_acknowledgements` is positive and that many of them have reported.
pub acknowledge_all_lem :
    (c : Checkpoint) (rs : List (ℕ × ℕ))
    → c.acknowledged_by ≡ []
    → c.acknowledgements ≡ 0
    → is_notifying c.status ≡ false
    → let c' = acknowledge_all c rs in
      let required = c.required_acknowledgements in
      Distinct c'.acknowledged_by
      × ((k : ℕ)
          → contains k c'.acknowledged_by ≡ (reported k rs && eligible c.required_committers k))
      × (c'.acknowledgements ≡ length c'.acknowledged_by)
      × (is_notifying c'.status
          ≡ (ltb_ℤ (pos 0) required && leb_ℤ required (pos c'.acknowledgements)))
acknowledge_all_lem c rs nobody none_counted waiting =
    let start : Tallies c (λ _. false) = (
      rw nobody tt,
      λ k. rw nobody refl,
      ground (arith, nobody, none_counted),
      ground (arith, none_counted, waiting),
    ) in
    let ((distinct, members, tally, ready), (same, acks)) = run-Tallies rs c (λ _. false) start in
    (
      distinct,
      λ k. ground (arith, members k, same),
      tally,
      subst
          (λ r.
            is_notifying (acknowledge_all c rs).status
            ≡ (ltb_ℤ (pos 0) r && leb_ℤ r (pos (acknowledge_all c rs).acknowledgements)))
          acks ready,
    )

-- `acknowledge` answers an eligible committer with whether the new status is NOTIFYING. A committer
-- that is not eligible changes nothing and gets the answer false.
pub acknowledge-ready :
    (c : Checkpoint) (k now_ms : ℕ)
    → let (ready, c') = acknowledge c k now_ms in
      (eligible c.required_committers k ≡ true → ready ≡ is_notifying c'.status)
      × (eligible c.required_committers k ≡ false → (ready ≡ false) × (c' ≡ c))
unfolding acknowledge mark_notifying
acknowledge-ready c k now_ms = (λ known. ground arith, λ stranger. (ground arith, ground arith))
