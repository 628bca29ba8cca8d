-- ===== src/Checkpoints/Triggers.antt =====
-- src/ray/klein/runtime/coordinator/checkpoint_trigger.py: when a source emits a barrier. The clock
-- is a parameter of each call and counts whole ticks, as the intervals do.
use klein.Base.{
  ℕ, ◌+◌, ◌<◌, ◌≡◌, refl, Bool, true, false, ◌&&◌, ◌||◌, List, [], ◌∷◌, Outcome, ok, value_error,
  raise_if, ◌>>=◌, ◌>>◌, arith, ltb, leb, if◌then◌else◌, Bool-cases, inl, inr, subst,
}
use klein.Base.Int.{ℤ, pos, pos_part, ltb_ℤ, leb_ℤ}
use klein.Base.Predicates.{All}

pub record CheckpointTrigger : Type 0 where
  pub interval_records : ℕ
  pub interval_seconds : ℕ
  pub counter : ℕ
  pub last_trigger : ℕ

-- `__init__`, at the time `now`.
unfoldable pub checkpoint_trigger : ℤ → ℤ → ℕ → Outcome CheckpointTrigger
checkpoint_trigger interval_records interval_seconds now = do
  raise_if (ltb_ℤ interval_records (pos 0)) value_error
  raise_if (ltb_ℤ interval_seconds (pos 0)) value_error
  ok (record {
    interval_records = pos_part interval_records;
    interval_seconds = pos_part interval_seconds;
    counter = 0;
    last_trigger = now;
  })

-- `_reset`, and `reset` at the time `now`.
pub reset : CheckpointTrigger → ℕ → CheckpointTrigger
reset t now = record t { counter = 0; last_trigger = now }

-- The branch of the clock. Behind `last_trigger` the difference is negative and below any interval.
by_time : CheckpointTrigger → ℕ → Bool × CheckpointTrigger
by_time t now =
    if ltb 0 t.interval_seconds && leb (t.last_trigger + t.interval_seconds) now
    then (true, reset t now)
    else (false, t)

-- `should_trigger` behind its guard.
decide : CheckpointTrigger → Bool → ℕ → ℕ → Bool × CheckpointTrigger
unfolding by_time
decide t record_emitted record_count now =
    if record_emitted && ltb 0 t.interval_records
    then (let t' = record t { counter = t.counter + record_count } in
        if leb t'.interval_records t'.counter then (true, reset t' now) else by_time t' now)
    else by_time t now

unfoldable pub should_trigger :
    CheckpointTrigger → Bool → ℤ → ℕ → Outcome (Bool × CheckpointTrigger)
unfolding decide
should_trigger t record_emitted record_count now = do
  raise_if (leb_ℤ record_count (pos 0)) value_error
  ok (decide t record_emitted (pos_part record_count) now)

-- A poll: whether it emitted, how many records, and when.
pub record Poll : Type 0 where
  pub emitted : Bool
  pub count : ℕ
  pub time : ℕ

-- The answers to a sequence of polls, and the trigger behind them.
unfoldable pub run : CheckpointTrigger → List Poll → Outcome (List Bool × CheckpointTrigger)
run t [] = ok ([], t)
run t (p ∷ ps) = do
  r ← should_trigger t p.emitted (pos p.count) p.time
  rest ← run r.1 ps
  ok (r.0 ∷ rest.0, rest.1)

-- What the answers have to be, from the records `since` the last barrier and its time `last`.
abbrev pub Answers : ℕ → ℕ → ℕ → ℕ → List Poll → List Bool → Type 0
Answers n s since last [] [] = Unit
Answers n s since last [] (b ∷ bs) = ⊥
Answers n s since last (p ∷ ps) [] = ⊥
Answers n s since last (p ∷ ps) (b ∷ bs) =
    let total = since + (if p.emitted then p.count else 0) in
    let due = (p.emitted && ltb 0 n && leb n total) || (ltb 0 s && leb (last + s) p.time) in
    (b ≡ due) × (if due then Answers n s 0 p.time ps bs else Answers n s total last ps bs)

-- A trigger that has counted `since` records and last fired at `last`.
abbrev Counts : CheckpointTrigger → ℕ → ℕ → Type 0
Counts t since last = (0 < t.interval_records → t.counter ≡ since) × (t.last_trigger ≡ last)

abbrev due : CheckpointTrigger → Poll → ℕ → ℕ → Bool
due t p total last =
    (p.emitted && ltb 0 t.interval_records && leb t.interval_records total)
    || (ltb 0 t.interval_seconds && leb (last + t.interval_seconds) p.time)

decide-due :
    (t : CheckpointTrigger) (p : Poll) (since last : ℕ)
    → Counts t since last
    → let r = decide t p.emitted p.count p.time in
      let total = since + (if p.emitted then p.count else 0) in
      (r.0 ≡ due t p total last)
      × (r.1.interval_records ≡ t.interval_records)
      × (r.1.interval_seconds ≡ t.interval_seconds)
      × (due t p total last ≡ true → Counts r.1 0 p.time)
      × (due t p total last ≡ false → Counts r.1 total last)
unfolding decide by_time reset
decide-due t p since last (counted, at) = ground arith

-- A run of a trigger has ended with these answers.
abbrev Ends : CheckpointTrigger → List Poll → ℕ → ℕ → Type 0
Ends t ps since last =
    (bs : List Bool) × (t' : CheckpointTrigger) × (run t ps ≡ ok (bs, t'))
    × Answers t.interval_records t.interval_seconds since last ps bs

should_trigger_lem :
    (t : CheckpointTrigger) (p : Poll)
    → 0 < p.count
    → should_trigger t p.emitted (pos p.count) p.time ≡ ok (decide t p.emitted p.count p.time)
unfolding should_trigger
should_trigger_lem t p h = ground arith

run-cons :
    (t : CheckpointTrigger) (p : Poll) (ps : List Poll) (bs : List Bool) (t' : CheckpointTrigger)
    → 0 < p.count
    → run (decide t p.emitted p.count p.time).1 ps ≡ ok (bs, t')
    → run t (p ∷ ps) ≡ ok ((decide t p.emitted p.count p.time).0 ∷ bs, t')
unfolding run
run-cons t p ps bs t' h rest = rw (run, should_trigger_lem t p h, rest) refl

run-Ends :
    (ps : List Poll) (t : CheckpointTrigger) (since last : ℕ)
    → All (λ p. 0 < p.count) ps
    → Counts t since last
    → Ends t ps since last
unfolding run
run-Ends [] t since last h c = ([], t, refl, tt)
run-Ends (p ∷ ps) t since last (some_record, h) c =
    let r = decide t p.emitted p.count p.time in
    let total = since + (if p.emitted then p.count else 0) in
    let (answer, records, seconds, fired, silent) = decide-due t p since last c in
    elim (Bool-cases (due t p total last)) [
      | inl is_due ↦
          let (bs, t', ran, right) = run-Ends ps r.1 0 p.time h (fired is_due) in
          (
            r.0 ∷ bs,
            t',
            run-cons t p ps bs t' some_record ran,
            (
              answer,
              rw is_due (
                  subst (λ n. Answers n t.interval_seconds 0 p.time ps bs) records
                    (subst (λ s. Answers r.1.interval_records s 0 p.time ps bs) seconds right)),
            ),
          )
      | inr not_due ↦
          let (bs, t', ran, right) = run-Ends ps r.1 total last h (silent not_due) in
          (
            r.0 ∷ bs,
            t',
            run-cons t p ps bs t' some_record ran,
            (
              answer,
              rw not_due (
                  subst (λ n. Answers n t.interval_seconds total last ps bs) records
                    (subst (λ s. Answers r.1.interval_records s total last ps bs) seconds right)),
            ),
          )
    ]

created :
    (n s : ℤ) (now : ℕ) (t : CheckpointTrigger)
    → checkpoint_trigger n s now ≡ ok t
    → (pos t.interval_records ≡ n) × (pos t.interval_seconds ≡ s) × Counts t 0 now
unfolding checkpoint_trigger
created n s now t h = ground arith

-- A new trigger answers every sequence of polls with positive counts, and answers each one with true
-- exactly when the records emitted since the last barrier have reached `interval_records`, or the time
-- since that barrier has reached `interval_seconds`; an interval of 0 does not count. At the start the
-- last barrier is taken to be at the time of creation.
pub run-Answers :
    (n s : ℕ) (now : ℕ) (t : CheckpointTrigger) (ps : List Poll)
    → checkpoint_trigger (pos n) (pos s) now ≡ ok t
    → All (λ p. 0 < p.count) ps
    → (bs : List Bool) × (t' : CheckpointTrigger) × (run t ps ≡ ok (bs, t'))
      × Answers n s 0 now ps bs
run-Answers n s now t ps start h =
    let (records, seconds, c) = created (pos n) (pos s) now t start in
    let n_same : t.interval_records ≡ n = cc in
    let s_same : t.interval_seconds ≡ s = cc in
    let (bs, t', ran, right) = run-Ends ps t 0 now h c in
    (
      bs,
      t',
      ran,
      subst (λ k. Answers k s 0 now ps bs) n_same
          (subst (λ k. Answers t.interval_records k 0 now ps bs) s_same right),
    )
