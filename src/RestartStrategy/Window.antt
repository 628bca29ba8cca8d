-- ===== src/RestartStrategy/Window.antt =====
-- The window against the history of all restarts: what it holds are those of the last interval.
use klein.Base.{
  ℕ, ◌+◌, ◌*◌, ◌≤◌, ◌≡◌, refl, ap, ◌∙◌, append-nil, append_assoc, subst, false, List, [], ◌∷◌, ◌++◌,
  ok, arith, ltb, if◌then◌else◌, length,
}
use klein.Base.Int.{ℤ}
use klein.RestartStrategy.{
  FixedDelayRestartStrategy, fixed_delay_restart_strategy, micros_per_second, popleft_expired,
  prune, record_and_should_suppress, window_view,
}

-- The supervisor records a restart, or the progress page asks for the window.
pub data Call : Type 0 where
  restarted : ℕ → Call
  viewed : ℕ → Call

unfoldable pub step : FixedDelayRestartStrategy → Call → FixedDelayRestartStrategy
step s (restarted now) = (record_and_should_suppress s now).1
step s (viewed now) = (window_view s now).1

unfoldable pub run : FixedDelayRestartStrategy → List Call → FixedDelayRestartStrategy
run s [] = s
run s (c ∷ cs) = run (step s c) cs

abbrev pub time_of : Call → ℕ
time_of (restarted now) = now
time_of (viewed now) = now

-- The clock does not run backwards between the calls, nor from the last one to `now`.
abbrev pub InOrder : List Call → ℕ → Type 0
InOrder [] now = Unit
InOrder (c ∷ []) now = time_of c ≤ now
InOrder (c ∷ d ∷ cs) now = (time_of c ≤ time_of d) × InOrder (d ∷ cs) now

-- The restarts among the calls.
abbrev pub restarts : List Call → List ℕ
restarts [] = []
restarts (restarted t ∷ cs) = t ∷ restarts cs
restarts (viewed t ∷ cs) = restarts cs

-- The times that are at most `interval` back from `now`.
abbrev pub recent : ℕ → ℕ → List ℕ → List ℕ
recent interval now [] = []
recent interval now (t ∷ ts) =
    let rest = recent interval now ts in
    if ltb (t * micros_per_second + interval) (now * micros_per_second) then rest else t ∷ rest

-- Times that do not fall, and that are at most `hi`.
abbrev Sorted : ℕ → ℕ → List ℕ → Type 0
Sorted lo hi [] = Unit
Sorted lo hi (t ∷ ts) = (lo ≤ t) × (t ≤ hi) × Sorted t hi ts

Sorted-append :
    (lo hi now : ℕ) (ts : List ℕ)
    → Sorted lo hi ts
    → hi ≤ now
    → lo ≤ now
    → Sorted lo now (ts ++ now ∷ [])
Sorted-append lo hi now [] s h l = omega arith
Sorted-append lo hi now (t ∷ ts) (a, b, s) h l =
    (a, omega arith, Sorted-append t hi now ts s h (omega arith))

Sorted-lower :
    (lo lo' hi hi' : ℕ) (ts : List ℕ) → Sorted lo hi ts → lo' ≤ lo → hi ≤ hi' → Sorted lo' hi' ts
Sorted-lower lo lo' hi hi' [] s h u = tt
Sorted-lower lo lo' hi hi' (t ∷ ts) (a, b, s) h u =
    (omega arith, omega arith, Sorted-lower t t hi hi' ts s (omega arith) u)

recent-append :
    (i now : ℕ) (xs ys : List ℕ) → recent i now (xs ++ ys) ≡ recent i now xs ++ recent i now ys
recent-append i now [] ys = refl
recent-append i now (x ∷ xs) ys = ground (arith, recent-append i now xs ys)

recent-recent :
    (i t now : ℕ) (xs : List ℕ) → t ≤ now → recent i now (recent i t xs) ≡ recent i now xs
recent-recent i t now [] h = refl
recent-recent i t now (x ∷ xs) h = ground (arith, recent-recent i t now xs h)

-- Of sorted times none behind a recent one has expired.
recent-Sorted :
    (i now lo hi : ℕ) (ts : List ℕ)
    → Sorted lo hi ts
    → ltb (lo * micros_per_second + i) (now * micros_per_second) ≡ false
    → recent i now ts ≡ ts
recent-Sorted i now lo hi [] s h = refl
recent-Sorted i now lo hi (t ∷ ts) (a, b, s) h = ground (arith, recent-Sorted i now t hi ts s)

popleft-recent :
    (i now lo hi : ℕ) (ts : List ℕ)
    → Sorted lo hi ts
    → (popleft_expired i now ts ≡ recent i now ts) × Sorted lo hi (popleft_expired i now ts)
unfolding popleft_expired
popleft-recent i now lo hi [] s = (refl, tt)
popleft-recent i now lo hi (t ∷ ts) (a, b, s) =
    let (same, kept) = popleft-recent i now t hi ts s in
    ground (
      arith,
      same,
      recent-Sorted i now t hi ts s,
      Sorted-lower t lo hi hi (popleft_expired i now ts) kept,
    )

-- The window after the last call, at `hi`, holds what is recent among the restarts `ts`.
record Holds (s : FixedDelayRestartStrategy) (hi : ℕ) (ts : List ℕ) : Type 0 where
  window : s.window ≡ recent s.count_interval hi ts
  sorted : Sorted 0 hi s.window

pruned :
    (s : FixedDelayRestartStrategy) (hi now : ℕ) (ts : List ℕ)
    → Holds s hi ts
    → hi ≤ now
    → Holds (prune s now) now ts
unfolding prune
pruned s hi now ts h le =
    let (same, kept) = popleft-recent s.count_interval now 0 hi s.window h.sorted in
    record {
      window =
          same
          ∙ ap (recent s.count_interval now) h.window
          ∙ recent-recent s.count_interval hi now ts le;
      sorted = Sorted-lower 0 0 hi now _ kept (omega arith) le;
    }

pushed :
    (s : FixedDelayRestartStrategy) (now : ℕ) (ts : List ℕ)
    → Holds s now ts
    → Holds (record s { window = s.window ++ now ∷ [] }) now (ts ++ now ∷ [])
pushed s now ts h = record {
  window = ground (arith, h.window, recent-append s.count_interval now ts (now ∷ []));
  sorted = Sorted-append 0 now now s.window h.sorted (omega arith) (omega arith);
}

step-Holds :
    (s : FixedDelayRestartStrategy) (hi : ℕ) (c : Call) (ts : List ℕ)
    → Holds s hi ts
    → hi ≤ time_of c
    → Holds (step s c) (time_of c) (ts ++ restarts (c ∷ []))
      × ((step s c).max_attempts ≡ s.max_attempts)
      × ((step s c).count_interval ≡ s.count_interval)
unfolding step record_and_should_suppress window_view prune
step-Holds s hi (restarted now) ts h le =
    (pushed (prune s now) now ts (pruned s hi now ts h le), refl, refl)
step-Holds s hi (viewed now) ts h le = (rw append-nil (pruned s hi now ts h le), refl, refl)

InOrder-head :
    (c : Call) (cs : List Call) (now : ℕ)
    → InOrder (c ∷ cs) now
    → InOrder cs now × (time_of c ≤ now)
InOrder-head c [] now h = (tt, h)
InOrder-head c (d ∷ cs) now (le, rest) = (rest, omega (arith, (InOrder-head d cs now rest).1))

restarts-cons : (c : Call) (cs : List Call) → restarts (c ∷ cs) ≡ restarts (c ∷ []) ++ restarts cs
restarts-cons (restarted t) cs = refl
restarts-cons (viewed t) cs = refl

-- What a run of calls has done to a strategy that held the restarts `ts`.
abbrev Ran : FixedDelayRestartStrategy → FixedDelayRestartStrategy → ℕ → List ℕ → Type 0
Ran s s' now ts =
    (hi : ℕ) × (hi ≤ now)
    × Holds s' hi ts
    × (s'.max_attempts ≡ s.max_attempts)
    × (s'.count_interval ≡ s.count_interval)

run-Ran :
    (cs : List Call) (s : FixedDelayRestartStrategy) (hi now : ℕ) (ts : List ℕ)
    → Holds s hi ts
    → hi ≤ now
    → ((c : Call) (rest : List Call) → cs ≡ c ∷ rest → hi ≤ time_of c)
    → InOrder cs now
    → Ran s (run s cs) now (ts ++ restarts cs)
unfolding run
run-Ran [] s hi now ts h le from order = (hi, le, rw append-nil h, refl, refl)
run-Ran (c ∷ cs) s hi now ts h le from order =
    let (h', most, interval) = step-Holds s hi c ts h (from c cs refl) in
    let (order', last) = InOrder-head c cs now order in
    let next : (d : Call) (rest : List Call) → cs ≡ d ∷ rest → time_of c ≤ time_of d =
      λ d rest e. (subst (λ l. InOrder (c ∷ l) now) e order).0 in
    let (hi', le', end, most', interval') =
      run-Ran cs (step s c) (time_of c) now (ts ++ restarts (c ∷ [])) h' last next order' in
    (hi', le', rw (restarts-cons c cs, ← append_assoc) end, most' ∙ most, interval' ∙ interval)

created :
    (max_attempts count_interval delay : ℤ) (s : FixedDelayRestartStrategy)
    → fixed_delay_restart_strategy max_attempts count_interval delay ≡ ok s
    → s.window ≡ []
unfolding fixed_delay_restart_strategy
created max_attempts count_interval delay s h = ground arith

recorded :
    (s : FixedDelayRestartStrategy) (hi now : ℕ) (ts : List ℕ)
    → Holds s hi ts
    → hi ≤ now
    → let attempts = length (recent s.count_interval now (ts ++ now ∷ [])) in
      (record_and_should_suppress s now).0 ≡ (ltb s.max_attempts attempts, attempts)
unfolding record_and_should_suppress prune
recorded s hi now ts h le =
    let after = (pushed (prune s now) now ts (pruned s hi now ts h le)).window in
    ap (λ w. (ltb s.max_attempts (length w), length w)) after

-- After any restarts and views of a new strategy, with a clock that does not run backwards: the next
-- restart is the n-th of those that lie at most `count_interval` back, whatever was pruned in between,
-- and it is suppressed exactly when n is above `max_attempts`.
pub record_and_should_suppress-run :
    (max_attempts count_interval delay : ℤ) (s : FixedDelayRestartStrategy) (cs : List Call)
    (now : ℕ)
    → fixed_delay_restart_strategy max_attempts count_interval delay ≡ ok s
    → InOrder cs now
    → let attempts = length (recent s.count_interval now (restarts cs ++ now ∷ [])) in
      (record_and_should_suppress (run s cs) now).0 ≡ (ltb s.max_attempts attempts, attempts)
record_and_should_suppress-run max_attempts count_interval delay s cs now start order =
    let empty = created max_attempts count_interval delay s start in
    let first : Holds s 0 [] = record { window = empty; sorted = rw empty tt } in
    let (hi, le, held, most, interval) =
      run-Ran cs s 0 now [] first (omega arith) (λ c rest e. omega arith) order in
    recorded (run s cs) hi now (restarts cs) held le ∙ rw (most, interval) refl
