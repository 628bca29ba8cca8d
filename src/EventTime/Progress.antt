-- ===== src/EventTime/Progress.antt =====
-- What watermarks a tracker emits: each one is the minimum over the active inputs, and they rise.
use klein.Base.{
  ℕ, ◌≤◌, ◌≡◌, refl, ap, ◌∙◌, subst, ◌⊎◌, inl, inr, min, Bool, true, false, Option, some, List, [],
  ◌∷◌, ◌++◌, ok, arith, Bool-cases, Option-cases, ltb,
}
use mathlib.Core.Path.{ap₂}
use klein.Base.Int.{pos, leb_ℤ, ◌<ℤ◌}
use klein.Base.Dict.{lookup, lookup_or, insert}
use klein.Base.Predicates.{All}
use klein.EventTime.{
  StreamControl, watermark, input_idle, input_active, other, InputState, InputWatermarkTracker,
  active, candidate, advance, reactivate_output, then_advance, is_newer, on_watermark, on_idle,
  on_active, go_idle, on_control, setdefault, fresh_input, all_idle,
}

-- The input has reported progress at least up to `c`.
abbrev pub HasReached : ℕ → InputState → Type 0
HasReached c s = (m : ℕ) × (s.mark ≡ some m) × (c ≤ m)

abbrev pub Reports : ℕ → List InputState → Type 0
Reports c [] = ⊥
Reports c (s ∷ ss) = (s.mark ≡ some c) ⊎ Reports c ss

HasReached-mono :
    (c b : ℕ) (ss : List InputState) → b ≤ c → All (HasReached c) ss → All (HasReached b) ss
HasReached-mono c b [] h a = tt
HasReached-mono c b (s ∷ ss) h ((m, e, le), a) = ((m, e, omega arith), HasReached-mono c b ss h a)

-- `candidate` is the minimum: every state has reached it, and one reports it.
pub candidate_lem :
    (ss : List InputState) (c : ℕ) → candidate ss ≡ some c → All (HasReached c) ss × Reports c ss
unfolding candidate
candidate_lem [] c h = cc
candidate_lem (s ∷ []) c h = (((c, h, omega arith), tt), inl h)
candidate_lem (s ∷ t ∷ r) c h = elim (Option-cases (candidate (t ∷ r))) [
  | inl missing ↦ absurd (ground arith)
  | inr (low, e) ↦
      let (reached, reports) = candidate_lem (t ∷ r) low e in
      elim (Option-cases s.mark) [
        | inl missing ↦ absurd (ground arith)
        | inr (m, em) ↦
            let least : c ≡ min m low = ground arith in
            let here : HasReached c s = (m, em, omega (arith, least)) in
            let below = HasReached-mono low c (t ∷ r) (omega (arith, least)) reached in
            elim (Bool-cases (ltb m low)) [
              | inl mine ↦
                  let same : m ≡ c = ground (arith, least) in
                  ((here, below), inl (em ∙ ap some same))
              | inr theirs ↦
                  let same : low ≡ c = ground (arith, least) in
                  ((here, below), inr (subst (λ n. Reports n (t ∷ r)) same reports))
            ]
      ]
]

-- The timestamps among emitted controls.
abbrev pub marks : List StreamControl → List ℕ
marks [] = []
marks (watermark c ∷ r) = c ∷ marks r
marks (input_idle ∷ r) = marks r
marks (input_active m ∷ r) = marks r
marks (other ∷ r) = marks r

pub marks-append : (xs ys : List StreamControl) → marks (xs ++ ys) ≡ marks xs ++ marks ys
marks-append [] ys = refl
marks-append (watermark c ∷ xs) ys = ap (λ l. c ∷ l) (marks-append xs ys)
marks-append (input_idle ∷ xs) ys = marks-append xs ys
marks-append (input_active m ∷ xs) ys = marks-append xs ys
marks-append (other ∷ xs) ys = marks-append xs ys

-- Of one call: no watermark and no progress, or a single higher watermark that is the minimum over
-- the inputs that are active now.
abbrev pub Advances : InputWatermarkTracker → List StreamControl → InputWatermarkTracker → Type 0
Advances t out t' =
    ((marks out ≡ []) × (t'.output_watermark ≡ t.output_watermark))
    ⊎ ((c : ℕ) × (marks out ≡ c ∷ [])
        × (t.output_watermark <ℤ pos c)
        × (t'.output_watermark ≡ pos c)
        × All (HasReached c) (active t'.inputs)
        × Reports c (active t'.inputs))

advance-Advances : (t : InputWatermarkTracker) → let (out, t') = advance t in Advances t out t'
unfolding advance
advance-Advances t = elim (Option-cases (candidate (active t.inputs))) [
  | inl none_yet ↦ rw (none_yet, advance) (inl (refl, refl))
  | inr (c, e) ↦
      let (reached, reports) = candidate_lem (active t.inputs) c e in
      elim (Bool-cases (leb_ℤ (pos c) t.output_watermark)) [
        | inl stale ↦ rw (e, advance, stale) (inl (refl, refl))
        | inr higher ↦
            let above : t.output_watermark <ℤ pos c = ground arith in
            rw (e, advance, higher) (inr (c, refl, above, refl, reached, reports))
      ]
]

then_advance-Advances :
    (out : List StreamControl) (t₀ t : InputWatermarkTracker)
    → marks out ≡ []
    → t.output_watermark ≡ t₀.output_watermark
    → let (out', t') = then_advance (out, t) in Advances t₀ out' t'
then_advance-Advances out t₀ t quiet same = elim (advance-Advances t) [
  | inl (silent, still) ↦ inl (marks-append out (advance t).0 ∙ ap₂ ◌++◌ quiet silent, still ∙ same)
  | inr (c, one, above, now, reached, reports) ↦ inr (
    c,
    marks-append out (advance t).0 ∙ ap₂ ◌++◌ quiet one,
    subst (λ w. w <ℤ pos c) same above,
    now,
    reached,
    reports,
  )
]

reactivate_output-quiet :
    (b : Bool) (t : InputWatermarkTracker)
    → let (out, t') = reactivate_output b t in
      (marks out ≡ []) × (t'.output_watermark ≡ t.output_watermark)
unfolding reactivate_output
reactivate_output-quiet true t = (refl, refl)
reactivate_output-quiet false t = (refl, refl)

pub reactivate-Advances :
    (b : Bool) (t₀ t : InputWatermarkTracker)
    → t.output_watermark ≡ t₀.output_watermark
    → let (out, t') = then_advance (reactivate_output b t) in Advances t₀ out t'
reactivate-Advances b t₀ t same =
    let (quiet, still) = reactivate_output-quiet b t in
    then_advance-Advances (reactivate_output b t).0 t₀ (reactivate_output b t).1 quiet
      (still ∙ same)

on_watermark-Advances :
    (sender : ℕ) (s : InputState) (timestamp : ℕ) (t₀ t : InputWatermarkTracker)
    → t.output_watermark ≡ t₀.output_watermark
    → let (out, t') = on_watermark sender s timestamp t in Advances t₀ out t'
unfolding on_watermark
on_watermark-Advances sender s timestamp t₀ t same = elim (Bool-cases (is_newer s timestamp)) [
  | inl newer ↦ rw (newer, on_watermark) (reactivate-Advances _ t₀ _ same)
  | inr stale ↦
      rw (stale, on_watermark)
        (let (quiet, still) = reactivate_output-quiet _ _ in inl (quiet, still ∙ same))
]

pub go_idle-Advances :
    (t₀ t : InputWatermarkTracker)
    → t.output_watermark ≡ t₀.output_watermark
    → let (out, t') = go_idle t in Advances t₀ out t'
unfolding go_idle
go_idle-Advances t₀ t same = elim (Bool-cases t.output_idle) [
  | inl already ↦ rw (already, go_idle) (inl (refl, same))
  | inr fresh ↦ rw (fresh, go_idle) (inl (refl, same))
]

on_idle-Advances :
    (sender : ℕ) (s : InputState) (t₀ t : InputWatermarkTracker)
    → t.output_watermark ≡ t₀.output_watermark
    → let (out, t') = on_idle sender s t in Advances t₀ out t'
unfolding on_idle
on_idle-Advances sender s t₀ t same =
    let t' = record t { inputs = insert sender (record s { idle = true }) t.inputs } in
    elim (Bool-cases s.idle) [
      | inl already ↦ rw (already, on_idle) (inl (refl, same))
      | inr was_active ↦ elim (Bool-cases (all_idle t'.inputs)) [
        | inl all ↦ rw (was_active, all, on_idle) (go_idle-Advances t₀ t' same)
        | inr some_active ↦
            rw (was_active, some_active, on_idle) (then_advance-Advances [] t₀ t' refl same)
      ]
    ]

on_active-Advances :
    (sender : ℕ) (s : InputState) (resume : Option ℕ) (t₀ t : InputWatermarkTracker)
    → t.output_watermark ≡ t₀.output_watermark
    → let (out, t') = on_active sender s resume t in Advances t₀ out t'
unfolding on_active
on_active-Advances sender s resume t₀ t same = reactivate-Advances _ t₀ _ same

pub setdefault-same :
    (sender : ℕ) (t : InputWatermarkTracker)
    → ((setdefault sender t).output_watermark ≡ t.output_watermark)
      × ((setdefault sender t).output_idle ≡ t.output_idle)
setdefault-same sender t = elim (Option-cases (lookup sender t.inputs)) [
  | inl missing ↦ rw (missing, setdefault) (refl, refl)
  | inr (s, e) ↦ rw (e, setdefault) (refl, refl)
]

-- An `on_control` that returns emits at most one watermark. It is higher than the current one, it
-- becomes the current one, and it is the minimum of the watermarks of the inputs that are not idle,
-- all of which have reported one. Otherwise the current watermark stays.
pub on_control-Advances :
    (sender : ℕ) (control : StreamControl) (t : InputWatermarkTracker) (out : List StreamControl)
    → (on_control sender control t).0 ≡ ok out
    → Advances t out (on_control sender control t).1
unfolding on_control
on_control-Advances sender (watermark timestamp) t out h =
    let s = lookup_or sender fresh_input t.inputs in
    let same = (setdefault-same sender t).0 in
    let eq : (on_watermark sender s timestamp (setdefault sender t)).0 ≡ out = cc in
    subst (λ o. Advances t o (on_control sender (watermark timestamp) t).1) eq
      (on_watermark-Advances sender s timestamp t (setdefault sender t) same)
on_control-Advances sender input_idle t out h =
    let s = lookup_or sender fresh_input t.inputs in
    let same = (setdefault-same sender t).0 in
    let eq : (on_idle sender s (setdefault sender t)).0 ≡ out = cc in
    subst (λ o. Advances t o (on_control sender input_idle t).1) eq
      (on_idle-Advances sender s t (setdefault sender t) same)
on_control-Advances sender (input_active resume) t out h =
    let s = lookup_or sender fresh_input t.inputs in
    let same = (setdefault-same sender t).0 in
    let eq : (on_active sender s resume (setdefault sender t)).0 ≡ out = cc in
    subst (λ o. Advances t o (on_control sender (input_active resume) t).1) eq
      (on_active-Advances sender s resume t (setdefault sender t) same)
on_control-Advances sender other t out h = cc
