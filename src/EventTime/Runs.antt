-- ===== src/EventTime/Runs.antt =====
-- A tracker over the controls of a whole stream.
use klein.Base.{
  ℕ, ◌≡◌, refl, if-elim, subst, inl, inr, List, [], ◌∷◌, ◌++◌, Outcome, ok, ◌>>=◌, >>=-eq-ok,
}
use klein.Base.Int.{ℤ, pos, ◌<ℤ◌}
use klein.Base.Dict.{Dict, lookup_or}
use klein.EventTime.{
  StreamControl, InputState, InputWatermarkTracker, on_control, reconfigure_inputs, settle,
  all_idle, dict_from, fresh_input,
}
use klein.EventTime.Progress.{
  marks, marks-append, Advances, on_control-Advances, go_idle-Advances, reactivate-Advances,
}

-- The controls of the inputs in the order in which they arrive, each with its sender, and what the
-- task forwards. A control that raises ends the run.
unfoldable pub run :
    InputWatermarkTracker
    → List (ℕ × StreamControl)
    → Outcome (List StreamControl × InputWatermarkTracker)
run t [] = ok ([], t)
run t ((sender, control) ∷ rest) = do
  out ← (on_control sender control t).0
  later ← run (on_control sender control t).1 rest
  ok (out ++ later.0, later.1)

-- Every element is above the one before it; `w` is the start and `w'` the last one.
abbrev pub RisesTo : ℤ → List ℕ → ℤ → Type 0
RisesTo w [] w' = w' ≡ w
RisesTo w (c ∷ cs) w' = (w <ℤ pos c) × RisesTo (pos c) cs w'

RisesTo-start : (w v w' : ℤ) (cs : List ℕ) → v ≡ w → RisesTo v cs w' → RisesTo w cs w'
RisesTo-start w v w' cs e h = subst (λ u. RisesTo u cs w') e h

-- One call in front of a run.
Advances-RisesTo :
    (t t' : InputWatermarkTracker) (out : List StreamControl) (cs : List ℕ) (w' : ℤ)
    → Advances t out t'
    → RisesTo t'.output_watermark cs w'
    → RisesTo t.output_watermark (marks out ++ cs) w'
Advances-RisesTo t t' out cs w' (inl (silent, still)) h =
    rw silent (RisesTo-start t.output_watermark t'.output_watermark w' cs still h)
Advances-RisesTo t t' out cs w' (inr (c, one, above, now, reached, reports)) h =
    rw one (above, RisesTo-start (pos c) t'.output_watermark w' cs now h)

-- Whatever the inputs send, in whatever order, if no control raises: the watermarks that the task forwards rise strictly
-- from the tracker's current one, and the last of them is the current one afterwards.
pub run-RisesTo :
    (cs : List (ℕ × StreamControl)) (t t' : InputWatermarkTracker) (out : List StreamControl)
    → run t cs ≡ ok (out, t')
    → RisesTo t.output_watermark (marks out) t'.output_watermark
unfolding run
run-RisesTo [] t t' out h =
    let quiet : out ≡ [] = cc in let same : t' ≡ t = cc in rw (quiet, same) refl
run-RisesTo ((sender, control) ∷ rest) t t' out h =
    let (first, one, more) = >>=-eq-ok (on_control sender control t).0 _ h in
    let ((later, t₂), tail, end) = >>=-eq-ok (run (on_control sender control t).1 rest) _ more in
    let whole : first ++ later ≡ out = cc in
    let last : t₂ ≡ t' = cc in
    let below = run-RisesTo rest (on_control sender control t).1 t₂ later tail in
    let step = on_control-Advances sender control t first one in
    subst (λ o. RisesTo t.output_watermark (marks o) t'.output_watermark) whole
      (rw (marks-append, ← last)
        (Advances-RisesTo t (on_control sender control t).1 first (marks later) t₂.output_watermark
          step below))

settle-Advances :
    (d : Dict InputState) (t₀ t : InputWatermarkTracker)
    → t.output_watermark ≡ t₀.output_watermark
    → let (out, t') = settle d t in Advances t₀ out t'
unfolding settle
settle-Advances [] t₀ t same = inl (refl, same)
settle-Advances (x ∷ d) t₀ t same =
    if-elim (λ (r : List StreamControl × InputWatermarkTracker). Advances t₀ r.0 r.1)
      (all_idle t.inputs) _ _ (λ all. go_idle-Advances t₀ t same)
      (λ some_active. reactivate-Advances t.output_idle t₀ t same)

-- Replacing the inputs may release progress: at most one watermark, which is higher than the current
-- one and the minimum over the new inputs that are not idle.
pub reconfigure_inputs-Advances :
    (ids : List ℕ) (t : InputWatermarkTracker)
    → let (out, t') = reconfigure_inputs ids t in Advances t out t'
unfolding reconfigure_inputs
reconfigure_inputs-Advances ids t =
    let inputs = dict_from (λ k. lookup_or k fresh_input t.inputs) [] ids in
    settle-Advances inputs t (record t { inputs = inputs }) refl
