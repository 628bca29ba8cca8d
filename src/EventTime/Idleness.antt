-- ===== src/EventTime/Idleness.antt =====
-- The idle signal of the task follows its inputs.
use klein.Base.{
  ℕ, ◌≡◌, ◌≢◌, refl, ap, ◌∙◌, sym, if-elim, ◌⊎◌, inl, inr, Bool, true, false, ◌||◌, Option, some,
  List, [], ◌∷◌, ok, arith, Bool-cases, Option-cases, if◌then◌else◌, subst,
}
use mathlib.Core.Bool.{false≢true}
use klein.Base.Dict.{Dict, lookup, lookup_or, insert, insert-insert}
use klein.EventTime.Progress.{setdefault-same}
use klein.EventTime.{
  StreamControl, watermark, input_idle, input_active, other, InputState, InputWatermarkTracker,
  advance, reactivate_output, then_advance, is_newer, on_watermark, on_idle, on_active, go_idle,
  on_control, setdefault, fresh_input, all_idle, reconfigure_inputs, dict_from, settle, settle,
}

-- While there are inputs, the task is idle exactly when all of them are.
abbrev pub IsCoherent : InputWatermarkTracker → Type 0
IsCoherent t = (t.inputs ≡ []) ⊎ (t.output_idle ≡ all_idle t.inputs)

abbrev LeavesCoherent : List StreamControl × InputWatermarkTracker → Type 0
LeavesCoherent r = IsCoherent r.1

all_idle-nil : all_idle [] ≡ true
unfolding all_idle
all_idle-nil = refl

all_idle-insert_active :
    (k : ℕ) (s : InputState) (d : Dict InputState)
    → s.idle ≡ false
    → all_idle (insert k s d) ≡ false
unfolding all_idle
all_idle-insert_active k s [] h = ground arith
all_idle-insert_active k s (e ∷ d) h = ground (arith, all_idle-insert_active k s d h)

all_idle-insert_idle :
    (k : ℕ) (s : InputState) (d : Dict InputState)
    → s.idle ≡ true
    → all_idle d ≡ true
    → all_idle (insert k s d) ≡ true
unfolding all_idle
all_idle-insert_idle k s [] h a = ground arith
all_idle-insert_idle k s (e ∷ d) h a = ground (arith, all_idle-insert_idle k s d h)

-- A known input that is idle and all others: all are.
all_idle-lookup :
    (k : ℕ) (s : InputState) (d : Dict InputState)
    → lookup k d ≡ some s
    → s.idle ≡ false
    → all_idle d ≡ false
unfolding all_idle
all_idle-lookup k s [] e h = cc
all_idle-lookup k s (x ∷ d) e h = ground (arith, all_idle-lookup k s d)

insert-nonempty : (k : ℕ) (s : InputState) (d : Dict InputState) → insert k s d ≢ []
insert-nonempty k s [] h = cc
insert-nonempty k s (e ∷ d) h = ground arith

advance-idle :
    (t : InputWatermarkTracker)
    → ((advance t).1.output_idle ≡ t.output_idle) × ((advance t).1.inputs ≡ t.inputs)
unfolding advance
advance-idle t = ground arith

-- A call that sets an input active leaves the task active.
reactivate-idle :
    (b : Bool) (t : InputWatermarkTracker)
    → (t.output_idle ≡ true → b ≡ true)
    → ((reactivate_output b t).1.output_idle ≡ false)
      × ((reactivate_output b t).1.inputs ≡ t.inputs)
unfolding reactivate_output
reactivate-idle true t h = (refl, refl)
reactivate-idle false t h = (ground (arith, h), refl)

setdefault-inputs :
    (sender : ℕ) (v : InputState) (t : InputWatermarkTracker)
    → insert sender v (setdefault sender t).inputs ≡ insert sender v t.inputs
setdefault-inputs sender v t = elim (Option-cases (lookup sender t.inputs)) [
  | inl missing ↦ rw (missing, setdefault) (insert-insert sender v fresh_input t.inputs)
  | inr (s, e) ↦ rw (e, setdefault) refl
]

-- Coherence reads only the inputs and the idle flag.
same-IsCoherent :
    (t u : InputWatermarkTracker)
    → (u.output_idle ≡ t.output_idle) × (u.inputs ≡ t.inputs)
    → IsCoherent t
    → IsCoherent u
same-IsCoherent t u (off, kept) (inl none_yet) = inl (kept ∙ none_yet)
same-IsCoherent t u (off, kept) (inr idle) = inr (off ∙ idle ∙ ap all_idle (sym kept))

-- A sender that has become active.
reactivate-IsCoherent :
    (b : Bool) (k : ℕ) (s : InputState) (t : InputWatermarkTracker) (d : Dict InputState)
    → s.idle ≡ false
    → t.inputs ≡ insert k s d
    → (t.output_idle ≡ true → b ≡ true)
    → IsCoherent (reactivate_output b t).1
reactivate-IsCoherent b k s t d up e h =
    let (off, kept) = reactivate-idle b t h in
    inr (off ∙ sym (ap all_idle (kept ∙ e) ∙ all_idle-insert_active k s d up))

advance-IsCoherent : (t : InputWatermarkTracker) → IsCoherent t → IsCoherent (advance t).1
advance-IsCoherent t c = same-IsCoherent t (advance t).1 (advance-idle t) c

if-IsCoherent :
    (b : Bool) (r : List StreamControl × InputWatermarkTracker)
    → IsCoherent r.1
    → IsCoherent (if b then then_advance r else r).1
if-IsCoherent true r c = advance-IsCoherent r.1 c
if-IsCoherent false r c = c

or-true : (a b : Bool) → a ≡ true → (a || b) ≡ true
or-true a b h = ground arith

on_watermark-IsCoherent :
    (sender : ℕ) (s : InputState) (timestamp : ℕ) (t : InputWatermarkTracker)
    → IsCoherent (on_watermark sender s timestamp t).1
unfolding on_watermark
on_watermark-IsCoherent sender s timestamp t =
    if-IsCoherent (is_newer s timestamp) _
      (reactivate-IsCoherent _ sender _ _ t.inputs refl refl (or-true t.output_idle _))

on_active-IsCoherent :
    (sender : ℕ) (s : InputState) (resume : Option ℕ) (t : InputWatermarkTracker)
    → IsCoherent (on_active sender s resume t).1
unfolding on_active
on_active-IsCoherent sender s resume t =
    advance-IsCoherent _ (reactivate-IsCoherent _ sender _ _ t.inputs refl refl (λ on. on))

go_idle-IsCoherent :
    (t : InputWatermarkTracker) → all_idle t.inputs ≡ true → IsCoherent (go_idle t).1
unfolding go_idle
go_idle-IsCoherent t all = ground arith

-- While an input is left active, the task was active already.
still_active :
    (sender : ℕ) (s : InputState) (t : InputWatermarkTracker)
    → IsCoherent t
    → s.idle ≡ true
    → all_idle (insert sender s t.inputs) ≡ false
    → t.output_idle ≡ false
still_active sender s t (inl none_yet) down some_active = absurd (
    false≢true (sym some_active ∙ rw none_yet (all_idle-insert_idle sender s [] down all_idle-nil)))
still_active sender s t (inr idle) down some_active = elim (Bool-cases (all_idle t.inputs)) [
  | inl all ↦
      absurd (false≢true (sym some_active ∙ all_idle-insert_idle sender s t.inputs down all))
  | inr not_all ↦ idle ∙ not_all
]

-- The state of a sender before the call, when it is idle.
idle_sender :
    (sender : ℕ) (t : InputWatermarkTracker)
    → (lookup_or sender fresh_input t.inputs).idle ≡ true
    → setdefault sender t ≡ t
idle_sender sender t h = elim (Option-cases (lookup sender t.inputs)) [
  | inl missing ↦ absurd (ground arith)
  | inr (s, e) ↦ rw (e, setdefault) refl
]

on_idle-IsCoherent :
    (sender : ℕ) (t : InputWatermarkTracker)
    → IsCoherent t
    → IsCoherent (on_idle sender (lookup_or sender fresh_input t.inputs) (setdefault sender t)).1
unfolding on_idle
on_idle-IsCoherent sender t c =
    let s = lookup_or sender fresh_input t.inputs in
    let s' : InputState = record s { idle = true } in
    let t' = setdefault sender t in
    let inputs = setdefault-inputs sender s' t in
    if-elim LeavesCoherent s.idle _ _
      (λ already. subst IsCoherent (sym (idle_sender sender t already)) c)
      (λ was_active.
        if-elim LeavesCoherent (all_idle (insert sender s' t'.inputs)) _ _
          (λ all. go_idle-IsCoherent _ all)
          (λ some_active.
            let off = still_active sender s' t c refl (ap all_idle (sym inputs) ∙ some_active) in
            advance-IsCoherent _ (inr ((setdefault-same sender t).1 ∙ off ∙ sym some_active))))

-- Every control that does not raise keeps the idle flag right: while there are inputs, the task is idle
-- exactly when all of them are.
pub on_control-IsCoherent :
    (sender : ℕ) (control : StreamControl) (t : InputWatermarkTracker) (out : List StreamControl)
    → (on_control sender control t).0 ≡ ok out
    → IsCoherent t
    → IsCoherent (on_control sender control t).1
unfolding on_control
on_control-IsCoherent sender (watermark timestamp) t out h c =
    on_watermark-IsCoherent sender (lookup_or sender fresh_input t.inputs) timestamp
      (setdefault sender t)
on_control-IsCoherent sender input_idle t out h c = on_idle-IsCoherent sender t c
on_control-IsCoherent sender (input_active resume) t out h c =
    on_active-IsCoherent sender (lookup_or sender fresh_input t.inputs) resume (setdefault sender t)
on_control-IsCoherent sender other t out h c = cc

settle-IsCoherent :
    (d : Dict InputState) (t : InputWatermarkTracker) → t.inputs ≡ d → IsCoherent (settle d t).1
unfolding settle
settle-IsCoherent [] t e = inl e
settle-IsCoherent (x ∷ d) t e =
    if-elim LeavesCoherent (all_idle t.inputs) _ _ (go_idle-IsCoherent t) (λ some_active.
      let (off, kept) = reactivate-idle t.output_idle t (λ on. on) in
      advance-IsCoherent _ (inr (off ∙ sym (ap all_idle kept ∙ some_active))))

-- So does a change of the topology, from any state.
pub reconfigure_inputs-IsCoherent :
    (ids : List ℕ) (t : InputWatermarkTracker) → IsCoherent (reconfigure_inputs ids t).1
unfolding reconfigure_inputs
reconfigure_inputs-IsCoherent ids t =
    let inputs = dict_from (λ k. lookup_or k fresh_input t.inputs) [] ids in
    settle-IsCoherent inputs (record t { inputs = inputs }) refl
