-- ===== src/EventTime.antt =====
-- src/ray/klein/runtime/event_time/input_watermark_tracker.py, with the controls of
-- src/ray/klein/runtime/message.py: the watermark and idleness protocol of one task with several
-- physical inputs.
pub mod Progress
pub mod Runs
pub mod Idleness
mod Tests
use klein.Base.{
  ℕ, ◌+◌, min, Bool, true, false, not, ◌&&◌, ◌||◌, Option, none, some, List, [], ◌∷◌, ◌++◌, map,
  Outcome, ok, raise, type_error, ltb, ◌==◌, if◌then◌else◌,
}
use klein.Base.Int.{ℤ, pos, negsuc, leb_ℤ, ltb_ℤ}
use klein.Base.Dict.{Dict, lookup, lookup_or, insert}
use klein.Base.Predicates.{all}

-- `Watermark`, `InputIdle`, `InputActive`, and any other control. Timestamps are not negative: the
-- constructors of the source refuse those that are.
pub data StreamControl : Type 0 where
  watermark : ℕ → StreamControl
  input_idle : StreamControl
  input_active : Option ℕ → StreamControl
  other : StreamControl

-- `_InputState`
pub record InputState : Type 0 where
  pub mark : Option ℕ
  pub idle : Bool

pub record InputWatermarkTracker : Type 0 where
  pub inputs : Dict InputState
  pub output_watermark : ℤ
  pub output_idle : Bool

abbrev pub fresh_input : InputState
fresh_input = record { mark = none; idle = false }

-- `{input_id: state(input_id) for input_id in input_ids}`, filled from the left.
dict_from : (ℕ → InputState) → Dict InputState → List ℕ → Dict InputState
dict_from state d [] = d
dict_from state d (k ∷ ks) = dict_from state (insert k (state k) d) ks

-- `__init__`
pub input_watermark_tracker : List ℕ → InputWatermarkTracker
unfolding dict_from
input_watermark_tracker ids = record {
  inputs = dict_from (λ _. fresh_input) [] ids;
  output_watermark = negsuc 0;
  output_idle = false;
}

abbrev pub states : Dict InputState → List InputState
states = map (λ e. e.1)

-- `all(state.idle for state in inputs.values())`
pub all_idle : Dict InputState → Bool
all_idle [] = true
all_idle ((k, s) ∷ d) = s.idle && all_idle d

-- `_all_inputs_were_idle_except`
pub idle_except : ℕ → Dict InputState → Bool
idle_except sender [] = true
idle_except sender ((k, s) ∷ d) = (k == sender || s.idle) && idle_except sender d

-- `idle_input_count`
pub idle_input_count : Dict InputState → ℕ
idle_input_count [] = 0
idle_input_count ((k, s) ∷ d) = (if s.idle then 1 else 0) + idle_input_count d

-- `[state for state in inputs.values() if not state.idle]`
pub active : Dict InputState → List InputState
active [] = []
active ((k, s) ∷ d) = if s.idle then active d else s ∷ active d

-- The minimum of the watermarks, unless there is no state or a state without a watermark.
pub candidate : List InputState → Option ℕ
candidate [] = none
candidate (s ∷ []) = s.mark
candidate (s ∷ t ∷ r) = elim (candidate (t ∷ r)) [
  | none ↦ none
  | some low ↦ elim s.mark [ none ↦ none | some m ↦ some (min m low) ]
]

-- `_advance`
pub advance : InputWatermarkTracker → List StreamControl × InputWatermarkTracker
unfolding active candidate
advance t = elim (candidate (active t.inputs)) [
  | none ↦ ([], t)
  | some c ↦
      if leb_ℤ (pos c) t.output_watermark
      then ([], t)
      else (watermark c ∷ [], record t { output_watermark = pos c })
]

-- `_resume_watermark`
pub resume_watermark : InputWatermarkTracker → Option ℕ
resume_watermark t = elim t.output_watermark [ pos n ↦ some n | negsuc n ↦ none ]

-- `_reactivate_output`
pub reactivate_output : Bool → InputWatermarkTracker → List StreamControl × InputWatermarkTracker
unfolding resume_watermark
reactivate_output false t = ([], t)
reactivate_output true t =
    (input_active (resume_watermark t) ∷ [], record t { output_idle = false })

-- `output = reactivate_output(flag); output.extend(advance())`
abbrev pub then_advance :
    List StreamControl × InputWatermarkTracker → List StreamControl × InputWatermarkTracker
then_advance (output, t) = let (more, t') = advance t in (output ++ more, t')

-- `timestamp` is newer than what the input has reported.
is_newer : InputState → ℕ → Bool
is_newer s timestamp = elim s.mark [ none ↦ true | some m ↦ ltb m timestamp ]

-- `_on_watermark`, for a sender whose state is `s`.
pub on_watermark :
    ℕ → InputState → ℕ → InputWatermarkTracker → List StreamControl × InputWatermarkTracker
unfolding is_newer
on_watermark sender s timestamp t =
    let newer = is_newer s timestamp in
    let s' : InputState = record {
      mark = if newer then some timestamp else s.mark;
      idle = false;
    } in
    let t' = record t { inputs = insert sender s' t.inputs } in
    let r = reactivate_output (t'.output_idle || (s.idle && idle_except sender t'.inputs)) t' in
    if newer then then_advance r else r

-- The end of `_on_idle` and of `reconfigure_inputs` when every input is idle.
pub go_idle : InputWatermarkTracker → List StreamControl × InputWatermarkTracker
go_idle t = if t.output_idle then ([], t) else (input_idle ∷ [], record t { output_idle = true })

-- `_on_idle`
pub on_idle : ℕ → InputState → InputWatermarkTracker → List StreamControl × InputWatermarkTracker
unfolding go_idle
on_idle sender s t =
    let t' = record t { inputs = insert sender (record s { idle = true }) t.inputs } in
    if s.idle then ([], t) else if all_idle t'.inputs then go_idle t' else advance t'

-- `max(previous, control.resume_watermark)`, where `previous` is -1 for an input without a watermark.
abbrev later_mark : Option ℕ → Option ℕ → Option ℕ
later_mark mark none = mark
later_mark none (some r) = some r
later_mark (some m) (some r) = some (if ltb m r then r else m)

-- `_on_active`
pub on_active :
    ℕ → InputState → Option ℕ → InputWatermarkTracker → List StreamControl × InputWatermarkTracker
on_active sender s resume t =
    let s' : InputState = record { mark = later_mark s.mark resume; idle = false } in
    let t' = record t { inputs = insert sender s' t.inputs } in
    then_advance (reactivate_output t'.output_idle t')

dispatch :
    ℕ
    → InputState
    → StreamControl
    → InputWatermarkTracker
    → Outcome (List StreamControl) × InputWatermarkTracker
dispatch sender s (watermark timestamp) t =
    let (out, t') = on_watermark sender s timestamp t in (ok out, t')
dispatch sender s input_idle t = let (out, t') = on_idle sender s t in (ok out, t')
dispatch sender s (input_active resume) t =
    let (out, t') = on_active sender s resume t in (ok out, t')
dispatch sender s other t = (raise type_error, t)

-- `self._inputs.setdefault(sender, _InputState())`
abbrev pub setdefault : ℕ → InputWatermarkTracker → InputWatermarkTracker
setdefault sender t = elim (lookup sender t.inputs) [
  | none ↦ record t { inputs = insert sender fresh_input t.inputs }
  | some s ↦ t
]

-- `on_control`. An unknown control raises after its sender has been entered.
pub on_control :
    ℕ → StreamControl → InputWatermarkTracker → Outcome (List StreamControl) × InputWatermarkTracker
unfolding dispatch
on_control sender control t =
    dispatch sender (lookup_or sender fresh_input t.inputs) control (setdefault sender t)

-- What `reconfigure_inputs` does once the inputs `d` have been replaced.
settle : Dict InputState → InputWatermarkTracker → List StreamControl × InputWatermarkTracker
settle [] t = ([], t)
settle (e ∷ d) t =
    if all_idle t.inputs then go_idle t else then_advance (reactivate_output t.output_idle t)

-- `reconfigure_inputs`
pub reconfigure_inputs : List ℕ → InputWatermarkTracker → List StreamControl × InputWatermarkTracker
unfolding dict_from go_idle settle
reconfigure_inputs ids t =
    let inputs = dict_from (λ k. lookup_or k fresh_input t.inputs) [] ids in
    settle inputs (record t { inputs = inputs })

-- `_TrackerState`
pub record TrackerState : Type 0 where
  pub inputs : List (ℕ × Option ℕ × Bool)
  pub output_watermark : ℤ
  pub output_idle : Bool

-- `snapshot_state`
pub snapshot_state : InputWatermarkTracker → TrackerState
snapshot_state t = record {
  inputs = map (λ e. (e.0, e.1.mark, e.1.idle)) t.inputs;
  output_watermark = t.output_watermark;
  output_idle = t.output_idle;
}

restore_inputs : Dict InputState → List (ℕ × Option ℕ × Bool) → Dict InputState
restore_inputs d [] = d
restore_inputs d ((k, mark, idle) ∷ rest) =
    restore_inputs (insert k (record { mark = mark; idle = idle }) d) rest

-- `restore_state`
pub restore_state : TrackerState → InputWatermarkTracker → InputWatermarkTracker
unfolding restore_inputs
restore_state s t = record {
  inputs = restore_inputs [] s.inputs;
  output_watermark = s.output_watermark;
  output_idle = s.output_idle;
}
