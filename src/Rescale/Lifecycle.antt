-- ===== src/Rescale/Lifecycle.antt =====
-- The statuses that an operation goes through, over any number of transitions and merged results.
use Prim.Native.String.{String}
use klein.Base.{
  Bool, ◌↔◌, ℕ, suc, ◌+◌, ◌≤◌, ◌≡◌, ◌∙◌, refl, sym, subst, not, true, false, ◌&&◌, Option, none,
  some, ok, raise, runtime_error, >>=-eq-ok, raise_if-eq-ok, ltb, arith, Bool-cases, inl, inr,
}
use klein.Rescale.{
  RescaleOperationStatus, RescaleOperationPhase, status_value, phase_name, phase_value, is_terminal,
  is_allowed, is_completed, parse_status, parse_phase, find_named, RescaleOperation, RescaleResult,
  move_to, transition, merge_result, accepted_operation,
}
use klein.Base.Int.{ℤ}

parse_status_lem : (s : RescaleOperationStatus) → parse_status (status_value s) ≡ ok s
unfolding parse_status find_named status_value
parse_status_lem RescaleOperationStatus.accepted = refl
parse_status_lem RescaleOperationStatus.running = refl
parse_status_lem RescaleOperationStatus.stabilizing = refl
parse_status_lem RescaleOperationStatus.completed = refl
parse_status_lem RescaleOperationStatus.noop = refl
parse_status_lem RescaleOperationStatus.rejected = refl
parse_status_lem RescaleOperationStatus.failed = refl

parse_phase_lem : (p : RescaleOperationPhase) → parse_phase (phase_name p) ≡ ok p
unfolding parse_phase find_named phase_name
parse_phase_lem RescaleOperationPhase.queued = refl
parse_phase_lem RescaleOperationPhase.coordinating = refl
parse_phase_lem RescaleOperationPhase.stabilizing = refl
parse_phase_lem RescaleOperationPhase.completed = refl

-- An operation after `n` transitions, and any number of merged results.
pub data Run : ℕ → RescaleOperation → RescaleOperation → Type 0 where
  here : {r : RescaleOperation} → Run 0 r r
  moved :
      {n : ℕ} {r s t : RescaleOperation} (status phase : String) (now_ms : ℕ) (started : Option ℕ)
      (error : Option (Option ℕ))
      → Run n r s
      → transition s status phase now_ms started error ≡ ok t
      → Run (suc n) r t
  merged :
      {n : ℕ} {r s : RescaleOperation} (result : RescaleResult) (now_ms : ℕ)
      → Run n r s
      → Run n r (merge_result s result now_ms)

-- How many transitions can still be made from a status.
abbrev pub moves_left : RescaleOperationStatus → ℕ
moves_left RescaleOperationStatus.accepted = 3
moves_left RescaleOperationStatus.running = 2
moves_left RescaleOperationStatus.stabilizing = 1
moves_left RescaleOperationStatus.completed = 0
moves_left RescaleOperationStatus.noop = 0
moves_left RescaleOperationStatus.rejected = 0
moves_left RescaleOperationStatus.failed = 0

moves_left-is_allowed :
    (s t : RescaleOperationStatus) → is_allowed s t ≡ true → suc (moves_left t) ≤ moves_left s
unfolding is_allowed
moves_left-is_allowed s t h = ground arith

-- The parts of a transition that was made.
transition-eq-ok :
    (r t : RescaleOperation) (status phase : String) (now_ms : ℕ) (started : Option ℕ)
    (error : Option (Option ℕ))
    → transition r status phase now_ms started error ≡ ok t
    → (s : RescaleOperationStatus) × (p : RescaleOperationPhase) × (t
        ≡ move_to r s p now_ms started error)
      × (is_allowed r.status s ≡ true)
      × (phase_value r.phase ≤ phase_value p)
      × ((is_terminal s && not (is_completed p)) ≡ false)
unfolding transition
transition-eq-ok r t status phase now_ms started error h =
    let (s, parsed, h1) = >>=-eq-ok (parse_status status) _ h in
    let (p, parsed', h2) = >>=-eq-ok (parse_phase phase) _ h1 in
    let (allowed, h3) = raise_if-eq-ok (not (is_allowed r.status s)) runtime_error _ h2 in
    let (forward, h4) =
      raise_if-eq-ok (ltb (phase_value p) (phase_value r.phase)) runtime_error _ h3 in
    let (whole, h5) = raise_if-eq-ok (is_terminal s && not (is_completed p)) runtime_error _ h4 in
    let same : ok (move_to r s p now_ms started error) ≡ ok t = h5 in
    (s, p, cc, ground arith, ground arith, whole)

-- An end is recorded of exactly the terminal statuses, and those stand in the last phase.
abbrev pub has_value {ℓ} : {A : Type ℓ} → Option A → Bool
has_value none = false
has_value (some a) = true

pub IsCoherent : RescaleOperation → Type 0
IsCoherent r =
    (has_value r.ended_at_ms ≡ is_terminal r.status)
    × (is_terminal r.status ≡ true → is_completed r.phase ≡ true)

is_terminal-moves_left : (s : RescaleOperationStatus) → (is_terminal s ≡ true) ↔ (moves_left s ≡ 0)
is_terminal-moves_left s = (λ h. ground arith, λ h. ground arith)

move_to-IsCoherent :
    (r : RescaleOperation) (s : RescaleOperationStatus) (p : RescaleOperationPhase) (now_ms : ℕ)
    (started : Option ℕ) (error : Option (Option ℕ))
    → IsCoherent r
    → is_terminal r.status ≡ false
    → (is_terminal s && not (is_completed p)) ≡ false
    → IsCoherent (move_to r s p now_ms started error)
unfolding IsCoherent move_to
move_to-IsCoherent r s p now_ms started error (ended, last) going_on at_end =
    elim (Bool-cases (is_terminal s)) [
      | inl final ↦ (rw (final) refl, λ h. ground arith)
      | inr going ↦ (rw going (ended ∙ going_on), λ h. ground arith)
    ]

-- From any operation the phase never goes back, and each transition uses up one of the moves left:
-- at most three can be made, and none from a terminal status.
pub Run-bounds :
    (n : ℕ) (r s : RescaleOperation)
    → Run n r s
    → (n + moves_left s.status ≤ moves_left r.status) × (phase_value r.phase ≤ phase_value s.phase)
unfolding merge_result move_to
Run-bounds n r s here = (omega arith, omega arith)
Run-bounds n r s (moved status phase now_ms started error run h) =
    let (next, p, same, allowed, forward, at_end) =
      transition-eq-ok _ s status phase now_ms started error h in
    let (fewer, further) = Run-bounds _ r _ run in
    let less = moves_left-is_allowed _ next allowed in
    subst
      (λ t.
        (n + moves_left t.status ≤ moves_left r.status)
        × (phase_value r.phase ≤ phase_value t.phase))
      (sym same) (omega arith, omega arith)
Run-bounds n r s (merged result now_ms run) = Run-bounds n r _ run

not_terminal-is_allowed :
    (s t : RescaleOperationStatus) → is_allowed s t ≡ true → is_terminal s ≡ false
not_terminal-is_allowed s t h =
    let less = moves_left-is_allowed s t h in
    elim (Bool-cases (is_terminal s)) [
      | inl final ↦ let spent = (is_terminal-moves_left s).0 final in absurd (omega arith)
      | inr going ↦ going
    ]

merge_result-IsCoherent :
    (r : RescaleOperation) (result : RescaleResult) (now_ms : ℕ)
    → IsCoherent r
    → IsCoherent (merge_result r result now_ms)
unfolding IsCoherent merge_result
merge_result-IsCoherent r result now_ms h = h

pub Run-IsCoherent : (n : ℕ) (r s : RescaleOperation) → Run n r s → IsCoherent r → IsCoherent s
Run-IsCoherent n r s here h = h
Run-IsCoherent n r s (moved status phase now_ms started error run made) h =
    let (next, p, same, allowed, forward, at_end) =
      transition-eq-ok _ s status phase now_ms started error made in
    subst IsCoherent (sym same) (
      move_to-IsCoherent _ next p now_ms started error (Run-IsCoherent _ r _ run h)
        (not_terminal-is_allowed _ next allowed) at_end)
Run-IsCoherent n r s (merged result now_ms run) h =
    merge_result-IsCoherent _ result now_ms (Run-IsCoherent n r _ run h)

-- An operation that was accepted, after any transitions and merged results: it has an end exactly if
-- its status is terminal, its phase is then the last one, and at most three transitions were made.
pub accepted_operation-IsCoherent :
    (operation_id job_id operator_id name : ℕ) (previous target : ℤ) (now_ms n : ℕ)
    (r : RescaleOperation)
    → Run n (accepted_operation operation_id job_id operator_id name previous target now_ms) r
    → IsCoherent r × (n ≤ 3)
unfolding accepted_operation IsCoherent
accepted_operation-IsCoherent i j o name previous target now_ms n r run =
    let (few, on) = Run-bounds n _ r run in
    (Run-IsCoherent n _ r run (refl, λ h. ground arith), omega arith)

-- A transition of a terminal operation, to any status and any phase, raises a RuntimeError.
transition-terminal :
    (r : RescaleOperation) (s : RescaleOperationStatus) (p : RescaleOperationPhase) (now_ms : ℕ)
    (started : Option ℕ) (error : Option (Option ℕ))
    → is_terminal r.status ≡ true
    → transition r (status_value s) (phase_name p) now_ms started error ≡ raise runtime_error
unfolding transition
transition-terminal r s p now_ms started error final =
    let refused : is_allowed r.status s ≡ false = elim (Bool-cases (is_allowed r.status s)) [
      | inl allowed ↦ let going = not_terminal-is_allowed r.status s allowed in absurd (cc)
      | inr refused ↦ refused
    ] in
    rw (parse_status_lem s, parse_phase_lem p, refused) refl
