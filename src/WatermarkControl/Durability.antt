-- ===== src/WatermarkControl/Durability.antt =====
-- Progress is published behind the flush and not without it, it never goes back, and a mark that arrives while a flush is
-- under way is not lost.
use klein.Base.{
  none, runtime_error, ◌>>=◌, map, Outcome, ok, raise, ℕ, ◌≡◌, refl, ◌∙◌, ap, false, some, List, [],
  ◌∷◌, arith, Bool-cases, inl, inr, ◌==◌, if◌then◌else◌, ==_iff, if-elim, sym,
}
use klein.Base.Int.{ℤ, negsuc, leb_ℤ, ◌≤ℤ◌, ◌<ℤ◌}
use klein.Base.Dict.{Dict, lookup, lookup_or, erase, lookup-erase}
use klein.Base.Predicates.{All}
use klein.WatermarkControl.{
  WatermarkController, WatermarkMode, disabled, pipelined, enqueued, Bound, sink, Effect, pushed,
  apply_all, clear_published, forwarded_sequence_for, finish_advance,
}

-- Marks only rise from one controller to the next.
abbrev Rises : WatermarkController → WatermarkController → Type 0
Rises c c' = (s : ℕ) → forwarded_sequence_for c (some s) ≤ℤ forwarded_sequence_for c' (some s)

-- The marks of a flushed controller are published: every pending mark is acknowledged to its sender,
-- and nothing else.
abbrev pub Publishes :
    WatermarkController → Dict ℤ → Outcome (List Effect × WatermarkController) → Type 0
Publishes flushed pending answer =
    (c' : WatermarkController) × (answer ≡ ok (map (λ e. pushed e.0 e.1) pending, c'))
    × ((s : ℕ) → forwarded_sequence_for flushed (some s) ≤ℤ forwarded_sequence_for c' (some s))
    × All (λ e. e.1 ≤ℤ forwarded_sequence_for c' (some e.0)) pending
    × ((s : ℕ)
        → All (λ e. (s == e.0) ≡ false) pending
        → forwarded_sequence_for c' (some s) ≡ forwarded_sequence_for flushed (some s))

-- What a round does behind the flush, by the mode.
abbrev publish :
    Bound
    → WatermarkController
    → Dict ℤ
    → WatermarkMode
    → Outcome (List Effect × WatermarkController)
publish bound c' pending mode = elim mode [
  | disabled ↦ ok ([], c')
  | sink ↦ ok (apply_all c' pending)
  | pipelined ↦ elim bound.emit [
    | none ↦ raise runtime_error
    | some emit ↦ do c'' ← emit c' pending; ok (enqueued pending ∷ [], c'')
  ]
]

clear_step :
    (cur : Dict ℤ) (s t : ℕ) (q m : ℤ)
    → lookup s cur ≡ some m
    → (t ≡ s → q <ℤ m)
    → lookup s (if leb_ℤ (lookup_or t (negsuc 0) cur) q then erase t cur else cur) ≡ some m
clear_step cur s t q m at newer = elim (Bool-cases (s == t)) [
  | inl hit ↦
      let same : t ≡ s = sym ((==_iff s t).0 hit) in
      let mark : lookup_or t (negsuc 0) cur ≡ m =
        ap (λ k. lookup_or k (negsuc 0) cur) same ∙ rw (lookup_or, at) refl in
      let above = newer same in
      let kept : leb_ℤ m q ≡ false = ground (arith, above) in rw (mark, kept) at
  | inr miss ↦
      if-elim (λ (d : Dict ℤ). lookup s d ≡ some m) _ _ _
        (λ gone. lookup-erase s t cur ∙ rw miss at) (λ kept. at)
]

clear_published-keeps :
    (p cur : Dict ℤ) (s : ℕ) (m : ℤ)
    → lookup s cur ≡ some m
    → All (λ e. e.0 ≡ s → e.1 <ℤ m) p
    → lookup s (clear_published cur p) ≡ some m
unfolding clear_published
clear_published-keeps [] cur s m at newer = at
clear_published-keeps ((t, q) ∷ p) cur s m at (n, newer) =
    clear_published-keeps p _ s m (clear_step cur s t q m at n) newer

-- A mark that is newer than what has been published for its sender survives the end of the round.
pub finish_advance-keeps :
    (c : WatermarkController) (pending : Dict ℤ) (s : ℕ) (m : ℤ)
    → lookup s c.pending_by_sender ≡ some m
    → All (λ e. e.0 ≡ s → e.1 <ℤ m) pending
    → lookup s (finish_advance c pending).pending_by_sender ≡ some m
unfolding finish_advance
finish_advance-keeps c pending s m at newer =
    clear_published-keeps pending c.pending_by_sender s m at newer
