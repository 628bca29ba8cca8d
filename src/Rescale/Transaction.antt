-- ===== src/Rescale/Transaction.antt =====
-- The phases that a transaction goes through.
use klein.Base.{
  ◌+◌, ◌≡◌, ◌↔◌, ◌⊎◌, inl, inr, refl, ap, ◌∙◌, not, true, ok, runtime_error, raise_if-eq-ok, leb,
  ◌==◌, arith, Bool-cases, ==_iff,
}
use klein.Rescale.{RescalePhase, initial, value, enter, attempted}

-- The phases that a transaction was in, from the first to the phase that it is in.
pub data Reach : RescalePhase → Type 0 where
  start : Reach initial
  next : {p : RescalePhase} (q r : RescalePhase) → Reach p → enter p q ≡ ok r → Reach r

abbrev pub WasIn : (p q : RescalePhase) → Reach q → Type 0
WasIn p q start = p ≡ initial
WasIn p q (next asked _ run h) = (p ≡ q) ⊎ WasIn p _ run

-- `enter` moves to the phase that was asked for, if it is the next one, and to no other.
pub enter_iff : (p q r : RescalePhase) → (enter p q ≡ ok r) ↔ ((value q ≡ value p + 1) × (r ≡ q))
unfolding enter
enter_iff p q r = (
  λ h.
      let (forward, h1) = raise_if-eq-ok (leb (value q) (value p)) runtime_error _ h in
      let (exact, h2) = raise_if-eq-ok (not (value q == value p + 1)) runtime_error _ h1 in
      (ground arith, cc),
  λ (follows, same). ground (arith, follows, same),
)

value-inj : (p q : RescalePhase) → value p ≡ value q → p ≡ q
value-inj p q h = ground arith

-- A phase was attempted exactly if the transaction was in it.
attempted_iff : (p q : RescalePhase) (run : Reach q) → (attempted q p ≡ true) ↔ WasIn p q run
unfolding attempted
attempted_iff p q start = (λ h. value-inj p initial (ground arith), λ h. rw h refl)
attempted_iff p q (next asked _ run h) =
    let (follows, same) = (enter_iff _ asked q).0 h in
    let one_more : value q ≡ value _ + 1 = ap value same ∙ follows in
    let before = attempted_iff p _ run in
    (
      λ reached. elim (Bool-cases (value p == value q)) [
        | inl here ↦ inl (value-inj p q ((==_iff (value p) (value q)).0 here))
        | inr earlier ↦ inr (before.0 (ground (arith, reached, one_more)))
      ],
      λ was. elim was [
        | inl here ↦ rw here (ground arith)
        | inr earlier ↦ let at = before.1 earlier in ground (arith, at, one_more)
      ],
    )
