-- ===== src/MemoryState/Tables.antt =====
-- Dicts whose keys stand once, and what an update of one by another holds.
use klein.Base.{
  ℕ, ◌≡◌, inl, inr, refl, ◌∙◌, ap, Option, none, some, [], ◌∷◌, arith, ◌==◌, Bool-cases, ==_iff,
}
use klein.Base.Dict.{Dict, insert, lookup, lookup-insert}
use klein.Base.Predicates.{contains, All}
use klein.Base.Keys.{keys_of, IsDict, lookup-none}
use klein.MemoryState.{update}

module _ {ℓ} {V : Type ℓ} where
  -- What holds of every value that is found holds of every entry.
  pub All-entries :
      (Q : ℕ → V → Type 0) (d : Dict V)
      → IsDict d
      → ((k : ℕ) (v : V) → lookup k d ≡ some v → Q k v)
      → All (λ e. Q e.0 e.1) d
  All-entries Q [] h q = tt
  All-entries Q (e ∷ d) (new, rest) q = (
    q e.0 e.1 (ground arith),
    All-entries Q d rest (λ k v at. elim (Bool-cases (k == e.0)) [
      | inl hit ↦
          let gone =
            lookup-none k d (ap (λ x. contains x (keys_of d)) ((==_iff k e.0).0 hit) ∙ new) in
          absurd (cc)
      | inr miss ↦ q k v (rw miss at)
    ]),
  )

  -- The first of two options that is set.
  abbrev pub over : Option V → Option V → Option V
  over none base = base
  over (some v) base = some v

-- What an update by a dict holds: its own entries, and those of the base beside them.
pub lookup-update :
    {V : Type 0} (k : ℕ) (base d : Dict V)
    → IsDict d
    → lookup k (update base d) ≡ over (lookup k d) (lookup k base)
unfolding update
lookup-update k base [] h = refl
lookup-update k base (e ∷ d) (new, rest) =
    lookup-update k (insert e.0 e.1 base) d rest ∙ elim (Bool-cases (k == e.0)) [
      | inl hit ↦
          let gone =
            lookup-none k d (ap (λ x. contains x (keys_of d)) ((==_iff k e.0).0 hit) ∙ new) in
          rw (hit, gone) (lookup-insert k e.0 e.1 base ∙ rw hit refl)
      | inr miss ↦ rw miss (ap (over (lookup k d)) (lookup-insert k e.0 e.1 base ∙ rw miss refl))
    ]
