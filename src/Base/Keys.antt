-- ===== src/Base/Keys.antt =====
-- Dicts whose keys stand once.
use klein.Base.{
  ℕ, ◌≡◌, inl, inr, refl, ◌∙◌, ap, false, ◌||◌, none, List, [], ◌∷◌, arith, ◌==◌, Bool-cases,
  ==_iff,
}
use klein.Base.Dict.{Dict, insert, lookup}
use klein.Base.Predicates.{contains, Distinct}

-- The keys of a dict stand once.
abbrev pub keys_of {ℓ} : {V : Type ℓ} → Dict V → List ℕ
keys_of [] = []
keys_of (entry ∷ entries) = entry.0 ∷ keys_of entries

abbrev pub IsDict {ℓ} : {V : Type ℓ} → Dict V → Type 0
IsDict d = Distinct (keys_of d)

module _ {ℓ} {V : Type ℓ} where
  pub contains-insert :
      (j k : ℕ) (v : V) (d : Dict V)
      → contains j (keys_of (insert k v d)) ≡ ((j == k) || contains j (keys_of d))
  contains-insert j k v [] = refl
  contains-insert j k v (e ∷ d) = ground (arith, contains-insert j k v d)

  pub insert-IsDict : (k : ℕ) (v : V) (d : Dict V) → IsDict d → IsDict (insert k v d)
  insert-IsDict k v [] h = (refl, tt)
  insert-IsDict k v (e ∷ d) (new, rest) = elim (Bool-cases (k == e.0)) [
    | inl hit ↦ rw hit (ap (λ x. contains x (keys_of d)) ((==_iff k e.0).0 hit) ∙ new, rest)
    | inr miss ↦
        rw miss (contains-insert e.0 k v d ∙ ground (arith, miss, new), insert-IsDict k v d rest)
  ]

  pub lookup-none : (k : ℕ) (d : Dict V) → contains k (keys_of d) ≡ false → lookup k d ≡ none
  lookup-none k [] h = refl
  lookup-none k (e ∷ d) h = ground (arith, h, lookup-none k d)
