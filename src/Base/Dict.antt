-- ===== src/Base/Dict.antt =====
-- A Python dict, in insertion order. Its keys are identities that the program only compares, so
-- they are numbers.
use klein.Base.{
  ℕ, ◌≡◌, ◌⊎◌, inl, inr, refl, sym, ◌∙◌, false, Bool-cases, ==_iff, Option, none, some, List, [],
  ◌∷◌, arith, ◌==◌, if◌then◌else◌,
}

abbrev pub Dict {ℓ} : Type ℓ → Type ℓ
Dict V = List (ℕ × V)

module _ {ℓ} {V : Type ℓ} where
  -- `d[key] = value`: a key that is there keeps its place
  abbrev pub insert : ℕ → V → Dict V → Dict V
  insert key value [] = (key, value) ∷ []
  insert key value (entry ∷ rest) =
      if key == entry.0 then (key, value) ∷ rest else entry ∷ insert key value rest

  -- `d.get(key)`
  abbrev pub lookup : ℕ → Dict V → Option V
  lookup key [] = none
  lookup key (entry ∷ rest) = if key == entry.0 then some entry.1 else lookup key rest

  -- `d.get(key, default)`
  abbrev pub lookup_or : ℕ → V → Dict V → V
  lookup_or key default d = elim (lookup key d) [ none ↦ default | some value ↦ value ]

  -- `d.pop(k, None)`
  abbrev pub erase : ℕ → Dict V → Dict V
  erase key [] = []
  erase key (entry ∷ rest) =
      let kept = erase key rest in if key == entry.0 then kept else entry ∷ kept

  pub lookup-insert :
      (j k : ℕ) (v : V) (d : Dict V)
      → lookup j (insert k v d) ≡ (if j == k then some v else lookup j d)
  lookup-insert j k v [] = refl
  lookup-insert j k v (e ∷ d) = ground (arith, lookup-insert j k v d)

  pub lookup_or-insert :
      (j k : ℕ) (v default : V) (d : Dict V)
      → lookup_or j default (insert k v d) ≡ (if j == k then v else lookup_or j default d)
  lookup_or-insert j k v default d = ground (arith, lookup-insert j k v d)

  pub lookup-erase :
      (j k : ℕ) (d : Dict V) → lookup j (erase k d) ≡ (if j == k then none else lookup j d)
  lookup-erase j k [] = ground arith
  lookup-erase j k (e ∷ d) = ground (arith, lookup-erase j k d)

-- Where a value that is found comes from.
module _ {ℓ} {V : Type ℓ} where
  pub lookup-insert_cases :
      (j k : ℕ) (v w : V) (d : Dict V)
      → lookup j (insert k v d) ≡ some w
      → ((j ≡ k) × (v ≡ w)) ⊎ (((j == k) ≡ false) × (lookup j d ≡ some w))
  lookup-insert_cases j k v w d h =
      let at = sym (lookup-insert j k v d) ∙ h in
      elim (Bool-cases (j == k)) [
        | inl hit ↦
            let same : some v ≡ some w = sym (rw hit refl) ∙ at in inl ((==_iff j k).0 hit, cc)
        | inr miss ↦ inr (miss, sym (rw miss refl) ∙ at)
      ]

  pub lookup-erase_cases :
      (j k : ℕ) (w : V) (d : Dict V)
      → lookup j (erase k d) ≡ some w
      → ((j == k) ≡ false) × (lookup j d ≡ some w)
  lookup-erase_cases j k w d h =
      let at = sym (lookup-erase j k d) ∙ h in
      elim (Bool-cases (j == k)) [
        | inl hit ↦ let lost : none ≡ some w = sym (rw hit refl) ∙ at in absurd (cc)
        | inr miss ↦ (miss, sym (rw miss refl) ∙ at)
      ]

pub insert-insert {ℓ} :
    {V : Type ℓ} (k : ℕ) (v w : V) (d : Dict V) → insert k v (insert k w d) ≡ insert k v d
insert-insert k v w [] = ground arith
insert-insert k v w (e ∷ d) = ground (arith, insert-insert k v w d)

pub ruleset dict_laws = (lookup-insert, lookup-erase)
