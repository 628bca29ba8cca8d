-- ===== src/Base/Counting.antt =====
-- Numbers that stand once and below a bound are no more than the bound, and all of them if so many.
use klein.Base.{
  ℕ, zero, suc, ◌≤◌, ◌<◌, ◌≡◌, refl, sym, ◌∙◌, ap, true, false, List, [], ◌∷◌, length, ◌==◌,
  if◌then◌else◌, arith, Bool-cases, ==_iff, inl, inr,
}
use klein.Base.Predicates.{contains, Distinct, All}

abbrev pub Below : ℕ → List ℕ → Type 0
Below n = All (λ i. i < n)

-- The list without a number.
abbrev without_one : ℕ → List ℕ → List ℕ
without_one k [] = []
without_one k (i ∷ is) = let rest = without_one k is in if i == k then rest else i ∷ rest

contains-without_one :
    (j k : ℕ) (is : List ℕ) → contains j is ≡ false → contains j (without_one k is) ≡ false
contains-without_one j k [] h = refl
contains-without_one j k (i ∷ is) h = ground (arith, h, contains-without_one j k is)

without_one-Distinct : (k : ℕ) (is : List ℕ) → Distinct is → Distinct (without_one k is)
without_one-Distinct k [] h = tt
without_one-Distinct k (i ∷ is) (new, rest) = elim (Bool-cases (i == k)) [
  | inl hit ↦ rw hit (without_one-Distinct k is rest)
  | inr miss ↦ rw miss (contains-without_one i k is new, without_one-Distinct k is rest)
]

without_one-absent : (k : ℕ) (is : List ℕ) → contains k is ≡ false → without_one k is ≡ is
without_one-absent k [] h = refl
without_one-absent k (i ∷ is) h = ground (arith, h, without_one-absent k is)

-- Of numbers that stand once, at most one is left out.
length-without_one :
    (k : ℕ) (is : List ℕ) → Distinct is → length is ≤ suc (length (without_one k is))
length-without_one k [] h = omega arith
length-without_one k (i ∷ is) (new, rest) = elim (Bool-cases (i == k)) [
  | inl hit ↦
      let gone =
        without_one-absent k is (ap (λ x. contains x is) (sym ((==_iff i k).0 hit)) ∙ new) in
      rw (hit, gone) (omega arith)
  | inr miss ↦ rw miss (omega (arith, length-without_one k is rest))
]

Below-without_one : (n : ℕ) (is : List ℕ) → Below (suc n) is → Below n (without_one n is)
Below-without_one n [] h = tt
Below-without_one n (i ∷ is) (low, rest) = elim (Bool-cases (i == n)) [
  | inl hit ↦ rw hit (Below-without_one n is rest)
  | inr miss ↦ rw miss (ground (arith, low, miss), Below-without_one n is rest)
]

-- There are at most `n` numbers below `n`.
pub length-Below : (n : ℕ) (is : List ℕ) → Distinct is → Below n is → length is ≤ n
length-Below zero [] d h = omega arith
length-Below zero (i ∷ is) d (low, rest) = absurd (omega arith)
length-Below (suc n) is d h =
    let fewer =
      length-Below n (without_one n is) (without_one-Distinct n is d) (Below-without_one n is h) in
    omega (arith, fewer, length-without_one n is d)

-- So that `n` of them are all of them.
pub contains-Below :
    (n k : ℕ) (is : List ℕ)
    → Distinct is
    → Below n is
    → length is ≡ n
    → k < n
    → contains k is ≡ true
contains-Below n k is d h full low = elim (Bool-cases (contains k is)) [
  | inl there ↦ there
  | inr missing ↦
      let more = length-Below n (k ∷ is) (missing, d) (low, h) in absurd (omega (arith, more, full))
]
