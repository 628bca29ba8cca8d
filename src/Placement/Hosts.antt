-- ===== src/Placement/Hosts.antt =====
-- The loop over the nodes gives up only where no node can host the subtask.
use klein.Base.{
  length-le_of_none, lt-length_of_some, ℕ, zero, suc, ◌+◌, ◌%◌, ◌≤◌, ◌<◌, ◌≡◌, ◌⊎◌, refl, sym, ◌∙◌,
  ap, subst, false, none, some, List, [], length, get_elem?, arith, Bool-cases, Option-cases, inl,
  inr,
}
use klein.Base.Division.{div-eq_iff}
use klein.Placement.{FloatOps, WorkerNode, ExecutionJobVertex, can_host, find_host}

mod-suc : (c n : ℕ) → c < n → (c + 1 < n → (c + 1) % n ≡ c + 1) × (c + 1 ≡ n → (c + 1) % n ≡ 0)
mod-suc c n low = (
  λ below.
      let none_before = (div-eq_iff (c + 1) n 0 (omega arith)).1 (omega arith, omega arith) in
      grind (arith, none_before),
  λ last.
      let one_before = (div-eq_iff (c + 1) n 1 (omega arith)).1 (omega arith, omega arith) in
      grind (arith, one_before),
)

pub next-lt-length : (c n : ℕ) → c < n → (c + 1) % n < n
next-lt-length c n low = let (inside, wrap) = mod-suc c n low in grind arith

-- The rounds that begin at the cursor come to the place `p`.
Visits : ℕ → ℕ → ℕ → ℕ → Type 0
Visits n rounds cursor p =
    ((cursor ≤ p) × (p < cursor + rounds)) ⊎ ((p < cursor) × (n + p < cursor + rounds))

Visits-next :
    (n rounds cursor p : ℕ)
    → cursor < n
    → p < n
    → Visits n (suc rounds) cursor p
    → (p ≡ cursor) ⊎ Visits n rounds ((cursor + 1) % n) p
unfolding Visits
Visits-next n rounds cursor p low in_range visits =
    let (inside, wrap) = mod-suc cursor n low in grind arith

module _ {F : Type 0} (float : FloatOps F) where
  find_host-none :
      (rounds cursor : ℕ) (nodes : List (WorkerNode F)) (v : ExecutionJobVertex F) (p : ℕ)
      (node : WorkerNode F)
      → find_host float rounds cursor nodes v ≡ none
      → cursor < length nodes
      → Visits (length nodes) rounds cursor p
      → get_elem? nodes p ≡ some node
      → can_host float node v ≡ false
  unfolding find_host Visits
  find_host-none zero cursor nodes v p node h low visits at = absurd (grind arith)
  find_host-none (suc rounds) cursor nodes v p node h low visits at =
      let n = length nodes in
      let next = (cursor + 1) % n in
      let (inside, wrap) = mod-suc cursor n low in
      let low' : next < n = grind arith in
      elim (Option-cases (get_elem? nodes cursor)) [
        | inl missing ↦ absurd (let beyond = length-le_of_none nodes cursor missing in omega arith)
        | inr (w, there) ↦ elim (Bool-cases (can_host float w v)) [
          | inl fits ↦
              absurd
                (let found : some cursor ≡ none = sym (rw (find_host, there, fits) refl) ∙ h in cc)
          | inr full ↦
              let later : find_host float rounds next nodes v ≡ none =
                sym (rw (find_host, there, full) refl) ∙ h in
              elim (Visits-next n rounds cursor p low (lt-length_of_some nodes p node at) visits) [
                | inl here ↦
                    let same : some w ≡ some node =
                      sym there ∙ ap (get_elem? nodes) (sym here) ∙ at in
                    let one : w ≡ node = cc in subst (λ x. can_host float x v ≡ false) one full
                | inr rest ↦ find_host-none rounds next nodes v p node later low' rest at
              ]
        ]
      ]

  -- Over one round from a cursor in range nothing was found, so that nobody can host the subtask.
  unfoldable pub Unfit : ExecutionJobVertex F → List (WorkerNode F) → Type 0
  Unfit v nodes =
      (p : ℕ) (node : WorkerNode F) → get_elem? nodes p ≡ some node → can_host float node v ≡ false

  pub find_host-Unfit :
      (cursor : ℕ) (nodes : List (WorkerNode F)) (v : ExecutionJobVertex F)
      → find_host float (length nodes) cursor nodes v ≡ none
      → (nodes ≡ []) ⊎ (cursor < length nodes)
      → Unfit v nodes
  unfolding Unfit Visits
  find_host-Unfit cursor nodes v h (inl empty) p node at =
      absurd (let gone = subst (λ x. get_elem? x p ≡ some node) empty at in cc)
  find_host-Unfit cursor nodes v h (inr low) p node at =
      let in_range = lt-length_of_some nodes p node at in
      find_host-none (length nodes) cursor nodes v p node h low (grind arith) at
