-- ===== src/Coordinator/Domains/Search.antt =====
-- What one search over the edges finds, and how many steps it takes.
use klein.Base.{
  ℕ, zero, suc, ◌+◌, ◌≤◌, ◌≡◌, ◌⊎◌, inl, inr, refl, sym, ◌∙◌, subst, true, false, ◌||◌, List, [],
  ◌∷◌, arith, ◌==◌, if◌then◌else◌, length, Bool-cases, ==_iff,
}
use klein.Base.Predicates.{contains}
use klein.Coordinator.Domains.{adjacent, reversed, visit}

-- Edges lead from one vertex to the other, over any number of steps.
pub data Leads (edges : List (ℕ × ℕ)) (a : ℕ) : ℕ → Type 0 where
  here : Leads edges a a
  onward :
      {b : ℕ} (c : ℕ) → Leads edges a b → contains c (adjacent b edges) ≡ true → Leads edges a c

Leads-before :
    (edges : List (ℕ × ℕ)) (a b c : ℕ)
    → contains b (adjacent a edges) ≡ true
    → Leads edges b c
    → Leads edges a c
Leads-before edges a b c first here = onward b here first
Leads-before edges a b c first (onward _ path last) =
    onward c (Leads-before edges a b _ first path) last

pub contains-reversed :
    (v : ℕ) (vs tail : List ℕ) → contains v (reversed vs tail) ≡ (contains v vs || contains v tail)
contains-reversed v [] tail = refl
contains-reversed v (w ∷ vs) tail = ground (arith, contains-reversed v vs (w ∷ tail))

pub length-reversed : (vs tail : List ℕ) → length (reversed vs tail) ≡ length vs + length tail
length-reversed [] tail = omega arith
length-reversed (v ∷ vs) tail = omega (arith, length-reversed vs (v ∷ tail))

-- How many edges start outside of the vertices that were expanded.
abbrev pub unvisited : List (ℕ × ℕ) → List ℕ → ℕ
unvisited [] reachable = 0
unvisited (edge ∷ edges) reachable =
    (if contains edge.0 reachable then 0 else 1) + unvisited edges reachable

pub unvisited-expand :
    (edges : List (ℕ × ℕ)) (v : ℕ) (reachable : List ℕ)
    → contains v reachable ≡ false
    → length (adjacent v edges) + unvisited edges (v ∷ reachable) ≡ unvisited edges reachable
unvisited-expand [] v reachable new = refl
unvisited-expand (edge ∷ edges) v reachable new =
    let rest = unvisited-expand edges v reachable new in
    elim (Bool-cases (edge.0 == v)) [
      | inl hit ↦
          let same : contains edge.0 reachable ≡ false =
            subst (λ x. contains x reachable ≡ false) (sym ((==_iff edge.0 v).0 hit)) new in
          rw (hit, same) (omega (arith, rest))
      | inr miss ↦ rw miss (omega (arith, rest))
    ]

-- What the search finds was known, or some vertex on the stack leads to it.
pub visit-Leads :
    (fuel : ℕ) (edges : List (ℕ × ℕ)) (stack reachable : List ℕ) (v : ℕ)
    → contains v (visit fuel edges stack reachable) ≡ true
    → (contains v reachable ≡ true) ⊎ ((s : ℕ) × (contains s stack ≡ true) × Leads edges s v)
unfolding visit
visit-Leads zero edges stack reachable v h = inl h
visit-Leads (suc fuel) edges [] reachable v h = inl h
visit-Leads (suc fuel) edges (w ∷ stack) reachable v h = elim (Bool-cases (contains w reachable)) [
  | inl old ↦ elim (visit-Leads fuel edges stack reachable v (sym (rw (visit, old) refl) ∙ h)) [
    | inl known ↦ inl known
    | inr (s, there, path) ↦ inr (s, ground (arith, there), path)
  ]
  | inr new ↦
      let deeper = reversed (adjacent w edges) stack in
      elim (visit-Leads fuel edges deeper (w ∷ reachable) v (sym (rw (visit, new) refl) ∙ h)) [
        | inl known ↦ elim (Bool-cases (v == w)) [
          | inl hit ↦
              inr (w, ground arith, subst (λ x. Leads edges w x) (sym ((==_iff v w).0 hit)) here)
          | inr miss ↦ inl (ground (arith, known, miss))
        ]
        | inr (s, there, path) ↦
            let split = sym (contains-reversed s (adjacent w edges) stack) ∙ there in
            elim (Bool-cases (contains s (adjacent w edges))) [
              | inl next ↦ inr (w, ground arith, Leads-before edges w s v next path)
              | inr other ↦ inr (s, ground (arith, split, other), path)
            ]
      ]
]

-- The search keeps what it knows.
pub visit-keeps :
    (fuel : ℕ) (edges : List (ℕ × ℕ)) (stack reachable : List ℕ) (v : ℕ)
    → contains v reachable ≡ true
    → contains v (visit fuel edges stack reachable) ≡ true
unfolding visit
visit-keeps zero edges stack reachable v h = h
visit-keeps (suc fuel) edges [] reachable v h = h
visit-keeps (suc fuel) edges (w ∷ stack) reachable v h = elim (Bool-cases (contains w reachable)) [
  | inl old ↦ rw (visit, old) (visit-keeps fuel edges stack reachable v h)
  | inr new ↦ rw (visit, new) (visit-keeps fuel edges _ (w ∷ reachable) v (ground (arith, h)))
]

-- What stands on the stack is expanded, with fuel for it and for each edge that is not visited.
pub visit-stack :
    (fuel : ℕ) (edges : List (ℕ × ℕ)) (stack reachable : List ℕ) (s : ℕ)
    → length stack + unvisited edges reachable ≤ fuel
    → contains s stack ≡ true
    → contains s (visit fuel edges stack reachable) ≡ true
unfolding visit
visit-stack zero edges [] reachable s enough h = absurd (cc)
visit-stack zero edges (w ∷ stack) reachable s enough h = absurd (omega arith)
visit-stack (suc fuel) edges [] reachable s enough h = absurd (cc)
visit-stack (suc fuel) edges (w ∷ stack) reachable s enough h =
    let deeper = reversed (adjacent w edges) stack in
    elim (Bool-cases (contains w reachable)) [
      | inl old ↦
          rw (visit, old)
            (elim (Bool-cases (s == w)) [
              | inl hit ↦
                  let same = sym ((==_iff s w).0 hit) in
                  visit-keeps fuel edges stack reachable s
                    (subst (λ x. contains x reachable ≡ true) same old)
              | inr miss ↦
                  visit-stack fuel edges stack reachable s (omega arith) (ground (arith, miss, h))
            ])
      | inr new ↦
          rw (visit, new)
            (elim (Bool-cases (s == w)) [
              | inl hit ↦ visit-keeps fuel edges deeper (w ∷ reachable) s (ground (arith, hit))
              | inr miss ↦
                  visit-stack fuel edges deeper (w ∷ reachable) s
                    (omega (
                      arith,
                      unvisited-expand edges w reachable new,
                      length-reversed (adjacent w edges) stack,
                    ))
                    (contains-reversed s (adjacent w edges) stack ∙ ground (arith, miss, h))
            ])
    ]
