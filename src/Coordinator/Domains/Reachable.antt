-- ===== src/Coordinator/Domains/Reachable.antt =====
-- The search of `_reachable_domain_sinks` ends, and finds what the edges lead to.
use klein.Base.{
  ℕ, zero, suc, ◌+◌, ◌≤◌, ◌≡◌, ◌↔◌, inl, inr, refl, sym, ◌∙◌, ap, subst, true, ◌&&◌, ◌||◌, List, [],
  ◌∷◌, arith, ◌==◌, length, Bool-cases, Bool-and, ==_iff,
}
use klein.Base.Predicates.{contains}
use klein.Coordinator.Domains.{
  CheckpointDomain, ExecutionGraph, sorted_ids, insert_id, inner_edges, adjacent, reversed, visit,
  intersection, reachable_domain_sinks,
}
use klein.Coordinator.Domains.Search.{
  Leads, here, onward, contains-reversed, length-reversed, unvisited, unvisited-expand, visit-Leads,
  visit-stack,
}

-- Each neighbour of a vertex that was expanded is known or on the stack.
abbrev pub IsClosed : List (ℕ × ℕ) → List ℕ → List ℕ → Type 0
IsClosed edges stack reachable =
    (a b : ℕ)
    → contains a reachable ≡ true
    → contains b (adjacent a edges) ≡ true
    → (contains b reachable || contains b stack) ≡ true

visit-IsClosed :
    (fuel : ℕ) (edges : List (ℕ × ℕ)) (stack reachable : List ℕ)
    → length stack + unvisited edges reachable ≤ fuel
    → IsClosed edges stack reachable
    → IsClosed edges [] (visit fuel edges stack reachable)
unfolding visit
visit-IsClosed zero edges [] reachable enough closed = closed
visit-IsClosed zero edges (w ∷ stack) reachable enough closed = absurd (omega arith)
visit-IsClosed (suc fuel) edges [] reachable enough closed = closed
visit-IsClosed (suc fuel) edges (w ∷ stack) reachable enough closed =
    let deeper = reversed (adjacent w edges) stack in
    elim (Bool-cases (contains w reachable)) [
      | inl old ↦
          rw (visit, old)
            (visit-IsClosed fuel edges stack reachable (omega arith) (λ a b known edge.
              let before = closed a b known edge in
              elim (Bool-cases (b == w)) [
                | inl hit ↦
                    let there =
                      subst (λ x. contains x reachable ≡ true) (sym ((==_iff b w).0 hit)) old in
                    ground (arith, there)
                | inr miss ↦ ground (arith, before, miss)
              ]))
      | inr new ↦
          rw (visit, new)
            (visit-IsClosed fuel edges deeper (w ∷ reachable)
              (omega (
                arith,
                unvisited-expand edges w reachable new,
                length-reversed (adjacent w edges) stack,
              ))
              (λ a b known edge.
                let split = contains-reversed b (adjacent w edges) stack in
                elim (Bool-cases (a == w)) [
                  | inl hit ↦
                      let there =
                        subst (λ x. contains b (adjacent x edges) ≡ true) ((==_iff a w).0 hit)
                          edge in
                      ground (arith, split, there)
                  | inr miss ↦
                      let before = closed a b (ground (arith, known, miss)) edge in
                      ground (arith, split, before)
                ]))
    ]

IsClosed-Leads :
    (edges : List (ℕ × ℕ)) (found : List ℕ) (a b : ℕ)
    → IsClosed edges [] found
    → contains a found ≡ true
    → Leads edges a b
    → contains b found ≡ true
IsClosed-Leads edges found a b closed start here = start
IsClosed-Leads edges found a b closed start (onward _ path last) =
    let known = closed _ b (IsClosed-Leads edges found a _ closed start path) last in
    ground (arith, known)

contains-insert_id :
    (v w : ℕ) (vs : List ℕ) → contains v (insert_id w vs) ≡ ((v == w) || contains v vs)
contains-insert_id v w [] = refl
contains-insert_id v w (u ∷ vs) = ground (arith, contains-insert_id v w vs)

contains-sorted_ids : (v : ℕ) (vs : List ℕ) → contains v (sorted_ids vs) ≡ contains v vs
unfolding sorted_ids
contains-sorted_ids v [] = refl
contains-sorted_ids v (w ∷ vs) =
    contains-insert_id v w (sorted_ids vs) ∙ ap (λ x. (v == w) || x) (contains-sorted_ids v vs)

contains-intersection :
    (v : ℕ) (vs others : List ℕ)
    → contains v (intersection vs others) ≡ (contains v vs && contains v others)
contains-intersection v [] others = refl
contains-intersection v (w ∷ vs) others =
    let rest = contains-intersection v vs others in
    elim (Bool-cases (v == w)) [
      | inl hit ↦
          let same = ap (λ x. contains x others) ((==_iff v w).0 hit) in
          ground (arith, rest, same, hit)
      | inr miss ↦ ground (arith, rest, miss)
    ]

unvisited-none : (edges : List (ℕ × ℕ)) → unvisited edges [] ≡ length edges
unvisited-none [] = refl
unvisited-none (edge ∷ edges) = omega (arith, unvisited-none edges)

-- The committers of a checkpoint are exactly the sinks of the domain to which the edges inside the
-- domain lead from one of the given sources: the search never runs out of steps.
pub contains-reachable_domain_sinks_iff :
    (graph : ExecutionGraph) (domain : CheckpointDomain) (sources : List ℕ) (v : ℕ)
    → (contains v (reachable_domain_sinks graph domain sources) ≡ true) ↔ (
        (contains v domain.sink_vertex_ids ≡ true)
        × (s : ℕ) × (contains s sources ≡ true)
        × Leads (inner_edges domain.vertex_ids graph.execution_edges) s v)
unfolding reachable_domain_sinks
contains-reachable_domain_sinks_iff graph domain sources v =
    let edges = inner_edges domain.vertex_ids graph.execution_edges in
    let fuel = length sources + length edges in
    let stack = reversed sources [] in
    let found = visit fuel edges stack [] in
    let enough : length stack + unvisited edges [] ≤ fuel =
      omega (arith, length-reversed sources [], unvisited-none edges) in
    let both =
      contains-sorted_ids v (intersection found domain.sink_vertex_ids)
      ∙ contains-intersection v found domain.sink_vertex_ids in
    let stacked : (s : ℕ) → contains s stack ≡ contains s sources =
      λ s. contains-reversed s sources [] ∙ ground arith in
    (
      λ committer.
          let (known, sink) = Bool-and (contains v found) _ (sym both ∙ committer) in
          elim (visit-Leads fuel edges stack [] v known) [
            | inl impossible ↦ absurd (cc)
            | inr (s, there, path) ↦ (sink, s, sym (stacked s) ∙ there, path)
          ],
      λ (sink, s, source, path).
          let start = visit-stack fuel edges stack [] s enough (stacked s ∙ source) in
          let closed = visit-IsClosed fuel edges stack [] enough (λ a b known edge. absurd (cc)) in
          let known = IsClosed-Leads edges found s v closed start path in
          both ∙ ground (arith, known, sink),
    )
