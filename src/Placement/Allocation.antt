-- ===== src/Placement/Allocation.antt =====
-- A whole allocation over the vertices of a job: where the subtasks go, and when it gives up.
use klein.Base.{
  ℕ, ◌<◌, ◌≡◌, refl, ap, Bool, true, Option, none, some, List, [], ◌∷◌, ◌++◌, length, Outcome, ok,
  arith, Bool-cases, inl, inr, ◌⊎◌, ltb,
}
use klein.Base.Predicates.{any}
use klein.Base.Dict.{Dict, insert}
use mathlib.Core.List.{Permᴰ}
use mathlib.Core.List.Permᴰ
use klein.Placement.{
  FloatOps, WorkerNode, ExecutionJobVertex, place_vertices, insert_by, sort_by, node_first,
  vertex_first, no_assignments, round_robin_allocate,
}
use klein.Placement.Hosts.{Unfit}
use klein.Placement.Subtasks.{Placed, nowhere, place_subtasks-Answers}

-- Sorting rearranges.
module _ {A : Type 0} (first : A → A → Bool) where
  insert_by-Perm : (a : A) (as' : List A) → Permᴰ (a ∷ as') (insert_by first a as')
  insert_by-Perm a [] = Permᴰ.refl (a ∷ [])
  insert_by-Perm a (b ∷ bs) = elim (Bool-cases (first b a)) [
    | inl later ↦
        rw later (Permᴰ.trans (Permᴰ.swap refl refl) (Permᴰ.cons refl (insert_by-Perm a bs)))
    | inr here ↦ rw here (Permᴰ.refl (a ∷ b ∷ bs))
  ]

  sort_by-Perm : (as' : List A) → Permᴰ as' (sort_by first as')
  unfolding sort_by
  sort_by-Perm [] = Permᴰ.nil
  sort_by-Perm (a ∷ as') =
      Permᴰ.trans (Permᴰ.cons refl (sort_by-Perm as')) (insert_by-Perm a (sort_by first as'))

in_range : {A : Type 0} (as' : List A) → (as' ≡ []) ⊎ (0 < length as')
in_range [] = inl refl
in_range (a ∷ as') = inr (omega arith)

module _ {F : Type 0} (float : FloatOps F) where
  -- A vertex with the indices of the nodes of its subtasks.
  abbrev pub Placement : Type 0
  Placement = ExecutionJobVertex F × List ℕ

  -- The vertices are placed one after another with all their subtasks, each on the nodes, in some
  -- order, that the ones before have left.
  pub data PlacedAll
      : List (ExecutionJobVertex F)
        → List (WorkerNode F)
        → List Placement
        → List (WorkerNode F)
        → Type 0 where
    nothing : {nodes : List (WorkerNode F)} → PlacedAll [] nodes [] nodes
    vertex_on :
        {v : ExecutionJobVertex F} {vs : List (ExecutionJobVertex F)}
        {nodes ordered rest left : List (WorkerNode F)} {indices : List ℕ} {ps : List Placement}
        → Permᴰ nodes ordered
        → Placed float v ordered indices rest
        → length indices ≡ v.concurrency
        → PlacedAll vs rest ps left
        → PlacedAll (v ∷ vs) nodes ((v, indices) ∷ ps) left

  -- The entries that the placements fill in.
  abbrev pub filled : List Placement → Dict (List ℕ) → Dict (List ℕ)
  filled [] assignments = assignments
  filled (p ∷ ps) assignments = filled ps (insert p.0.id p.1 assignments)

  abbrev pub Places :
      List (ExecutionJobVertex F)
      → List (WorkerNode F)
      → Dict (List ℕ)
      → Outcome (Option (Dict (List ℕ)))
      → Type 0
  Places vs nodes assignments answer =
      (ps : List Placement) × (left : List (WorkerNode F)) × (answer
        ≡ ok (some (filled ps assignments)))
      × PlacedAll vs nodes ps left

  -- The vertices before one are placed, and some of its subtasks, and then no node can host its next
  -- one.
  pub record Stuck (vs : List (ExecutionJobVertex F)) (nodes : List (WorkerNode F)) : Type 0 where
    before : List (ExecutionJobVertex F)
    v : ExecutionJobVertex F
    after : List (ExecutionJobVertex F)
    split : vs ≡ before ++ v ∷ after
    ps : List Placement
    rest : List (WorkerNode F)
    placed_before : PlacedAll before nodes ps rest
    ordered : List (WorkerNode F)
    rearranged : Permᴰ rest ordered
    indices : List ℕ
    left : List (WorkerNode F)
    placed : Placed float v ordered indices left
    fewer : length indices < v.concurrency
    unfit : Unfit float v left

  abbrev pub GivesUp :
      List (ExecutionJobVertex F) → List (WorkerNode F) → Outcome (Option (Dict (List ℕ))) → Type 0
  GivesUp vs nodes answer = (answer ≡ ok none) × Stuck vs nodes

  Stuck-behind :
      (v : ExecutionJobVertex F) (vs : List (ExecutionJobVertex F))
      (nodes ordered rest : List (WorkerNode F)) (indices : List ℕ)
      → Permᴰ nodes ordered
      → Placed float v ordered indices rest
      → length indices ≡ v.concurrency
      → Stuck vs rest
      → Stuck (v ∷ vs) nodes
  Stuck-behind v vs nodes ordered rest indices same placed all_placed stuck = record {
    before = v ∷ stuck.before;
    v = stuck.v;
    after = stuck.after;
    split = ap (λ x. v ∷ x) stuck.split;
    ps = (v, indices) ∷ stuck.ps;
    rest = stuck.rest;
    placed_before = vertex_on same placed all_placed stuck.placed_before;
    ordered = stuck.ordered;
    rearranged = stuck.rearranged;
    indices = stuck.indices;
    left = stuck.left;
    placed = stuck.placed;
    fewer = stuck.fewer;
    unfit = stuck.unfit;
  }

  place_vertices-Places :
      (vs : List (ExecutionJobVertex F)) (nodes : List (WorkerNode F)) (assignments : Dict (List ℕ))
      → GivesUp vs nodes (place_vertices float vs nodes assignments)
        ⊎ Places vs nodes assignments (place_vertices float vs nodes assignments)
  unfolding place_vertices
  place_vertices-Places [] nodes assignments = inr ([], nodes, refl, nothing)
  place_vertices-Places (v ∷ vs) nodes assignments =
      let ordered = sort_by (node_first float) nodes in
      let same = sort_by-Perm (node_first float) nodes in
      elim (place_subtasks-Answers float v.concurrency 0 ordered v (in_range ordered)) [
        | inl (full, indices, left, placed, fewer, unfit) ↦ inl (
          rw (place_vertices, full) refl,
          record {
            before = [];
            v = v;
            after = vs;
            split = refl;
            ps = [];
            rest = nodes;
            placed_before = nothing;
            ordered = ordered;
            rearranged = same;
            indices = indices;
            left = left;
            placed = placed;
            fewer = fewer;
            unfit = unfit;
          },
        )
        | inr (indices, rest, answer, placed, all_placed) ↦
            elim (place_vertices-Places vs rest (insert v.id indices assignments)) [
              | inl (full, stuck) ↦ inl (
                rw (place_vertices, answer) full,
                Stuck-behind v vs nodes ordered rest indices same placed all_placed stuck,
              )
              | inr (ps, left, done, placed_after) ↦ inr (
                (v, indices) ∷ ps,
                left,
                rw (place_vertices, answer) done,
                vertex_on same placed all_placed placed_after,
              )
            ]
      ]

  Unfit-none : (v : ExecutionJobVertex F) → Unfit float v []
  unfolding Unfit
  Unfit-none v p node at = absurd (cc)

  -- Without nodes, the first vertex with a subtask is stuck.
  Stuck-none :
      (vs : List (ExecutionJobVertex F)) → any (λ v. ltb 0 v.concurrency) vs ≡ true → Stuck vs []
  Stuck-none [] h = absurd (cc)
  Stuck-none (v ∷ vs) h = elim (Bool-cases (ltb 0 v.concurrency)) [
    | inl some_subtask ↦ record {
      before = [];
      v = v;
      after = vs;
      split = refl;
      ps = [];
      rest = [];
      placed_before = nothing;
      ordered = [];
      rearranged = Permᴰ.nil;
      indices = [];
      left = [];
      placed = nowhere;
      fewer = ground (arith, some_subtask);
      unfit = Unfit-none v;
    }
    | inr no_subtask ↦
        Stuck-behind v vs [] [] [] [] Permᴰ.nil nowhere (ground (arith, no_subtask))
          (Stuck-none vs (ground (arith, h, no_subtask)))
  ]

  -- `round_robin_allocate` never raises. In some order of the vertices it either places each with all
  -- its subtasks, or gives up since, with the vertices before one placed and some of its subtasks, no
  -- node has what its next subtask needs. A subtask is placed only on a node that has enough of both
  -- resources, which are then subtracted from what that node has.
  pub round_robin_allocate-Places :
      (vs : List (ExecutionJobVertex F)) (nodes : List (WorkerNode F))
      → (ordered : List (ExecutionJobVertex F)) × Permᴰ vs ordered
        × (GivesUp ordered nodes (round_robin_allocate float vs nodes)
            ⊎ Places ordered nodes
                (no_assignments float vs [])
                (round_robin_allocate float vs nodes))
  unfolding round_robin_allocate
  round_robin_allocate-Places vs [] =
      let ordered = sort_by (vertex_first float) vs in
      let same = sort_by-Perm (vertex_first float) vs in
      elim (Bool-cases (any (λ v. ltb 0 v.concurrency) ordered)) [
        | inl some_subtask ↦ (
          ordered,
          same,
          inl (rw (round_robin_allocate, some_subtask) refl, Stuck-none ordered some_subtask),
        )
        | inr no_subtask ↦ (
          ordered,
          same,
          rw (round_robin_allocate, no_subtask)
              (place_vertices-Places ordered [] (no_assignments float vs [])),
        )
      ]
  round_robin_allocate-Places vs (node ∷ nodes) = (
    sort_by (vertex_first float) vs,
    sort_by-Perm (vertex_first float) vs,
    place_vertices-Places (sort_by (vertex_first float) vs) (node ∷ nodes)
        (no_assignments float vs []),
  )
