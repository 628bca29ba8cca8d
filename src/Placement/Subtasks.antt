-- ===== src/Placement/Subtasks.antt =====
-- The subtasks of one vertex: each goes to a node that can host it.
use klein.Base.{
  ℕ, zero, suc, ◌+◌, ◌%◌, ◌<◌, ◌≡◌, refl, sym, ◌∙◌, ap, subst, true, Option, none, some, List, [],
  ◌∷◌, length, get_elem?, set, Outcome, ok, Bool-cases, Option-cases, inl, inr, length-set,
  lt-length_of_some, ◌⊎◌, arith, Bool-and,
}
use klein.Placement.Hosts.{Unfit, find_host-Unfit, next-lt-length}
use klein.Placement.{
  FloatOps, WorkerNode, ExecutionJobVertex, can_host, assign, find_host, with_index, place_subtasks,
}

module _ {F : Type 0} (float : FloatOps F) where
  -- The node without what a subtask needs.
  abbrev pub taken : WorkerNode F → ExecutionJobVertex F → WorkerNode F
  taken node v = record {
    index = node.index;
    cpu = float.sub node.cpu v.cpus;
    gpu = float.sub node.gpu v.gpus;
    assigned_tasks = node.assigned_tasks + 1;
  }

  -- Subtasks of a vertex are placed one by one, each on a node that has enough of both resources.
  pub data Placed (v : ExecutionJobVertex F)
      : List (WorkerNode F) → List ℕ → List (WorkerNode F) → Type 0 where
    nowhere : {nodes : List (WorkerNode F)} → Placed v nodes [] nodes
    next_on :
        {nodes left : List (WorkerNode F)} {indices : List ℕ} (at : ℕ) (node : WorkerNode F)
        → get_elem? nodes at ≡ some node
        → float.le v.cpus node.cpu ≡ true
        → float.le v.gpus node.gpu ≡ true
        → Placed v (set nodes at (taken node v)) indices left
        → Placed v nodes (node.index ∷ indices) left

  -- The place that is found holds a node that can host the subtask.
  find_host_lem :
      (rounds cursor : ℕ) (nodes : List (WorkerNode F)) (v : ExecutionJobVertex F) (at : ℕ)
      → find_host float rounds cursor nodes v ≡ some at
      → (node : WorkerNode F) × (get_elem? nodes at ≡ some node) × (can_host float node v ≡ true)
  unfolding find_host
  find_host_lem zero cursor nodes v at h = absurd (cc)
  find_host_lem (suc rounds) cursor nodes v at h = elim (Option-cases (get_elem? nodes cursor)) [
    | inl missing ↦
        absurd (let lost : none ≡ some at = sym (rw (find_host, missing) refl) ∙ h in cc)
    | inr (node, there) ↦ elim (Bool-cases (can_host float node v)) [
      | inl enough ↦
          let same : some cursor ≡ some at = sym (rw (find_host, there, enough) refl) ∙ h in
          (node, subst (λ x. get_elem? nodes x ≡ some node) (cc) there, enough)
      | inr full ↦
          find_host_lem rounds ((cursor + 1) % length nodes) nodes v at
            (sym (rw (find_host, there, full) refl) ∙ h)
    ]
  ]

  assign_lem :
      (node : WorkerNode F) (v : ExecutionJobVertex F)
      → can_host float node v ≡ true
      → assign float node v ≡ ok (taken node v)
  unfolding assign
  assign_lem node v enough = rw enough refl

  -- Either the vertex is placed, or after some of its subtasks no node can host the next one.
  abbrev pub Answers :
      ExecutionJobVertex F
      → ℕ
      → List (WorkerNode F)
      → Outcome (Option (List ℕ × List (WorkerNode F)))
      → Type 0
  Answers v count nodes answer =
      ((answer ≡ ok none)
        × (indices : List ℕ) × (left : List (WorkerNode F)) × Placed v nodes indices left
        × (length indices < count)
        × Unfit float v left)
      ⊎ ((indices : List ℕ) × (left : List (WorkerNode F)) × (answer ≡ ok (some (indices, left)))
          × Placed v nodes indices left
          × (length indices ≡ count))

  pub place_subtasks-Answers :
      (count cursor : ℕ) (nodes : List (WorkerNode F)) (v : ExecutionJobVertex F)
      → (nodes ≡ []) ⊎ (cursor < length nodes)
      → Answers v count nodes (place_subtasks float count cursor nodes v)
  unfolding place_subtasks with_index
  place_subtasks-Answers zero cursor nodes v in_range = inr ([], nodes, refl, nowhere, refl)
  place_subtasks-Answers (suc count) cursor nodes v in_range =
      elim (Option-cases (find_host float (length nodes) cursor nodes v)) [
        | inl full ↦ inl (
          rw (place_subtasks, full) refl,
          [],
          nodes,
          nowhere,
          omega arith,
          find_host-Unfit float cursor nodes v full in_range,
        )
        | inr (at, found) ↦
            let (node, there, enough) = find_host_lem (length nodes) cursor nodes v at found in
            let used = assign_lem node v enough in
            let (cpus, gpus) = Bool-and (float.le v.cpus node.cpu) _ enough in
            let cursor' = (at + 1) % length nodes in
            let nodes' = set nodes at (taken node v) in
            let low = next-lt-length at (length nodes) (lt-length_of_some nodes at node there) in
            let low' : cursor' < length nodes' =
              subst (λ k. cursor' < k) (sym (length-set nodes at (taken node v))) low in
            elim (place_subtasks-Answers count cursor' nodes' v (inr low')) [
              | inl (full, indices, left, placed, fewer, unfit) ↦ inl (
                rw (place_subtasks, found, there, used, full) refl,
                node.index ∷ indices,
                left,
                next_on at node there cpus gpus placed,
                omega (arith, fewer),
                unfit,
              )
              | inr (indices, left, answer, placed, all_placed) ↦ inr (
                node.index ∷ indices,
                left,
                rw (place_subtasks, found, there, used, answer) refl,
                next_on at node there cpus gpus placed,
                ap suc all_placed,
              )
            ]
      ]
