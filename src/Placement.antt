-- ===== src/Placement.antt =====
-- src/ray/klein/runtime/scheduler/assignment.py: the round-robin placement of subtasks on the nodes
-- of a cluster. CPUs and GPUs are floats, whose comparisons and subtraction are a parameter.
pub mod Subtasks
pub mod Hosts
pub mod Allocation
mod Tests
use klein.Base.{
  ℕ, zero, suc, ◌+◌, ◌-◌, ◌%◌, Bool, true, false, not, ◌&&◌, ◌||◌, Option, none, some, List, [],
  ◌∷◌, map, length, get_elem?, set, Outcome, ok, raise, value_error, index_error, raise_if, ◌>>=◌,
  ◌>>◌, ltb, leb, ◌==◌, if◌then◌else◌,
}
use klein.Base.Dict.{Dict, insert}
use klein.Base.Predicates.{any}

-- `a <= b`, `a < b`, `a == b` and `a - b` of floats.
pub record FloatOps (F : Type 0) : Type 0 where
  pub le : F → F → Bool
  pub lt : F → F → Bool
  pub eq : F → F → Bool
  pub sub : F → F → F

pub record WorkerNode (F : Type 0) : Type 0 where
  pub index : ℕ
  pub cpu : F
  pub gpu : F
  pub assigned_tasks : ℕ

-- What a placement reads of an `ExecutionJobVertex`.
pub record ExecutionJobVertex (F : Type 0) : Type 0 where
  pub id : ℕ
  pub concurrency : ℕ
  pub cpus : F
  pub gpus : F

-- `a` stands before `b` when the keys are compared in reverse: a pair compares its first parts, and
-- its second parts where these are equal.
abbrev pub after_or : {A : Type 0} → (A → A → Bool) → (A → A → Bool) → A → A → Bool → Bool
after_or lt eq a b rest = if lt b a then true else if eq a b then rest else false

abbrev pub eq_ℕ : ℕ → ℕ → Bool
eq_ℕ a b = a == b

-- `sort(key=..., reverse=True)`, which keeps the order of equal keys.
module _ {A : Type 0} (first : A → A → Bool) where
  abbrev pub insert_by : A → List A → List A
  insert_by a [] = a ∷ []
  insert_by a (b ∷ bs) = let rest = insert_by a bs in if first b a then b ∷ rest else a ∷ b ∷ bs

  pub sort_by : List A → List A
  sort_by [] = []
  sort_by (a ∷ as') = insert_by a (sort_by as')

module _ {F : Type 0} (float : FloatOps F) where
  -- `can_host` and `assign`
  abbrev pub can_host : WorkerNode F → ExecutionJobVertex F → Bool
  can_host node v = float.le v.cpus node.cpu && float.le v.gpus node.gpu

  pub assign : WorkerNode F → ExecutionJobVertex F → Outcome (WorkerNode F)
  assign node v = do
    raise_if (not (can_host node v)) value_error
    ok (record node {
      cpu = float.sub node.cpu v.cpus;
      gpu = float.sub node.gpu v.gpus;
      assigned_tasks = node.assigned_tasks + 1;
    })

  abbrev pub float_first : F → F → Bool → Bool
  float_first = after_or float.lt float.eq

  abbrev pub node_first : WorkerNode F → WorkerNode F → Bool
  node_first a b = float_first a.gpu b.gpu (
      float_first a.cpu b.cpu (
        after_or ltb eq_ℕ b.assigned_tasks a.assigned_tasks
          (after_or ltb eq_ℕ b.index a.index false)))

  abbrev pub vertex_first : ExecutionJobVertex F → ExecutionJobVertex F → Bool
  vertex_first a b =
      float_first a.gpus b.gpus
        (float_first a.cpus b.cpus (after_or ltb eq_ℕ a.concurrency b.concurrency false))

  -- The loop over the nodes from the cursor on: the place of the first that can host the subtask.
  pub find_host : ℕ → ℕ → List (WorkerNode F) → ExecutionJobVertex F → Option ℕ
  find_host zero cursor nodes v = none
  find_host (suc rounds) cursor nodes v =
      let later = find_host rounds ((cursor + 1) % length nodes) nodes v in
      elim (get_elem? nodes cursor) [
        | none ↦ none
        | some node ↦ if can_host node v then some cursor else later
      ]

  -- The indices of the nodes of the next subtasks, with what is left of the nodes; none as soon as one
  -- finds no node.
  pub with_index : ℕ → Option (List ℕ × List (WorkerNode F)) → Option (List ℕ × List (WorkerNode F))
  with_index index none = none
  with_index index (some placed) = some (index ∷ placed.0, placed.1)

  pub place_subtasks :
      ℕ
      → ℕ
      → List (WorkerNode F)
      → ExecutionJobVertex F
      → Outcome (Option (List ℕ × List (WorkerNode F)))
  unfolding find_host assign with_index
  place_subtasks zero cursor nodes v = ok (some ([], nodes))
  place_subtasks (suc count) cursor nodes v = elim (find_host (length nodes) cursor nodes v) [
    | none ↦ ok none
    | some at ↦ elim (get_elem? nodes at) [
      | none ↦ raise index_error
      | some node ↦ do
        used ← assign node v
        rest ← place_subtasks count ((at + 1) % length nodes) (set nodes at used) v
        ok (with_index node.index rest)
    ]
  ]

  pub place_vertices :
      List (ExecutionJobVertex F)
      → List (WorkerNode F)
      → Dict (List ℕ)
      → Outcome (Option (Dict (List ℕ)))
  unfolding place_subtasks sort_by
  place_vertices [] nodes assignments = ok (some assignments)
  place_vertices (v ∷ vs) nodes assignments = do
    placed ← place_subtasks v.concurrency 0 (sort_by node_first nodes) v
    elim placed [
      | none ↦ ok none
      | some (indices, nodes') ↦ place_vertices vs nodes' (insert v.id indices assignments)
    ]

  -- `{job_vertex.id: [-1] * job_vertex.concurrency ...}`: the places of the list are filled in order, so
  -- that a list starts empty here.
  pub no_assignments : List (ExecutionJobVertex F) → Dict (List ℕ) → Dict (List ℕ)
  no_assignments [] assignments = assignments
  no_assignments (v ∷ vs) assignments = no_assignments vs (insert v.id [] assignments)

  -- `round_robin_allocate`: none is the answer `({}, False)`.
  pub round_robin_allocate :
      List (ExecutionJobVertex F) → List (WorkerNode F) → Outcome (Option (Dict (List ℕ)))
  unfolding place_vertices sort_by no_assignments
  round_robin_allocate vs nodes =
      let ordered = sort_by vertex_first vs in
      let assignments = no_assignments vs [] in
      elim nodes [
        | [] ↦
            if any (λ v. ltb 0 v.concurrency) ordered
            then ok none
            else place_vertices ordered [] assignments
        | node ∷ rest ↦ place_vertices ordered (node ∷ rest) assignments
      ]
