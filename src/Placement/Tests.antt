-- ===== src/Placement/Tests.antt =====
-- Two nodes and two vertices; the shares are hundredths.
use klein.Base.{ℕ, ◌-◌, ◌≡◌, ◌⊎◌, List, [], ◌∷◌, refl, ok, some, leb, ltb}
use klein.Base.Dict.{Dict}
use mathlib.Core.List.{Permᴰ}
use klein.Placement.{
  FloatOps, eq_ℕ, WorkerNode, ExecutionJobVertex, sort_by, no_assignments, round_robin_allocate,
  place_vertices, place_subtasks, find_host, assign, with_index,
}
use klein.Placement.Allocation.{Places, GivesUp, round_robin_allocate-Places}

abbrev hundredths : FloatOps ℕ
hundredths = record { le = leb; lt = ltb; eq = eq_ℕ; sub = λ a b. a - b }

abbrev nodes : List (WorkerNode ℕ)
nodes =
    record { index = 0; cpu = 400; gpu = 0; assigned_tasks = 0 }
    ∷ record { index = 1; cpu = 200; gpu = 100; assigned_tasks = 0 }
    ∷ []

abbrev vertices : List (ExecutionJobVertex ℕ)
vertices =
    record { id = 7; concurrency = 3; cpus = 25; gpus = 0 }
    ∷ record { id = 8; concurrency = 1; cpus = 25; gpus = 50 }
    ∷ []

abbrev assignments : Dict (List ℕ)
assignments = (7, 1 ∷ 0 ∷ 1 ∷ []) ∷ (8, 1 ∷ []) ∷ []

round_robin_allocate_run : round_robin_allocate hundredths vertices nodes ≡ ok (some assignments)
unfolding round_robin_allocate place_vertices place_subtasks find_host assign with_index sort_by
    no_assignments
round_robin_allocate_run = refl

round_robin_allocate-Places_example :
    (ordered : List (ExecutionJobVertex ℕ)) × Permᴰ vertices ordered
    × (GivesUp hundredths ordered nodes (round_robin_allocate hundredths vertices nodes)
        ⊎ Places hundredths ordered nodes
            (no_assignments hundredths vertices [])
            (round_robin_allocate hundredths vertices nodes))
round_robin_allocate-Places_example = round_robin_allocate-Places hundredths vertices nodes
