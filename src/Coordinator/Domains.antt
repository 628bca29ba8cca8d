-- ===== src/Coordinator/Domains.antt =====
-- The physical domains of the execution graph, src/ray/klein/runtime/execution_graph/
-- checkpoint_domain.py, and the sinks of a domain that its sources reach. What the coordinator asks
-- of the graph are the fields of ExecutionGraph.
pub mod Search
pub mod Reachable
use klein.Base.{
  ℕ, zero, suc, ◌+◌, Bool, not, ◌&&◌, List, [], ◌∷◌, ◌++◌, Option, length, leb, ◌==◌, if◌then◌else◌,
}
use klein.Base.Predicates.{contains}

pub record CheckpointDomain : Type 0 where
  pub id : ℕ
  pub vertex_ids : List ℕ
  pub source_vertex_ids : List ℕ
  pub sink_vertex_ids : List ℕ

-- `barrier_splits` gives the sources of a sink with their split counts.
-- `execution_edges` are the edges of all job edges, `live_indices` the indices of a job vertex's
-- execution vertices (none of one that is not found).
pub record ExecutionGraph : Type 0 where
  pub namespace : ℕ
  pub barrier_splits : ℕ → List (ℕ × ℕ)
  pub execution_edges : List (ℕ × ℕ)
  pub find_checkpoint_domain : ℕ → Option CheckpointDomain
  pub checkpoint_domains_for_job_vertex : ℕ → List CheckpointDomain
  pub source_execution_vertices : List ℕ
  pub sink_execution_vertices : List ℕ
  pub live_indices : ℕ → List ℕ

-- `sorted(...)`
abbrev pub insert_id : ℕ → List ℕ → List ℕ
insert_id v [] = v ∷ []
insert_id v (w ∷ ws) = let rest = insert_id v ws in if leb v w then v ∷ w ∷ ws else w ∷ rest

pub sorted_ids : List ℕ → List ℕ
sorted_ids [] = []
sorted_ids (v ∷ vs) = insert_id v (sorted_ids vs)

-- The edges that stay inside the domain, from which `adjacency` is made.
pub inner_edges : List ℕ → List (ℕ × ℕ) → List (ℕ × ℕ)
inner_edges members [] = []
inner_edges members (edge ∷ edges) =
    let rest = inner_edges members edges in
    if contains edge.0 members && contains edge.1 members then edge ∷ rest else rest

-- `adjacency.get(vertex_id, ())`
abbrev pub adjacent : ℕ → List (ℕ × ℕ) → List ℕ
adjacent v [] = []
adjacent v (edge ∷ edges) =
    let rest = adjacent v edges in if edge.0 == v then edge.1 ∷ rest else rest

abbrev pub reversed : List ℕ → List ℕ → List ℕ
reversed [] tail = tail
reversed (v ∷ vs) tail = reversed vs (v ∷ tail)

-- The loop over the stack, whose top stands first, on fuel.
pub visit : ℕ → List (ℕ × ℕ) → List ℕ → List ℕ → List ℕ
visit zero edges stack reachable = reachable
visit (suc fuel) edges [] reachable = reachable
visit (suc fuel) edges (v ∷ stack) reachable =
    if contains v reachable
    then visit fuel edges stack reachable
    else visit fuel edges (reversed (adjacent v edges) stack) (v ∷ reachable)

-- `a.intersection(b)`: the members of the set `a` that `b` holds.
abbrev pub intersection : List ℕ → List ℕ → List ℕ
intersection [] others = []
intersection (v ∷ vs) others =
    let rest = intersection vs others in if contains v others then v ∷ rest else rest

-- `_reachable_domain_sinks`: each vertex is expanded once, so that a step for each source and each
-- edge is enough.
pub reachable_domain_sinks : ExecutionGraph → CheckpointDomain → List ℕ → List ℕ
unfolding sorted_ids inner_edges visit
reachable_domain_sinks graph domain sources =
    let edges = inner_edges domain.vertex_ids graph.execution_edges in
    let reachable = visit (length sources + length edges) edges (reversed sources []) [] in
    sorted_ids (intersection reachable domain.sink_vertex_ids)
