-- ===== src/Dag/Schedule.antt =====
-- runtime_service/dag.py: `_build_topological_order` and `WorkflowDag.__init__`. The heap of
-- `heapq` is the list of its items in ascending order, and the first one is what `heappop` takes.
use agent_runtime_platform.Base.{
  ℕ, zero, suc, ◌-◌, Bool, ◌||◌, ◌&&◌, Option, none, some, List, [], ◌∷◌, ◌==◌, ltb, leb, length,
  if◌then◌else◌,
}
use agent_runtime_platform.Dag.{
  WorkflowNode, WorkflowGraphError, Checked, rejected, accepted, no_nodes, cyclic, position_of,
  declare, check_dependencies, dependencies_of, dependents, WorkflowDag,
}

pub record Schedule : Type 0 where
  pub remaining_dependencies : ℕ → ℕ
  pub ready : List (ℕ × ℕ)
  pub ordered : List ℕ

-- Tuples are compared by their first item, then by their second.
abbrev pub comes_first : ℕ × ℕ → ℕ × ℕ → Bool
comes_first a b = ltb a.0 b.0 || (a.0 == b.0 && leb a.1 b.1)

-- heapq.heappush
unfoldable pub heappush : ℕ × ℕ → List (ℕ × ℕ) → List (ℕ × ℕ)
heappush entry [] = entry ∷ []
heappush entry (least ∷ heap) =
    let rest = heappush entry heap in
    if comes_first entry least then entry ∷ least ∷ heap else least ∷ rest

-- heapq.heapify
unfoldable pub heapify : List (ℕ × ℕ) → List (ℕ × ℕ)
heapify [] = []
heapify (entry ∷ entries) = heappush entry (heapify entries)

-- ordered.append(node_id)
unfoldable pub append : List ℕ → ℕ → List ℕ
append [] x = x ∷ []
append (y ∷ ys) x = y ∷ append ys x

abbrev pub put : (ℕ → ℕ) → ℕ → ℕ → ℕ → ℕ
put f key value i = if key == i then value else f i

-- The position of an id. Each id that the code looks up has one.
abbrev pub position : List (ℕ × ℕ) → ℕ → ℕ
position positions id = elim (position_of id positions) [ none ↦ 0 | some entry ↦ entry.1 ]

-- One of its dependencies is done.
unfoldable pub release : List (ℕ × ℕ) → ℕ → Schedule → Schedule
release positions dependent s =
    let left = s.remaining_dependencies dependent - 1 in
    record s {
      remaining_dependencies = put s.remaining_dependencies dependent left;
      ready =
          if left == 0 then heappush (position positions dependent, dependent) s.ready else s.ready;
    }

unfoldable pub release_all : List (ℕ × ℕ) → List ℕ → Schedule → Schedule
release_all positions [] s = s
release_all positions (dependent ∷ rest) s =
    release_all positions rest (release positions dependent s)

-- A round of the loop, with what `heappop` leaves.
abbrev pub complete : List WorkflowNode → List (ℕ × ℕ) → ℕ → List (ℕ × ℕ) → Schedule → Schedule
complete nodes positions id heap s =
    release_all positions (dependents nodes id)
      (record s { ready = heap; ordered = append s.ordered id })

-- while ready, for at most `fuel` rounds
unfoldable pub drain : List WorkflowNode → List (ℕ × ℕ) → ℕ → Schedule → Schedule
drain nodes positions zero s = s
drain nodes positions (suc fuel) s = elim s.ready [
  | [] ↦ s
  | entry ∷ heap ↦ drain nodes positions fuel (complete nodes positions entry.1 heap s)
]

unfoldable pub free_nodes : List (ℕ × ℕ) → (ℕ → ℕ) → List WorkflowNode → List (ℕ × ℕ)
free_nodes positions remaining [] = []
free_nodes positions remaining (node ∷ nodes) =
    let rest = free_nodes positions remaining nodes in
    if remaining node.node_id == 0
    then (position positions node.node_id, node.node_id) ∷ rest
    else rest

unfoldable pub blocked_nodes : (ℕ → ℕ) → List WorkflowNode → List ℕ
blocked_nodes remaining [] = []
blocked_nodes remaining (node ∷ nodes) =
    let rest = blocked_nodes remaining nodes in
    if ltb 0 (remaining node.node_id) then node.node_id ∷ rest else rest

-- Before the loop.
unfoldable pub initial_schedule : List WorkflowNode → List (ℕ × ℕ) → Schedule
initial_schedule nodes positions =
    let counts = λ (id : ℕ). length (dependencies_of nodes id) in
    record {
      remaining_dependencies = counts;
      ready = heapify (free_nodes positions counts nodes);
      ordered = [];
    }

unfoldable pub final_schedule : List WorkflowNode → List (ℕ × ℕ) → Schedule
final_schedule nodes positions =
    drain nodes positions (length nodes) (initial_schedule nodes positions)

unfoldable pub build_topological_order : List WorkflowNode → List (ℕ × ℕ) → Checked (List ℕ)
build_topological_order nodes positions =
    let s = final_schedule nodes positions in
    if length s.ordered == length nodes
    then accepted s.ordered
    else rejected (cyclic (blocked_nodes s.remaining_dependencies nodes))

abbrev pub with_order : List WorkflowNode → List (ℕ × ℕ) → Checked (List ℕ) → Checked WorkflowDag
with_order nodes positions (rejected e) = rejected e
with_order nodes positions (accepted order) =
    accepted (record { nodes = nodes; positions = positions; topological_order = order })

abbrev pub unless_error : Option WorkflowGraphError → Checked WorkflowDag → Checked WorkflowDag
unless_error none rest = rest
unless_error (some e) rest = rejected e

abbrev pub check_declared : List WorkflowNode → Checked (List (ℕ × ℕ)) → Checked WorkflowDag
check_declared nodes (rejected e) = rejected e
check_declared nodes (accepted positions) =
    unless_error (check_dependencies positions nodes)
      (with_order nodes positions (build_topological_order nodes positions))

-- `WorkflowDag(nodes)`
unfoldable pub workflow_dag : List WorkflowNode → Checked WorkflowDag
workflow_dag [] = rejected no_nodes
workflow_dag (node ∷ nodes) = check_declared (node ∷ nodes) (declare [] 0 (node ∷ nodes))
