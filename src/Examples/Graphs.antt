-- ===== src/Examples/Graphs.antt =====
-- Workflow graphs: a diamond, two nodes that wait for each other, and what is done with them.
use agent_runtime_platform.Base.{
  ℕ, true, false, none, some, List, [], ◌∷◌, ◌≡◌, ◌≢◌, ◌↔◌, refl, length, not, ◌||◌,
}
use agent_runtime_platform.Base.Table
use agent_runtime_platform.Dag.{
  WorkflowNode, WorkflowDag, accepted, rejected, cyclic, self_dependency, declare,
  check_dependencies, contains, repeats, find_node, dependencies_of, dependents, missing,
  duplicate_node_id, unknown_dependencies,
}
use agent_runtime_platform.Dag.Schedule.{
  final_schedule, workflow_dag, heappush, heapify, append, release, release_all, drain, free_nodes,
  blocked_nodes, initial_schedule, build_topological_order,
}
use agent_runtime_platform.Dag.Reach.{
  descendants, to_set, discover, search_from, without, dependencies_for,
}
use agent_runtime_platform.Dag.Greedy.{greedy}
use agent_runtime_platform.Dag.Stuck.{IsStuck}
use agent_runtime_platform.Dag.Closure.{Reaches}
use agent_runtime_platform.Dag.Order.{
  all_precede, final_schedule_empty, workflow_dag-greedy, workflow_dag_respects,
}
use agent_runtime_platform.Dag.Cycles.{workflow_dag_cyclic, workflow_dag_acyclic}
use agent_runtime_platform.Dag.Descendants.{descendants_reach}

abbrev node : ℕ → List ℕ → WorkflowNode
node id ids = record { node_id = id; dependencies = ids }

abbrev diamond : List WorkflowNode
diamond = node 4 (1 ∷ 2 ∷ []) ∷ node 2 (3 ∷ []) ∷ node 1 (3 ∷ []) ∷ node 3 [] ∷ []

abbrev diamond_dag : WorkflowDag
diamond_dag = record {
  nodes = diamond;
  positions = (3, 3) ∷ (1, 2) ∷ (2, 1) ∷ (4, 0) ∷ [];
  topological_order = 3 ∷ 2 ∷ 1 ∷ 4 ∷ [];
}

abbrev knot : List WorkflowNode
knot = node 1 (3 ∷ 2 ∷ []) ∷ node 2 (1 ∷ []) ∷ node 3 [] ∷ []

diamond-declared : declare [] 0 diamond ≡ accepted diamond_dag.positions
unfolding declare Table.find
diamond-declared = refl

diamond-checked : check_dependencies diamond_dag.positions diamond ≡ none
unfolding check_dependencies Table.find
diamond-checked = refl

diamond-accepted : workflow_dag diamond ≡ accepted diamond_dag
unfolding declare check_dependencies Table.find workflow_dag build_topological_order final_schedule
    initial_schedule drain release_all release heappush heapify append free_nodes blocked_nodes
    dependencies_of dependents
diamond-accepted = refl

knot-refused : workflow_dag knot ≡ rejected (cyclic (1 ∷ 2 ∷ []))
unfolding declare check_dependencies Table.find workflow_dag build_topological_order final_schedule
    initial_schedule drain release_all release heappush heapify append free_nodes blocked_nodes
    dependencies_of dependents
knot-refused = refl

-- Tests of the checks.
self-refused : workflow_dag (node 1 (1 ∷ []) ∷ []) ≡ rejected (self_dependency 1)
unfolding declare check_dependencies Table.find workflow_dag
self-refused = refl

twice-refused : workflow_dag (node 1 [] ∷ node 1 [] ∷ []) ≡ rejected (duplicate_node_id 1)
unfolding declare Table.find workflow_dag
twice-refused = refl

unknown-refused : workflow_dag (node 1 (2 ∷ []) ∷ []) ≡ rejected (unknown_dependencies 1 (2 ∷ []))
unfolding declare check_dependencies Table.find workflow_dag
unknown-refused = refl

dependencies_of_four : dependencies_for diamond_dag 4 ≡ accepted (1 ∷ 2 ∷ [])
unfolding dependencies_for dependencies_of Table.find
dependencies_of_four = refl

below_one : descendants diamond_dag (1 ∷ []) false ≡ accepted (some (4 ∷ []))
unfolding descendants search_from discover to_set without dependents Table.find
below_one = refl

final_schedule_empty_example : (final_schedule diamond diamond_dag.positions).ready ≡ []
final_schedule_empty_example =
    final_schedule_empty diamond diamond_dag.positions diamond-declared diamond-checked

workflow_dag-greedy_example : diamond_dag.topological_order ≡ greedy diamond 4 []
workflow_dag-greedy_example = workflow_dag-greedy diamond diamond_dag diamond-accepted

diamond-find : find_node 4 diamond ≡ some (node 4 (1 ∷ 2 ∷ []))
unfolding Table.find
diamond-find = refl

workflow_dag_respects_example :
    (length diamond_dag.topological_order ≡ length diamond)
    × (repeats diamond_dag.topological_order ≡ false)
    × (contains 4 diamond_dag.topological_order ≡ true)
    × (all_precede diamond_dag.topological_order 4 (1 ∷ 2 ∷ []) ≡ true)
workflow_dag_respects_example =
    workflow_dag_respects diamond diamond_dag 4 (node 4 (1 ∷ 2 ∷ [])) diamond-accepted diamond-find

workflow_dag_cyclic_example : IsStuck knot (1 ∷ 2 ∷ [])
workflow_dag_cyclic_example = workflow_dag_cyclic knot (1 ∷ 2 ∷ []) knot-refused

workflow_dag_acyclic_example : workflow_dag knot ≢ accepted diamond_dag
workflow_dag_acyclic_example =
    workflow_dag_acyclic knot (1 ∷ 2 ∷ []) diamond_dag
      (workflow_dag_cyclic knot (1 ∷ 2 ∷ []) knot-refused)

one_known : missing diamond_dag.positions (1 ∷ []) ≡ []
unfolding Table.find
one_known = refl

descendants_reach_example :
    (found : List ℕ) × (descendants diamond_dag (1 ∷ []) false ≡ accepted (some found))
    × ((x : ℕ)
        → (contains x found ≡ true)
          ↔ (Reaches diamond (1 ∷ []) x × ((false || not (contains x (1 ∷ []))) ≡ true)))
descendants_reach_example =
    descendants_reach diamond diamond_dag (1 ∷ []) false diamond-accepted one_known
