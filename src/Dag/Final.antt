-- ===== src/Dag/Final.antt =====
-- runtime_service/dag.py: the schedule before and after the loop, and an accepted graph.
use agent_runtime_platform.Base.{
  ℕ, suc, none, some, List, [], ◌∷◌, ◌≡◌, refl, sym, ap, ◌∙◌, inl, inr, ◌==◌, length, arith, ==_iff,
  Option-cases,
}
use agent_runtime_platform.Base.Table
use agent_runtime_platform.Base.Table.{number_key}
use agent_runtime_platform.Dag.{
  WorkflowNode, dependencies_of, Checked, accepted, rejected, declare, check_dependencies,
  WorkflowDag,
}
use agent_runtime_platform.Dag.Schedule.{
  free_nodes, initial_schedule, final_schedule, build_topological_order, position, heapify,
  workflow_dag, with_order, check_declared,
}
use agent_runtime_platform.Dag.Entries.{
  node_key, Distinct, entries, entries_ext, heapify-entries, index, index-find,
}
use agent_runtime_platform.Dag.Release.{IsIndexed}
use agent_runtime_platform.Dag.Greedy.{
  is_ready, greedy, outstanding, all_in-outstanding, start, IsGraph, find-dependencies_of,
}
use agent_runtime_platform.Dag.Kahn.{IsCurrent}
use agent_runtime_platform.Dag.Waiting.{waiting-nil}
use agent_runtime_platform.Dag.Drain.{drain-IsCurrent, drain-greedy, drain_ends}
use agent_runtime_platform.Dag.Declared.{checks-IsGraph}

outstanding-nil : (ids : List ℕ) → outstanding [] ids ≡ length ids
unfolding outstanding
outstanding-nil [] = refl
outstanding-nil (id ∷ ids) = ap suc (outstanding-nil ids)

free_nodes-entries :
    (positions : List (ℕ × ℕ)) (counts : ℕ → ℕ) (first : ℕ) (ns : List WorkflowNode)
    → Distinct ns
    → ((id p : ℕ) → index first ns id ≡ some p → position positions id ≡ p)
    → free_nodes positions counts ns ≡ entries (λ n. counts n.node_id == 0) first ns
unfolding free_nodes entries index
free_nodes-entries positions counts first [] d h = refl
free_nodes-entries positions counts first (n ∷ ns) d h = ground (
  arith,
  h n.node_id first,
  ==_iff n.node_id n.node_id,
  free_nodes-entries positions counts (suc first) ns d.1
      (λ id p at. h id p (ground (arith, index-find (suc first) ns id, (==_iff n.node_id id)))),
)

module _ (nodes : List WorkflowNode) (positions : List (ℕ × ℕ)) (graph : IsGraph nodes)
    (indexed : IsIndexed nodes positions) where
  initial-IsCurrent : IsCurrent nodes (initial_schedule nodes positions)
  unfolding initial_schedule
  initial-IsCurrent =
      let counts = λ (id : ℕ). length (dependencies_of nodes id) in
      record {
        counts = λ i. sym (outstanding-nil (dependencies_of nodes i));
        heap =
            ap heapify (free_nodes-entries positions counts 0 nodes graph.distinct indexed.places)
            ∙ heapify-entries (λ n. counts n.node_id == 0) 0 nodes
            ∙ entries_ext (λ n. counts n.node_id == 0) (is_ready []) 0 nodes graph.distinct
                (λ k n f. ground (
                  arith,
                  find-dependencies_of nodes n.node_id (Table.find-own node_key k nodes f),
                  all_in-outstanding [] n.dependencies,
                  outstanding-nil n.dependencies,
                ));
        serial = start;
      }

  pub final-IsCurrent : IsCurrent nodes (final_schedule nodes positions)
  unfolding final_schedule
  final-IsCurrent = drain-IsCurrent nodes positions graph indexed (length nodes) _ initial-IsCurrent

  -- `while ready` ends within as many rounds as there are nodes, and the order it has built is the
  -- one of the rule that always places the first node of the declaration whose dependencies are
  -- all placed.
  pub final_schedule_ends :
      ((final_schedule nodes positions).ready ≡ [])
      × ((final_schedule nodes positions).ordered ≡ greedy nodes (length nodes) [])
  unfolding final_schedule initial_schedule
  final_schedule_ends = (
    drain_ends nodes positions graph indexed (length nodes) _ initial-IsCurrent
        (ground (arith, waiting-nil nodes)),
    drain-greedy nodes positions graph indexed (length nodes) _ initial-IsCurrent,
  )

-- What the constructor has done when it returns.
pub record IsBuilt (nodes : List WorkflowNode) (dag : WorkflowDag) : Type 0 where
  pub declared : declare [] 0 nodes ≡ accepted dag.positions
  pub checked : check_dependencies dag.positions nodes ≡ none
  pub built : build_topological_order nodes dag.positions ≡ accepted dag.topological_order
  pub keeps : dag.nodes ≡ nodes

with_order-accepted :
    (nodes : List WorkflowNode) (positions : List (ℕ × ℕ)) {dag : WorkflowDag}
    (order : Checked (List ℕ))
    → with_order nodes positions order ≡ accepted dag
    → (order ≡ accepted dag.topological_order) × (positions ≡ dag.positions) × (dag.nodes ≡ nodes)
with_order-accepted nodes positions (rejected e) h = ground arith
with_order-accepted nodes positions {dag} (accepted order) h = ground arith

check_declared-accepted :
    (nodes : List WorkflowNode) {dag : WorkflowDag} (declared : Checked (List (ℕ × ℕ)))
    → declare [] 0 nodes ≡ declared
    → check_declared nodes declared ≡ accepted dag
    → IsBuilt nodes dag
check_declared-accepted nodes (rejected e) d h = ground arith
check_declared-accepted nodes {dag} (accepted positions) d h =
    elim (Option-cases (check_dependencies positions nodes)) [
      | inl e ↦
          (let (built, same, keeps) =
              with_order-accepted nodes positions {dag = dag}
                (build_topological_order nodes positions) (ground arith) in
            record {
              declared = d ∙ ap accepted same;
              checked = ground arith;
              built = ground arith;
              keeps = keeps;
            })
      | inr (e, f) ↦ ground arith
    ]

pub workflow_dag-IsBuilt :
    (nodes : List WorkflowNode) {dag : WorkflowDag}
    → workflow_dag nodes ≡ accepted dag
    → IsBuilt nodes dag
unfolding workflow_dag
workflow_dag-IsBuilt [] h = ground arith
workflow_dag-IsBuilt (n ∷ nodes) h =
    check_declared-accepted (n ∷ nodes) (declare [] 0 (n ∷ nodes)) refl h

pub IsBuilt-IsGraph :
    (nodes : List WorkflowNode) {dag : WorkflowDag} → IsBuilt nodes dag → IsGraph nodes
IsBuilt-IsGraph nodes b = checks-IsGraph nodes b.declared b.checked
