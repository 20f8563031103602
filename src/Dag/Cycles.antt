-- ===== src/Dag/Cycles.antt =====
-- runtime_service/dag.py: a graph is refused for a cycle when it has one, and then only.
use agent_runtime_platform.Base.{
  ℕ, suc, true, false, not, ◌&&◌, Option, none, some, List, [], ◌∷◌, ◌≡◌, ◌≢◌, refl, ap, ◌∙◌, inl,
  inr, ◌==◌, ltb, length, is_null, arith, Bool-cases, Option-cases,
}
use agent_runtime_platform.Base.Table
use agent_runtime_platform.Base.Table.{number_key}
use agent_runtime_platform.Dag.{
  WorkflowNode, WorkflowGraphError, WorkflowDag, contains, find_node, Checked, accepted, rejected,
  cyclic, declare, check_dependencies, missing, unless_missing,
}
use agent_runtime_platform.Dag.Schedule.{
  blocked_nodes, final_schedule, build_topological_order, workflow_dag, with_order, check_declared,
}
use agent_runtime_platform.Dag.Entries.{node_key}
use agent_runtime_platform.Dag.Greedy.{
  outstanding, all_in-outstanding, IsGraph, find-dependencies_of,
}
use agent_runtime_platform.Dag.Kahn.{IsCurrent}
use agent_runtime_platform.Dag.Waiting.{Serial-length}
use agent_runtime_platform.Dag.Drain.{next-ready}
use agent_runtime_platform.Dag.Declared.{checks-IsGraph, declare-IsIndexed}
use agent_runtime_platform.Dag.Final.{workflow_dag-IsBuilt}
use agent_runtime_platform.Dag.Order.{final_of, final_schedule_empty, built-Serial, built-contains}
use agent_runtime_platform.Dag.Stuck.{
  meets, IsStuck, Serial-IsStuck, next_node-is_ready, contains-blocked_nodes, outstanding_one,
  waiting_one, contains-meets,
}

declare_other :
    (positions : List (ℕ × ℕ)) (first : ℕ) (ns : List WorkflowNode) {ids : List ℕ}
    → declare positions first ns ≢ rejected (cyclic ids)
unfolding declare
declare_other positions first [] h = ground arith
declare_other positions first (n ∷ ns) {ids} h =
    ground (arith, declare_other ((n.node_id, first) ∷ positions) (suc first) ns {ids = ids})

unless_missing_other :
    (id : ℕ) (found : List ℕ) (rest : Option WorkflowGraphError) {ids : List ℕ}
    → unless_missing id found rest ≡ some (cyclic ids)
    → rest ≡ some (cyclic ids)
unless_missing_other id [] rest h = h
unless_missing_other id (x ∷ found) rest h = ground arith

check_other :
    (positions : List (ℕ × ℕ)) (ns : List WorkflowNode) {ids : List ℕ}
    → check_dependencies positions ns ≢ some (cyclic ids)
unfolding check_dependencies
check_other positions [] h = ground arith
check_other positions (n ∷ ns) {ids} h = ground (
  arith,
  check_other positions ns {ids = ids},
  unless_missing_other n.node_id (missing positions n.dependencies)
      (check_dependencies positions ns) {ids = ids},
)

-- What a refusal for a cycle comes from.
record IsRefused (nodes : List WorkflowNode) (positions : List (ℕ × ℕ)) (ids : List ℕ)
    : Type 0 where
  pub declared : declare [] 0 nodes ≡ accepted positions
  pub checked : check_dependencies positions nodes ≡ none
  pub short : (length (final_schedule nodes positions).ordered == length nodes) ≡ false
  pub blocked : ids ≡ blocked_nodes (final_schedule nodes positions).remaining_dependencies nodes

built-IsRefused :
    (nodes : List WorkflowNode) (positions : List (ℕ × ℕ)) (ids : List ℕ)
    → declare [] 0 nodes ≡ accepted positions
    → check_dependencies positions nodes ≡ none
    → with_order nodes positions (build_topological_order nodes positions) ≡ rejected (cyclic ids)
    → IsRefused nodes positions ids
unfolding build_topological_order
built-IsRefused nodes positions ids d c h =
    let s = final_schedule nodes positions in
    elim (Bool-cases (length s.ordered == length nodes)) [
      | inl y ↦ ground arith
      | inr e ↦ record { declared = d; checked = c; short = e; blocked = ground arith }
    ]

check_declared-IsRefused :
    (nodes : List WorkflowNode) (ids : List ℕ) (declared : Checked (List (ℕ × ℕ)))
    → declare [] 0 nodes ≡ declared
    → check_declared nodes declared ≡ rejected (cyclic ids)
    → (positions : List (ℕ × ℕ)) × IsRefused nodes positions ids
check_declared-IsRefused nodes ids (rejected e) d h =
    absurd (ground (arith, declare_other [] 0 nodes {ids = ids}))
check_declared-IsRefused nodes ids (accepted positions) d h =
    elim (Option-cases (check_dependencies positions nodes)) [
      | inl e ↦ (positions, built-IsRefused nodes positions ids d e (ground arith))
      | inr (e, f) ↦ absurd (ground (arith, check_other positions nodes {ids = ids}))
    ]

workflow_dag-IsRefused :
    (nodes : List WorkflowNode) (ids : List ℕ)
    → workflow_dag nodes ≡ rejected (cyclic ids)
    → (positions : List (ℕ × ℕ)) × IsRefused nodes positions ids
unfolding workflow_dag
workflow_dag-IsRefused [] ids h = ground arith
workflow_dag-IsRefused (n ∷ nodes) ids h =
    check_declared-IsRefused (n ∷ nodes) ids (declare [] 0 (n ∷ nodes)) refl h

module _ (nodes : List WorkflowNode) (positions : List (ℕ × ℕ)) (ids : List ℕ)
    (refused : IsRefused nodes positions ids) where
  refused-IsGraph : IsGraph nodes
  refused-IsGraph = checks-IsGraph nodes refused.declared refused.checked

  abbrev placed_of : List ℕ
  placed_of = (final_schedule nodes positions).ordered

  refused-IsCurrent : IsCurrent nodes (final_schedule nodes positions)
  refused-IsCurrent = final_of nodes refused.declared refused.checked

  -- A node that is not placed waits for a dependency.
  waits :
      (id : ℕ) (n : WorkflowNode)
      → find_node id nodes ≡ some n
      → contains id placed_of ≡ false
      → ltb 0 (outstanding placed_of n.dependencies) ≡ true
  waits id n f out = ground (
    arith,
    next_node-is_ready placed_of nodes id {n = n},
    next-ready nodes positions refused-IsGraph (declare-IsIndexed nodes refused.declared)
        (final_schedule nodes positions) refused-IsCurrent,
    final_schedule_empty nodes positions refused.declared refused.checked,
    all_in-outstanding placed_of n.dependencies,
    Table.find-key node_key id nodes f,
  )

  blocked_at :
      (id : ℕ)
      → contains id ids ≡ (
          not (is_null (find_node id nodes))
          && ltb 0 ((final_schedule nodes positions).remaining_dependencies id))
  blocked_at id =
      ap (contains id) refused.blocked
      ∙ contains-blocked_nodes (final_schedule nodes positions).remaining_dependencies nodes id

  unplaced_blocked :
      (id : ℕ) (n : WorkflowNode)
      → find_node id nodes ≡ some n
      → contains id placed_of ≡ false
      → contains id ids ≡ true
  unplaced_blocked id n f out = ground (
    arith,
    blocked_at id,
    refused-IsCurrent.counts id,
    find-dependencies_of nodes id f,
    waits id n f out,
  )

  blocked_stuck :
      (id : ℕ)
      → contains id ids ≡ true
      → (n : WorkflowNode) × (find_node id nodes ≡ some n) × (meets ids n.dependencies ≡ true)
  blocked_stuck id c = elim (Option-cases (find_node id nodes)) [
    | inl e ↦ absurd (ground (arith, blocked_at id))
    | inr (n, f) ↦
        let (dependency, d, out) = outstanding_one placed_of n.dependencies (
          ground
            (arith, blocked_at id, refused-IsCurrent.counts id, find-dependencies_of nodes id f)) in
        (
          n,
          f,
          contains-meets ids n.dependencies dependency d
              (elim (Option-cases (find_node dependency nodes)) [
                | inl e ↦ absurd (ground (arith, refused-IsGraph.known id n dependency f d))
                | inr (m, g) ↦ unplaced_blocked dependency m g out
              ]),
        )
  ]

  refused-IsStuck : IsStuck nodes ids
  refused-IsStuck =
      let (n, f, out) = waiting_one placed_of nodes refused-IsGraph.distinct (
        ground (
          arith,
          refused.short,
          Serial-length nodes refused-IsGraph.distinct refused-IsCurrent.serial,
        )) in
      record { one = (n.node_id, unplaced_blocked n.node_id n f out); each = blocked_stuck }

-- When the constructor refuses a graph for a cycle, the nodes that the error names are not none,
-- and each of them is a node of the graph that depends on another of them.
pub workflow_dag_cyclic :
    (nodes : List WorkflowNode) (ids : List ℕ)
    → workflow_dag nodes ≡ rejected (cyclic ids)
    → IsStuck nodes ids
workflow_dag_cyclic nodes ids h =
    let (positions, refused) = workflow_dag-IsRefused nodes ids h in
    refused-IsStuck nodes positions ids refused

-- The constructor accepts no graph that has a set of nodes, not none, each of which depends on
-- another of the set.
pub workflow_dag_acyclic :
    (nodes : List WorkflowNode) (ids : List ℕ) (dag : WorkflowDag)
    → IsStuck nodes ids
    → workflow_dag nodes ≢ accepted dag
workflow_dag_acyclic nodes ids dag stuck h =
    let b = workflow_dag-IsBuilt nodes h in
    let (id, c) = stuck.one in
    let (n, f, m) = stuck.each id c in
    ground
      (arith, Serial-IsStuck nodes ids id stuck (built-Serial nodes b), built-contains nodes id b f)
