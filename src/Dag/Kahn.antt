-- ===== src/Dag/Kahn.antt =====
-- runtime_service/dag.py, `_build_topological_order`: the loop over the heap.
use agent_runtime_platform.Base.{
  ℕ, ◌-◌, true, false, not, ◌&&◌, some, List, ◌∷◌, ◌≡◌, sym, ap, subst, ◌∙◌, inl, inr, ◌==◌,
  if◌then◌else◌, arith, Bool-cases, ==_iff, Option-cases,
}
use agent_runtime_platform.Base.Table
use agent_runtime_platform.Base.Table.{number_key}
use agent_runtime_platform.Dag.{
  WorkflowNode, contains, repeats, find_node, dependencies_of, dependents,
}
use agent_runtime_platform.Dag.Schedule.{Schedule, append, complete}
use agent_runtime_platform.Dag.Entries.{node_key, entries, entries_ext, pop-entries, entries-find}
use agent_runtime_platform.Dag.Release.{
  IsIndexed, frees, release_all-remaining, release_all-ordered, release_all-ready,
}
use agent_runtime_platform.Dag.Greedy.{
  is_ready, outstanding, outstanding_same, outstanding_less, contains-append, all_in-outstanding,
  Serial, place, IsGraph, all_in-contains, find-dependencies_of, dependent_known,
  contains-dependents, repeats-dependents, Serial-outstanding,
}

-- The counters count, and the heap holds the nodes that may be placed.
pub record IsCurrent (nodes : List WorkflowNode) (s : Schedule) : Type 0 where
  pub counts :
      (i : ℕ) → s.remaining_dependencies i ≡ outstanding s.ordered (dependencies_of nodes i)
  pub heap : s.ready ≡ entries (is_ready s.ordered) 0 nodes
  pub serial : Serial nodes s.ordered

module _ (nodes : List WorkflowNode) (positions : List (ℕ × ℕ)) (graph : IsGraph nodes)
    (indexed : IsIndexed nodes positions) where
  once_of : (i : ℕ) → repeats (dependencies_of nodes i) ≡ false
  unfolding dependencies_of
  once_of i = elim (Option-cases (find_node i nodes)) [
    | inl e ↦ ground arith
    | inr (n, f) ↦ ground (arith, graph.once i n f)
  ]

  place-counts :
      (id : ℕ) (placed : List ℕ) (i : ℕ)
      → contains id placed ≡ false
      → outstanding (append placed id) (dependencies_of nodes i) ≡ (
          if contains i (dependents nodes id)
          then outstanding placed (dependencies_of nodes i) - 1
          else outstanding placed (dependencies_of nodes i))
  place-counts id placed i n = elim (Bool-cases (contains id (dependencies_of nodes i))) [
    | inl y ↦ ground (
      arith,
      contains-dependents nodes id i graph.distinct,
      outstanding_less placed id (dependencies_of nodes i) n (once_of i) y,
    )
    | inr e ↦ ground (
      arith,
      contains-dependents nodes id i graph.distinct,
      outstanding_same placed id (dependencies_of nodes i) e,
    )
  ]

  place-is_ready :
      (s : Schedule) (id k : ℕ) (m n : WorkflowNode)
      → IsCurrent nodes s
      → find_node id nodes ≡ some m
      → is_ready s.ordered m ≡ true
      → find_node k nodes ≡ some n
      → frees
          (λ n. is_ready s.ordered n && not (n.node_id == id))
          s.remaining_dependencies
          (dependents nodes id)
          n
        ≡ is_ready (append s.ordered id) n
  place-is_ready s id k m n c at ready f =
      let own = Table.find-own node_key k nodes f in
      let deps = find-dependencies_of nodes n.node_id own in
      elim (Bool-cases (n.node_id == id)) [
        | inl y ↦ ground (
          arith,
          deps,
          contains-append n.node_id s.ordered id,
          ==_iff id n.node_id,
          ==_iff n.node_id id,
          contains-dependents nodes id n.node_id graph.distinct,
          graph.not_self n.node_id n own,
        )
        | inr e ↦ ground (
          arith,
          deps,
          Table.find-key node_key id nodes at,
          contains-append n.node_id s.ordered id,
          ==_iff id n.node_id,
          contains-dependents nodes id n.node_id graph.distinct,
          place-counts id s.ordered n.node_id,
          c.counts n.node_id,
          all_in-outstanding s.ordered n.dependencies,
          all_in-outstanding (append s.ordered id) n.dependencies,
          all_in-contains s.ordered id n.dependencies,
          Serial-outstanding nodes n.node_id c.serial,
        )
      ]

  pub complete-IsCurrent :
      (s : Schedule) (least : ℕ × ℕ) (heap : List (ℕ × ℕ))
      → s.ready ≡ least ∷ heap
      → IsCurrent nodes s
      → IsCurrent nodes (complete nodes positions least.1 heap s)
  complete-IsCurrent s least heap h c =
      let id = least.1 in
      let d = graph.distinct in
      let full = sym c.heap ∙ h in
      let (m, at, ready) = entries-find (is_ready s.ordered) 0 nodes d full in
      let ids = dependents nodes id in
      let once = repeats-dependents nodes id d in
      let popped = record s { ready = heap; ordered = append s.ordered id } in
      let test = λ (n : WorkflowNode). is_ready s.ordered n && not (n.node_id == id) in
      let order = release_all-ordered nodes positions d indexed ids popped in
      record {
        counts = λ i. ground (
          arith,
          order,
          release_all-remaining nodes positions d indexed ids popped i once,
          place-counts id s.ordered i,
          c.counts i,
          Table.find-key node_key id nodes at,
        );
        heap =
            release_all-ready nodes positions d indexed test ids popped once
              (λ i u. dependent_known nodes id i (sym (contains-dependents nodes id i d) ∙ u))
              (λ i n u f. ground (
                arith,
                Table.find-key node_key id nodes at,
                find-dependencies_of nodes i f,
                contains-dependents nodes id i d,
                all_in-contains s.ordered id n.dependencies,
              ))
              (pop-entries (is_ready s.ordered) 0 nodes d full)
            ∙ entries_ext (frees test s.remaining_dependencies ids)
                (is_ready (complete nodes positions least.1 heap s).ordered) 0 nodes d
                (λ k n f.
                  place-is_ready s id k m n c at ready f ∙ ap (λ o. is_ready o n) (sym order));
        serial = subst (Serial nodes) (sym order) (place s.ordered id m at ready c.serial);
      }
