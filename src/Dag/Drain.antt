-- ===== src/Dag/Drain.antt =====
-- runtime_service/dag.py, `_build_topological_order`: the loop ends with an empty heap and places
-- the nodes by the rule of `greedy`.
use agent_runtime_platform.Base.{
  ℕ, zero, suc, ◌≤◌, Option, none, some, List, [], ◌∷◌, ◌≡◌, refl, sym, ap, subst, ◌∙◌, ◌⊎◌, inl,
  inr, arith,
}
use agent_runtime_platform.Base.Table
use agent_runtime_platform.Base.Table.{number_key}
use agent_runtime_platform.Dag.{WorkflowNode, dependents}
use agent_runtime_platform.Dag.Schedule.{Schedule, append, complete, drain}
use agent_runtime_platform.Dag.Entries.{node_key, entries, entries-find}
use agent_runtime_platform.Dag.Release.{IsIndexed, release_all-ordered}
use agent_runtime_platform.Dag.Greedy.{is_ready, next_node, greedy, IsGraph}
use agent_runtime_platform.Dag.Waiting.{waiting, waiting-append}
use agent_runtime_platform.Dag.Kahn.{IsCurrent, complete-IsCurrent}

pub List-cases :
    {A : Type 0} (xs : List A) → (xs ≡ []) ⊎ ((x : A) × (rest : List A) × (xs ≡ x ∷ rest))
List-cases [] = inl refl
List-cases (x ∷ xs) = inr (x, xs, refl)

-- The id that `heappop` takes.
abbrev first_id : List (ℕ × ℕ) → Option ℕ
first_id [] = none
first_id (entry ∷ heap) = some entry.1

next-entries :
    (placed : List ℕ) (first : ℕ) (ns : List WorkflowNode)
    → next_node placed ns ≡ first_id (entries (is_ready placed) first ns)
unfolding entries next_node
next-entries placed first [] = refl
next-entries placed first (n ∷ ns) = ground (arith, next-entries placed (suc first) ns)

drain_stop :
    (nodes : List WorkflowNode) (positions : List (ℕ × ℕ)) (fuel : ℕ) (s : Schedule)
    → s.ready ≡ []
    → drain nodes positions fuel s ≡ s
unfolding drain
drain_stop nodes positions zero s e = refl
drain_stop nodes positions (suc fuel) s e = ground arith

drain-zero :
    (nodes : List WorkflowNode) (positions : List (ℕ × ℕ)) (s : Schedule)
    → drain nodes positions zero s ≡ s
unfolding drain
drain-zero nodes positions s = refl

drain_round :
    (nodes : List WorkflowNode) (positions : List (ℕ × ℕ)) (fuel : ℕ) (s : Schedule) {least : ℕ × ℕ}
    {heap : List (ℕ × ℕ)}
    → s.ready ≡ least ∷ heap
    → drain nodes positions (suc fuel) s
      ≡ drain nodes positions fuel (complete nodes positions least.1 heap s)
unfolding drain
drain_round nodes positions fuel s e = ground arith

module _ (nodes : List WorkflowNode) (positions : List (ℕ × ℕ)) (graph : IsGraph nodes)
    (indexed : IsIndexed nodes positions) where
  pub next-ready : (s : Schedule) → IsCurrent nodes s → next_node s.ordered nodes ≡ first_id s.ready
  next-ready s c = next-entries s.ordered 0 nodes ∙ ap first_id (sym c.heap)

  complete-ordered :
      (s : Schedule) (least : ℕ × ℕ) (heap : List (ℕ × ℕ))
      → (complete nodes positions least.1 heap s).ordered ≡ append s.ordered least.1
  complete-ordered s least heap =
      release_all-ordered nodes positions graph.distinct indexed (dependents nodes least.1)
        (record s { ready = heap; ordered = append s.ordered least.1 })

  round_left :
      (s : Schedule) (least : ℕ × ℕ) (heap : List (ℕ × ℕ))
      → s.ready ≡ least ∷ heap
      → IsCurrent nodes s
      → suc (waiting (append s.ordered least.1) nodes) ≡ waiting s.ordered nodes
  round_left s least heap e c =
      let (m, at, ready) =
        entries-find (is_ready s.ordered) 0 nodes graph.distinct (sym c.heap ∙ e) in
      waiting-append s.ordered least.1 nodes graph.distinct
        (ground (arith, Table.find-key node_key least.1 nodes at)) at

  pub drain-IsCurrent :
      (fuel : ℕ) (s : Schedule) → IsCurrent nodes s → IsCurrent nodes (drain nodes positions fuel s)
  drain-IsCurrent zero s c = subst (IsCurrent nodes) (sym (drain-zero nodes positions s)) c
  drain-IsCurrent (suc fuel) s c = elim (List-cases s.ready) [
    | inl e ↦ subst (IsCurrent nodes) (sym (drain_stop nodes positions (suc fuel) s e)) c
    | inr (least, heap, e) ↦ subst (IsCurrent nodes) (sym (drain_round nodes positions fuel s e)) (
        drain-IsCurrent fuel (complete nodes positions least.1 heap s)
          (complete-IsCurrent nodes positions graph indexed s least heap e c))
  ]

  pub drain-greedy :
      (fuel : ℕ) (s : Schedule)
      → IsCurrent nodes s
      → (drain nodes positions fuel s).ordered ≡ greedy nodes fuel s.ordered
  unfolding greedy
  drain-greedy zero s c = ground (arith, drain-zero nodes positions s)
  drain-greedy (suc fuel) s c = elim (List-cases s.ready) [
    | inl e ↦ ground (arith, next-ready s c, drain_stop nodes positions (suc fuel) s e)
    | inr (least, heap, e) ↦ ground (
      arith,
      next-ready s c,
      drain_round nodes positions fuel s e,
      complete-ordered s least heap,
      drain-greedy fuel (complete nodes positions least.1 heap s)
          (complete-IsCurrent nodes positions graph indexed s least heap e c),
    )
  ]

  -- Each round places a node.
  pub drain_ends :
      (fuel : ℕ) (s : Schedule)
      → IsCurrent nodes s
      → waiting s.ordered nodes ≤ fuel
      → (drain nodes positions fuel s).ready ≡ []
  drain_ends zero s c h = elim (List-cases s.ready) [
    | inl e ↦ ground (arith, drain-zero nodes positions s)
    | inr (least, heap, e) ↦ ground (arith, round_left s least heap e c)
  ]
  drain_ends (suc fuel) s c h = elim (List-cases s.ready) [
    | inl e ↦ ground (arith, drain_stop nodes positions (suc fuel) s e)
    | inr (least, heap, e) ↦ ground (
      arith,
      drain_round nodes positions fuel s e,
      round_left s least heap e c,
      complete-ordered s least heap,
      drain_ends fuel (complete nodes positions least.1 heap s)
          (complete-IsCurrent nodes positions graph indexed s least heap e c),
    )
  ]
