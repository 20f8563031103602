-- ===== src/Dag/Order.antt =====
-- runtime_service/dag.py: the order of a graph, and when there is none.
use agent_runtime_platform.Base.{
  ℕ, Bool, true, false, ◌&&◌, ◌||◌, none, some, List, [], ◌∷◌, ◌≡◌, refl, sym, subst, ◌∙◌, inl, inr,
  ◌==◌, length, arith, Bool-cases, ==_iff,
}
use agent_runtime_platform.Base.Table
use agent_runtime_platform.Base.Table.{number_key}
use agent_runtime_platform.Dag.{
  WorkflowNode, WorkflowDag, contains, repeats, find_node, dependencies_of, accepted, declare,
  check_dependencies,
}
use agent_runtime_platform.Dag.Schedule.{
  append, final_schedule, build_topological_order, workflow_dag,
}
use agent_runtime_platform.Dag.Entries.{node_key}
use agent_runtime_platform.Dag.Greedy.{
  greedy, contains-append, all_in-contains, Serial, start, place, find-dependencies_of,
}
use agent_runtime_platform.Dag.Kahn.{IsCurrent}
use agent_runtime_platform.Dag.Waiting.{waiting, Serial-length}
use agent_runtime_platform.Dag.Declared.{checks-IsGraph, declare-IsIndexed}
use agent_runtime_platform.Dag.Final.{
  final-IsCurrent, final_schedule_ends, IsBuilt, workflow_dag-IsBuilt, IsBuilt-IsGraph,
}

-- One of the first id's places in the list is before one of the second's.
unfoldable pub precedes : ℕ → ℕ → List ℕ → Bool
precedes x y [] = false
precedes x y (z ∷ zs) = (z == x && contains y zs) || precedes x y zs

abbrev pub all_precede : List ℕ → ℕ → List ℕ → Bool
all_precede order id [] = true
all_precede order id (x ∷ xs) = precedes x id order && all_precede order id xs

all_precede-one :
    (order : List ℕ) (id : ℕ) (ids : List ℕ)
    → ((x : ℕ) → contains x ids ≡ true → precedes x id order ≡ true)
    → all_precede order id ids ≡ true
all_precede-one order id [] h = refl
all_precede-one order id (x ∷ xs) h =
    ground (arith, h x, ==_iff x x, all_precede-one order id xs (λ y c. h y (ground (arith, c))))

precedes-append :
    (x y z : ℕ) (zs : List ℕ)
    → precedes x y (append zs z) ≡ (precedes x y zs || (contains x zs && z == y))
unfolding precedes append
precedes-append x y z [] = ground arith
precedes-append x y z (u ∷ zs) = ground (arith, precedes-append x y z zs, contains-append y zs z)

repeats-append :
    (xs : List ℕ) (x : ℕ)
    → repeats xs ≡ false
    → contains x xs ≡ false
    → repeats (append xs x) ≡ false
unfolding append
repeats-append [] x r c = refl
repeats-append (y ∷ ys) x r c =
    ground (arith, repeats-append ys x, contains-append y ys x, ==_iff x y, ==_iff y x)

Serial-repeats :
    (nodes : List WorkflowNode) {order : List ℕ} → Serial nodes order → repeats order ≡ false
Serial-repeats nodes start = refl
Serial-repeats nodes (place placed id n f r s) =
    repeats-append placed id (Serial-repeats nodes s)
      (ground (arith, Table.find-key node_key id nodes f))

Serial-precedes :
    (nodes : List WorkflowNode) {order : List ℕ} (id dependency : ℕ)
    → Serial nodes order
    → contains id order ≡ true
    → contains dependency (dependencies_of nodes id) ≡ true
    → precedes dependency id order ≡ true
Serial-precedes nodes id dependency start c d = ground arith
Serial-precedes nodes id dependency (place placed x n f r s) c d = elim (Bool-cases (x == id)) [
  | inl y ↦ ground (
    arith,
    (==_iff x id).0 y,
    find-dependencies_of nodes x f,
    all_in-contains placed dependency n.dependencies,
    precedes-append dependency id x placed,
  )
  | inr e ↦ ground (
    arith,
    contains-append id placed x,
    Serial-precedes nodes id dependency s,
    precedes-append dependency id x placed,
  )
]

-- The final schedule of a graph that passes the checks.
pub final_of :
    (nodes : List WorkflowNode) {positions : List (ℕ × ℕ)}
    → declare [] 0 nodes ≡ accepted positions
    → check_dependencies positions nodes ≡ none
    → IsCurrent nodes (final_schedule nodes positions)
final_of nodes {positions} d c =
    final-IsCurrent nodes positions (checks-IsGraph nodes d c) (declare-IsIndexed nodes d)

-- For a graph that passes the checks of the constructor, the loop of `_build_topological_order` has
-- an empty heap after at most as many rounds as there are nodes.
pub final_schedule_empty :
    (nodes : List WorkflowNode) (positions : List (ℕ × ℕ))
    → declare [] 0 nodes ≡ accepted positions
    → check_dependencies positions nodes ≡ none
    → (final_schedule nodes positions).ready ≡ []
final_schedule_empty nodes positions d c =
    (final_schedule_ends nodes positions (checks-IsGraph nodes d c) (declare-IsIndexed nodes d)).0

built-order :
    (nodes : List WorkflowNode) (positions : List (ℕ × ℕ)) {order : List ℕ}
    → build_topological_order nodes positions ≡ accepted order
    → (order ≡ (final_schedule nodes positions).ordered) × (length order ≡ length nodes)
unfolding build_topological_order
built-order nodes positions h = ground arith

-- The topological order of a graph that the constructor accepts is the order of the rule that
-- always places the first node of the declaration whose dependencies are all placed.
pub workflow_dag-greedy :
    (nodes : List WorkflowNode) (dag : WorkflowDag)
    → workflow_dag nodes ≡ accepted dag
    → dag.topological_order ≡ greedy nodes (length nodes) []
workflow_dag-greedy nodes dag h =
    let b = workflow_dag-IsBuilt nodes h in
    (built-order nodes dag.positions b.built).0
    ∙ (final_schedule_ends nodes dag.positions (IsBuilt-IsGraph nodes b)
        (declare-IsIndexed nodes b.declared)).1

-- The order of an accepted graph.
pub built-Serial :
    (nodes : List WorkflowNode) {dag : WorkflowDag}
    → IsBuilt nodes dag
    → Serial nodes dag.topological_order
built-Serial nodes {dag} b =
    subst (Serial nodes) (sym (built-order nodes dag.positions b.built).0)
      (final_of nodes b.declared b.checked).serial

no_waiting :
    (placed : List ℕ) (ns : List WorkflowNode) (id : ℕ) {n : WorkflowNode}
    → waiting placed ns ≡ 0
    → find_node id ns ≡ some n
    → contains id placed ≡ true
unfolding waiting Table.find
no_waiting placed [] id w f = ground arith
no_waiting placed (m ∷ ns) id {n} w f =
    ground (arith, no_waiting placed ns id {n = n}, ==_iff m.node_id id)

pub built-contains :
    (nodes : List WorkflowNode) {dag : WorkflowDag} (id : ℕ) {n : WorkflowNode}
    → IsBuilt nodes dag
    → find_node id nodes ≡ some n
    → contains id dag.topological_order ≡ true
built-contains nodes {dag} id b f =
    no_waiting dag.topological_order nodes id
      (ground (
        arith,
        Serial-length nodes (IsBuilt-IsGraph nodes b).distinct (built-Serial nodes b),
        built-order nodes dag.positions b.built,
      ))
      f

-- The topological order of a graph that the constructor accepts has as many ids as the graph has
-- nodes and none twice, and each node of the graph stands in it, after each of its dependencies.
pub workflow_dag_respects :
    (nodes : List WorkflowNode) (dag : WorkflowDag) (id : ℕ) (n : WorkflowNode)
    → workflow_dag nodes ≡ accepted dag
    → find_node id nodes ≡ some n
    → (length dag.topological_order ≡ length nodes)
      × (repeats dag.topological_order ≡ false)
      × (contains id dag.topological_order ≡ true)
      × (all_precede dag.topological_order id n.dependencies ≡ true)
workflow_dag_respects nodes dag id n h f =
    let b = workflow_dag-IsBuilt nodes h in
    let serial = built-Serial nodes b in
    let placed = built-contains nodes id b f in
    (
      (built-order nodes dag.positions b.built).1,
      Serial-repeats nodes serial,
      placed,
      all_precede-one dag.topological_order id n.dependencies (λ dependency c.
          Serial-precedes nodes id dependency serial placed (
            subst (λ ids. contains dependency ids ≡ true) (sym (find-dependencies_of nodes id f))
              c)),
    )
