-- ===== src/Dag/Declared.antt =====
-- runtime_service/dag.py, `WorkflowDag.__init__`: what a graph has that passes the checks.
use agent_runtime_platform.Base.{
  ℕ, suc, true, false, Option, none, some, List, [], ◌∷◌, ◌≡◌, refl, is_null, arith, ==_iff,
}
use agent_runtime_platform.Base.Table
use agent_runtime_platform.Base.Table.{number_key}
use agent_runtime_platform.Dag.{
  WorkflowNode, WorkflowGraphError, contains, repeats, find_node, position_of, accepted, declare,
  missing, check_dependencies, unless_missing,
}
use agent_runtime_platform.Dag.Entries.{Distinct, index, index-find}
use agent_runtime_platform.Dag.Release.{IsIndexed}
use agent_runtime_platform.Dag.Greedy.{IsGraph}

declare_fresh :
    (positions : List (ℕ × ℕ)) (first : ℕ) (ns : List WorkflowNode) {ps : List (ℕ × ℕ)} (id : ℕ)
    → declare positions first ns ≡ accepted ps
    → is_null (position_of id positions) ≡ false
    → find_node id ns ≡ none
unfolding declare Table.find
declare_fresh positions first [] id h k = refl
declare_fresh positions first (n ∷ ns) {ps} id h k = ground (
  arith,
  declare_fresh ((n.node_id, first) ∷ positions) (suc first) ns {ps = ps} id,
  ==_iff n.node_id id,
)

-- Each new id is named once, and no node names a dependency twice.
declare-Distinct :
    (positions : List (ℕ × ℕ)) (first : ℕ) (ns : List WorkflowNode) {ps : List (ℕ × ℕ)}
    → declare positions first ns ≡ accepted ps
    → Distinct ns
unfolding declare Table.find
declare-Distinct positions first [] h = tt
declare-Distinct positions first (n ∷ ns) {ps} h = ground (
  arith,
  declare_fresh ((n.node_id, first) ∷ positions) (suc first) ns {ps = ps} n.node_id,
  declare-Distinct ((n.node_id, first) ∷ positions) (suc first) ns {ps = ps},
  ==_iff n.node_id n.node_id,
)

declare-repeats :
    (positions : List (ℕ × ℕ)) (first : ℕ) (ns : List WorkflowNode) {ps : List (ℕ × ℕ)} (id : ℕ)
    (n : WorkflowNode)
    → declare positions first ns ≡ accepted ps
    → find_node id ns ≡ some n
    → repeats n.dependencies ≡ false
unfolding declare Table.find
declare-repeats positions first [] id n h f = ground arith
declare-repeats positions first (m ∷ ns) {ps} id n h f =
    ground (arith, declare-repeats ((m.node_id, first) ∷ positions) (suc first) ns {ps = ps} id n)

-- A dict of positions and a declaration before it.
abbrev placed_at : Option ℕ → ℕ → Option (ℕ × ℕ) → Option (ℕ × ℕ)
placed_at none id before = before
placed_at (some p) id before = some (id, p)

declare-position_of :
    (positions : List (ℕ × ℕ)) (first : ℕ) (ns : List WorkflowNode) {ps : List (ℕ × ℕ)} (id : ℕ)
    → declare positions first ns ≡ accepted ps
    → position_of id ps ≡ placed_at (index first ns id) id (position_of id positions)
unfolding declare index Table.find
declare-position_of positions first [] id h = ground arith
declare-position_of positions first (n ∷ ns) {ps} id h = ground (
  arith,
  declare-position_of ((n.node_id, first) ∷ positions) (suc first) ns {ps = ps} id,
  declare_fresh ((n.node_id, first) ∷ positions) (suc first) ns {ps = ps} id,
  index-find (suc first) ns id,
  ==_iff n.node_id id,
)

pub missing-position_of :
    (positions : List (ℕ × ℕ)) (ids : List ℕ) (id : ℕ)
    → missing positions ids ≡ []
    → contains id ids ≡ true
    → is_null (position_of id positions) ≡ false
missing-position_of positions [] id m c = ground arith
missing-position_of positions (x ∷ ids) id m c =
    ground (arith, missing-position_of positions ids id, ==_iff x id)

unless_missing-none :
    (id : ℕ) (ids : List ℕ) (rest : Option WorkflowGraphError)
    → unless_missing id ids rest ≡ none
    → (ids ≡ []) × (rest ≡ none)
unless_missing-none id [] rest h = (refl, h)
unless_missing-none id (x ∷ ids) rest h = ground arith

check-missing :
    (positions : List (ℕ × ℕ)) (ns : List WorkflowNode) (id : ℕ) (n : WorkflowNode)
    → check_dependencies positions ns ≡ none
    → find_node id ns ≡ some n
    → (contains id n.dependencies ≡ false) × (missing positions n.dependencies ≡ [])
unfolding check_dependencies Table.find
check-missing positions [] id n h f = ground arith
check-missing positions (m ∷ ns) id n h f = ground (
  arith,
  unless_missing-none m.node_id (missing positions m.dependencies)
      (check_dependencies positions ns),
  check-missing positions ns id n,
  ==_iff m.node_id id,
)

position_of_nil : (id : ℕ) → position_of id [] ≡ none
unfolding Table.find
position_of_nil id = refl

-- What the two loops ensure.
pub checks-IsGraph :
    (nodes : List WorkflowNode) {positions : List (ℕ × ℕ)}
    → declare [] 0 nodes ≡ accepted positions
    → check_dependencies positions nodes ≡ none
    → IsGraph nodes
checks-IsGraph nodes {positions} h c = record {
  distinct = declare-Distinct [] 0 nodes h;
  once = λ id n f. declare-repeats [] 0 nodes id n h f;
  not_self = λ id n f. (check-missing positions nodes id n c f).0;
  known = λ id n dependency f u. ground (
    arith,
    missing-position_of positions n.dependencies dependency
        (check-missing positions nodes id n c f).1 u,
    declare-position_of [] 0 nodes {ps = positions} dependency h,
    index-find 0 nodes dependency,
    position_of_nil dependency,
  );
}

pub declare-IsIndexed :
    (nodes : List WorkflowNode) {positions : List (ℕ × ℕ)}
    → declare [] 0 nodes ≡ accepted positions
    → IsIndexed nodes positions
declare-IsIndexed nodes {positions} h = record {
  places = λ id p at. ground (arith, declare-position_of [] 0 nodes {ps = positions} id h);
}

-- The ids of the dict are those of the nodes.
pub declare-find :
    (nodes : List WorkflowNode) {positions : List (ℕ × ℕ)} (id : ℕ)
    → declare [] 0 nodes ≡ accepted positions
    → is_null (position_of id positions) ≡ is_null (find_node id nodes)
declare-find nodes {positions} id h = ground (
  arith,
  declare-position_of [] 0 nodes {ps = positions} id h,
  index-find 0 nodes id,
  position_of_nil id,
)
