-- ===== src/Dag.antt =====
-- runtime_service/dag.py: the checks of `WorkflowDag.__init__` and what it keeps. A frozen set is
-- the list of its members. A dict is the list of its items; its keys are node ids.
pub mod Schedule
pub mod Reach
pub mod Entries
pub mod Declared
pub mod Greedy
pub mod Release
pub mod Kahn
pub mod Waiting
pub mod Drain
pub mod Final
pub mod Stuck
pub mod Order
pub mod Cycles
pub mod Closure
pub mod Descendants
use agent_runtime_platform.Base.{
  ℕ, suc, Bool, true, false, not, ◌&&◌, ◌||◌, Option, none, some, List, [], ◌∷◌, ◌==◌,
  if◌then◌else◌, is_null,
}
use agent_runtime_platform.Base.Table
use agent_runtime_platform.Base.Table.{number_key}

pub record WorkflowNode : Type 0 where
  pub node_id : ℕ
  pub dependencies : List ℕ

-- `WorkflowGraphError`, by its messages. The ids of a message are kept in the order in which the
-- code finds them.
pub data WorkflowGraphError : Type 0 where
  no_nodes node_id_empty : WorkflowGraphError
  duplicate_node_id duplicate_dependencies self_dependency : ℕ → WorkflowGraphError
  unknown_dependencies : ℕ → List ℕ → WorkflowGraphError
  cyclic unknown_node_ids : List ℕ → WorkflowGraphError

pub data Checked {ℓ} (Value : Type ℓ) : Type ℓ where
  rejected : WorkflowGraphError → Checked Value
  accepted : Value → Checked Value

-- `x in xs`
abbrev pub contains : ℕ → List ℕ → Bool
contains x [] = false
contains x (y ∷ ys) = y == x || contains x ys

-- `len(set(xs)) != len(xs)`
abbrev pub repeats : List ℕ → Bool
repeats [] = false
repeats (x ∷ xs) = contains x xs || repeats xs

abbrev pub find_node : ℕ → List WorkflowNode → Option WorkflowNode
find_node = Table.find (λ (n : WorkflowNode). n.node_id)

-- `self._positions[node_id]`
abbrev pub position_of : ℕ → List (ℕ × ℕ) → Option (ℕ × ℕ)
position_of = Table.find (λ (entry : ℕ × ℕ). entry.0)

-- The first loop: the positions of the ids, the last one first.
unfoldable pub declare : List (ℕ × ℕ) → ℕ → List WorkflowNode → Checked (List (ℕ × ℕ))
declare positions position [] = accepted positions
declare positions position (node ∷ nodes) =
    let rest = declare ((node.node_id, position) ∷ positions) (suc position) nodes in
    if node.node_id == 0
    then rejected node_id_empty
    else if not (is_null (position_of node.node_id positions))
    then rejected (duplicate_node_id node.node_id)
    else if repeats node.dependencies
    then rejected (duplicate_dependencies node.node_id)
    else rest

-- set(ids) - set(positions)
abbrev pub missing : List (ℕ × ℕ) → List ℕ → List ℕ
missing positions [] = []
missing positions (id ∷ ids) =
    let rest = missing positions ids in
    if is_null (position_of id positions) then id ∷ rest else rest

-- The check of one node in the second loop, before `rest`.
abbrev pub unless_missing : ℕ → List ℕ → Option WorkflowGraphError → Option WorkflowGraphError
unless_missing id [] rest = rest
unless_missing id (x ∷ xs) rest = some (unknown_dependencies id (x ∷ xs))

-- The second loop.
unfoldable pub check_dependencies : List (ℕ × ℕ) → List WorkflowNode → Option WorkflowGraphError
check_dependencies positions [] = none
check_dependencies positions (node ∷ nodes) =
    let rest = check_dependencies positions nodes in
    if contains node.node_id node.dependencies
    then some (self_dependency node.node_id)
    else unless_missing node.node_id (missing positions node.dependencies) rest

-- `self._dependencies[node_id]`
unfoldable pub dependencies_of : List WorkflowNode → ℕ → List ℕ
dependencies_of nodes id = elim (find_node id nodes) [ none ↦ [] | some n ↦ n.dependencies ]

-- `self._dependents[node_id]`
unfoldable pub dependents : List WorkflowNode → ℕ → List ℕ
dependents [] id = []
dependents (node ∷ nodes) id =
    let rest = dependents nodes id in
    if contains id node.dependencies then node.node_id ∷ rest else rest

pub record WorkflowDag : Type 0 where
  pub nodes : List WorkflowNode
  pub positions : List (ℕ × ℕ)
  pub topological_order : List ℕ

-- `node_ids`
unfoldable pub node_ids : List WorkflowNode → List ℕ
node_ids [] = []
node_ids (node ∷ nodes) = node.node_id ∷ node_ids nodes
