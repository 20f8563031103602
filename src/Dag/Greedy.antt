-- ===== src/Dag/Greedy.antt =====
-- runtime_service/dag.py, `_build_topological_order`: Kahn's algorithm with its counters and its
-- heap is the search for the first node of the declaration whose dependencies are all placed.
use agent_runtime_platform.Base.{
  ℕ, zero, suc, Bool, true, false, not, ◌&&◌, ◌||◌, Option, none, some, List, [], ◌∷◌, ◌≡◌, refl,
  inl, inr, ◌==◌, if◌then◌else◌, is_null, arith, Bool-cases, ==_iff, Option-cases,
}
use agent_runtime_platform.Base.Table
use agent_runtime_platform.Base.Table.{number_key}
use agent_runtime_platform.Dag.{
  WorkflowNode, contains, repeats, find_node, dependencies_of, dependents,
}
use agent_runtime_platform.Dag.Schedule.{append}
use agent_runtime_platform.Dag.Entries.{Distinct}

abbrev pub all_in : List ℕ → List ℕ → Bool
all_in placed [] = true
all_in placed (id ∷ ids) = contains id placed && all_in placed ids

-- A node that may be placed next.
abbrev pub is_ready : List ℕ → WorkflowNode → Bool
is_ready placed n = not (contains n.node_id placed) && all_in placed n.dependencies

unfoldable pub next_node : List ℕ → List WorkflowNode → Option ℕ
next_node placed [] = none
next_node placed (n ∷ ns) =
    let rest = next_node placed ns in if is_ready placed n then some n.node_id else rest

-- The order by the rule alone.
unfoldable pub greedy : List WorkflowNode → ℕ → List ℕ → List ℕ
greedy nodes zero placed = placed
greedy nodes (suc fuel) placed = elim (next_node placed nodes) [
  | none ↦ placed
  | some id ↦ greedy nodes fuel (append placed id)
]

-- How many of the ids are not placed.
unfoldable pub outstanding : List ℕ → List ℕ → ℕ
outstanding placed [] = 0
outstanding placed (id ∷ ids) =
    let rest = outstanding placed ids in if contains id placed then rest else suc rest

pub contains-append :
    (i : ℕ) (xs : List ℕ) (x : ℕ) → contains i (append xs x) ≡ (contains i xs || x == i)
unfolding append
contains-append i [] x = ground arith
contains-append i (y ∷ ys) x = ground (arith, contains-append i ys x)

pub all_in-outstanding : (placed ids : List ℕ) → all_in placed ids ≡ (outstanding placed ids == 0)
unfolding outstanding
all_in-outstanding placed [] = refl
all_in-outstanding placed (id ∷ ids) = ground (arith, all_in-outstanding placed ids)

pub outstanding_same :
    (placed : List ℕ) (x : ℕ) (ids : List ℕ)
    → contains x ids ≡ false
    → outstanding (append placed x) ids ≡ outstanding placed ids
unfolding outstanding
outstanding_same placed x [] h = refl
outstanding_same placed x (id ∷ ids) h =
    ground
      (arith, outstanding_same placed x ids, contains-append id placed x, ==_iff x id, ==_iff id x)

pub outstanding_less :
    (placed : List ℕ) (x : ℕ) (ids : List ℕ)
    → contains x placed ≡ false
    → repeats ids ≡ false
    → contains x ids ≡ true
    → suc (outstanding (append placed x) ids) ≡ outstanding placed ids
unfolding outstanding
outstanding_less placed x [] n r h = ground arith
outstanding_less placed x (id ∷ ids) n r h = elim (Bool-cases (id == x)) [
  | inl y ↦ ground (arith, outstanding_same placed x ids, contains-append id placed x, ==_iff id x)
  | inr e ↦ ground (
    arith,
    outstanding_less placed x ids n,
    contains-append id placed x,
    ==_iff x id,
    ==_iff id x,
  )
]

-- An order that is built from nothing by placing nodes that may be placed.
pub data Serial (nodes : List WorkflowNode) : List ℕ → Type 0 where
  start : Serial nodes []
  place :
      (placed : List ℕ) (id : ℕ) (n : WorkflowNode)
      → find_node id nodes ≡ some n
      → is_ready placed n ≡ true
      → Serial nodes placed
      → Serial nodes (append placed id)

-- What the checks of the constructor ensure.
pub record IsGraph (nodes : List WorkflowNode) : Type 0 where
  pub distinct : Distinct nodes
  pub once :
      (id : ℕ) (n : WorkflowNode) → find_node id nodes ≡ some n → repeats n.dependencies ≡ false
  pub not_self :
      (id : ℕ) (n : WorkflowNode) → find_node id nodes ≡ some n → contains id n.dependencies ≡ false
  pub known :
      (id : ℕ) (n : WorkflowNode) (dependency : ℕ)
      → find_node id nodes ≡ some n
      → contains dependency n.dependencies ≡ true
      → is_null (find_node dependency nodes) ≡ false

pub all_in-append :
    (placed : List ℕ) (x : ℕ) (ids : List ℕ)
    → all_in placed ids ≡ true
    → all_in (append placed x) ids ≡ true
all_in-append placed x [] h = refl
all_in-append placed x (id ∷ ids) h =
    ground (arith, all_in-append placed x ids, contains-append id placed x)

pub all_in-contains :
    (placed : List ℕ) (x : ℕ) (ids : List ℕ)
    → all_in placed ids ≡ true
    → contains x ids ≡ true
    → contains x placed ≡ true
all_in-contains placed x [] h c = ground arith
all_in-contains placed x (id ∷ ids) h c = ground (arith, all_in-contains placed x ids, ==_iff id x)

pub find-dependencies_of :
    (nodes : List WorkflowNode) (id : ℕ) {n : WorkflowNode}
    → find_node id nodes ≡ some n
    → dependencies_of nodes id ≡ n.dependencies
unfolding dependencies_of
find-dependencies_of nodes id f = ground arith

-- A node that depends on another one is there.
pub dependent_known :
    (nodes : List WorkflowNode) (id i : ℕ)
    → contains id (dependencies_of nodes i) ≡ true
    → is_null (find_node i nodes) ≡ false
unfolding dependencies_of
dependent_known nodes id i c = elim (Option-cases (find_node i nodes)) [
  | inl e ↦ ground arith
  | inr (n, f) ↦ ground arith
]

pub contains-dependents :
    (nodes : List WorkflowNode) (id i : ℕ)
    → Distinct nodes
    → contains i (dependents nodes id) ≡ contains id (dependencies_of nodes i)
unfolding dependents dependencies_of Table.find
contains-dependents [] id i d = refl
contains-dependents (n ∷ nodes) id i d = elim (Bool-cases (n.node_id == i)) [
  | inl y ↦ ground (arith, contains-dependents nodes id i d.1, (==_iff n.node_id i).0 y)
  | inr e ↦ ground (arith, contains-dependents nodes id i d.1)
]

pub repeats-dependents :
    (nodes : List WorkflowNode) (id : ℕ) → Distinct nodes → repeats (dependents nodes id) ≡ false
unfolding dependents dependencies_of
repeats-dependents [] id d = refl
repeats-dependents (n ∷ nodes) id d =
    ground (arith, repeats-dependents nodes id d.1, contains-dependents nodes id n.node_id d.1)

-- A placed node waits for nothing.
pub Serial-outstanding :
    (nodes : List WorkflowNode) {order : List ℕ} (i : ℕ)
    → Serial nodes order
    → contains i order ≡ true
    → all_in order (dependencies_of nodes i) ≡ true
Serial-outstanding nodes i start c = ground arith
Serial-outstanding nodes i (place placed id n f r s) c = elim (Bool-cases (id == i)) [
  | inl y ↦ ground (
    arith,
    (==_iff id i).0 y,
    find-dependencies_of nodes id f,
    all_in-append placed id (dependencies_of nodes i),
  )
  | inr e ↦ ground (
    arith,
    contains-append i placed id,
    Serial-outstanding nodes i s,
    all_in-append placed id (dependencies_of nodes i),
  )
]
