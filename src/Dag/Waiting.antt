-- ===== src/Dag/Waiting.antt =====
-- runtime_service/dag.py, `_build_topological_order`: the nodes that are not placed yet, by number.
use agent_runtime_platform.Base.{
  ℕ, suc, ◌+◌, false, ◌||◌, none, some, List, [], ◌∷◌, ◌≡◌, refl, ap, inl, inr, ◌==◌, length,
  if◌then◌else◌, arith, Bool-cases, ==_iff,
}
use agent_runtime_platform.Base.Table
use agent_runtime_platform.Base.Table.{number_key}
use agent_runtime_platform.Dag.{WorkflowNode, contains, find_node}
use agent_runtime_platform.Dag.Schedule.{append}
use agent_runtime_platform.Dag.Entries.{node_key, Distinct}
use agent_runtime_platform.Dag.Greedy.{contains-append, Serial, start, place}

-- How many of the nodes are not in a list.
unfoldable pub waiting : List ℕ → List WorkflowNode → ℕ
waiting placed [] = 0
waiting placed (n ∷ ns) =
    let rest = waiting placed ns in if contains n.node_id placed then rest else suc rest

-- The second list has the members of the first one and one more.
abbrev pub Adds : ℕ → List ℕ → List ℕ → Type 0
Adds id placed more = (i : ℕ) → contains i more ≡ (contains i placed || id == i)

waiting_same :
    (placed more : List ℕ) (id : ℕ) (ns : List WorkflowNode)
    → Adds id placed more
    → find_node id ns ≡ none
    → waiting more ns ≡ waiting placed ns
unfolding waiting Table.find
waiting_same placed more id [] a f = refl
waiting_same placed more id (n ∷ ns) a f =
    ground (
      arith,
      waiting_same placed more id ns a,
      a n.node_id,
      ==_iff id n.node_id,
      ==_iff n.node_id id,
    )

pub waiting_less :
    (placed more : List ℕ) (id : ℕ) (ns : List WorkflowNode) {m : WorkflowNode}
    → Adds id placed more
    → Distinct ns
    → contains id placed ≡ false
    → find_node id ns ≡ some m
    → suc (waiting more ns) ≡ waiting placed ns
unfolding waiting Table.find
waiting_less placed more id [] a d c f = ground arith
waiting_less placed more id (n ∷ ns) {m} a d c f = elim (Bool-cases (n.node_id == id)) [
  | inl y ↦ ground (arith, (==_iff n.node_id id).0 y, waiting_same placed more id ns a, a n.node_id)
  | inr e ↦ ground (
    arith,
    waiting_less placed more id ns {m = m} a d.1 c,
    a n.node_id,
    ==_iff id n.node_id,
    ==_iff n.node_id id,
  )
]

pub waiting-append :
    (placed : List ℕ) (id : ℕ) (ns : List WorkflowNode) {m : WorkflowNode}
    → Distinct ns
    → contains id placed ≡ false
    → find_node id ns ≡ some m
    → suc (waiting (append placed id) ns) ≡ waiting placed ns
waiting-append placed id ns =
    waiting_less placed (append placed id) id ns (λ i. contains-append i placed id)

pub waiting-nil : (ns : List WorkflowNode) → waiting [] ns ≡ length ns
unfolding waiting
waiting-nil [] = refl
waiting-nil (n ∷ ns) = ap suc (waiting-nil ns)

length-append : (xs : List ℕ) (x : ℕ) → length (append xs x) ≡ suc (length xs)
unfolding append
length-append [] x = refl
length-append (y ∷ ys) x = ap suc (length-append ys x)

-- An order has each node once, and those that wait are the others.
pub Serial-length :
    (nodes : List WorkflowNode) {order : List ℕ}
    → Distinct nodes
    → Serial nodes order
    → length order + waiting order nodes ≡ length nodes
Serial-length nodes d start = ground (arith, waiting-nil nodes)
Serial-length nodes d (place placed id n f r s) = ground (
  arith,
  Serial-length nodes d s,
  length-append placed id,
  waiting-append placed id nodes {m = n} d,
  Table.find-key node_key id nodes f,
)
