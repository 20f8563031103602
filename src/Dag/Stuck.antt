-- ===== src/Dag/Stuck.antt =====
-- runtime_service/dag.py: the nodes of a cycle and the nodes that no order places.
use agent_runtime_platform.Base.{
  ℕ, Bool, true, false, not, ◌&&◌, none, some, List, [], ◌∷◌, ◌≡◌, refl, inl, inr, ◌==◌, ltb,
  is_null, arith, Bool-cases, ==_iff, any,
}
use agent_runtime_platform.Base.Table
use agent_runtime_platform.Base.Table.{number_key}
use agent_runtime_platform.Dag.{WorkflowNode, contains, find_node}
use agent_runtime_platform.Dag.Schedule.{blocked_nodes}
use agent_runtime_platform.Dag.Entries.{node_key, Distinct}
use agent_runtime_platform.Dag.Greedy.{
  is_ready, all_in, next_node, outstanding, contains-append, Serial, start, place,
}
use agent_runtime_platform.Dag.Waiting.{waiting}

-- One of the ids is in the other list.
unfoldable pub meets : List ℕ → List ℕ → Bool
meets others ids = any (λ id. contains id others) ids

-- Nodes each of which depends on another one of them.
pub record IsStuck (nodes : List WorkflowNode) (ids : List ℕ) : Type 0 where
  pub one : (id : ℕ) × (contains id ids ≡ true)
  pub each :
      (id : ℕ)
      → contains id ids ≡ true
      → (n : WorkflowNode) × (find_node id nodes ≡ some n) × (meets ids n.dependencies ≡ true)

-- Two lists with no common member, of which one has the dependencies.
disjoint-meets :
    (placed ids dependencies : List ℕ)
    → ((id : ℕ) → contains id placed ≡ true → contains id ids ≡ false)
    → all_in placed dependencies ≡ true
    → meets ids dependencies ≡ false
unfolding meets any
disjoint-meets placed ids [] h a = refl
disjoint-meets placed ids (x ∷ xs) h a = ground (arith, h x, disjoint-meets placed ids xs h)

-- No order places a node of a cycle.
pub Serial-IsStuck :
    (nodes : List WorkflowNode) (ids : List ℕ) {order : List ℕ} (id : ℕ)
    → IsStuck nodes ids
    → Serial nodes order
    → contains id order ≡ true
    → contains id ids ≡ false
Serial-IsStuck nodes ids id stuck start c = ground arith
Serial-IsStuck nodes ids id stuck (place placed x n f r s) c = elim (Bool-cases (x == id)) [
  | inr e ↦ Serial-IsStuck nodes ids id stuck s (ground (arith, contains-append id placed x))
  | inl y ↦ elim (Bool-cases (contains id ids)) [
    | inr b ↦ b
    | inl b ↦
        let (m, g, meet) = stuck.each id b in
        absurd (
          ground (
            arith,
            (==_iff x id).0 y,
            disjoint-meets placed ids n.dependencies (λ i. Serial-IsStuck nodes ids i stuck s),
          ))
  ]
]

pub next_node-is_ready :
    (placed : List ℕ) (ns : List WorkflowNode) (id : ℕ) {n : WorkflowNode}
    → next_node placed ns ≡ none
    → find_node id ns ≡ some n
    → is_ready placed n ≡ false
unfolding next_node Table.find
next_node-is_ready placed [] id h f = ground arith
next_node-is_ready placed (m ∷ ns) id {n} h f =
    ground (arith, next_node-is_ready placed ns id {n = n})

pub contains-blocked_nodes :
    (remaining : ℕ → ℕ) (ns : List WorkflowNode) (id : ℕ)
    → contains id (blocked_nodes remaining ns)
      ≡ (not (is_null (find_node id ns)) && ltb 0 (remaining id))
unfolding blocked_nodes Table.find
contains-blocked_nodes remaining [] id = refl
contains-blocked_nodes remaining (n ∷ ns) id = elim (Bool-cases (n.node_id == id)) [
  | inl y ↦ ground (arith, contains-blocked_nodes remaining ns id, (==_iff n.node_id id).0 y)
  | inr e ↦ ground (arith, contains-blocked_nodes remaining ns id)
]

-- A dependency that is not placed.
pub outstanding_one :
    (placed ids : List ℕ)
    → ltb 0 (outstanding placed ids) ≡ true
    → (id : ℕ) × (contains id ids ≡ true) × (contains id placed ≡ false)
unfolding outstanding
outstanding_one placed [] h = ground arith
outstanding_one placed (x ∷ ids) h = elim (Bool-cases (contains x placed)) [
  | inl y ↦ let (id, c, out) = outstanding_one placed ids (ground arith) in (id, ground arith, out)
  | inr e ↦ (x, ground (arith, ==_iff x x), e)
]

pub waiting_one :
    (placed : List ℕ) (ns : List WorkflowNode)
    → Distinct ns
    → ltb 0 (waiting placed ns) ≡ true
    → (n : WorkflowNode) × (find_node n.node_id ns ≡ some n) × (contains n.node_id placed ≡ false)
unfolding waiting
waiting_one placed [] d h = ground arith
waiting_one placed (x ∷ ns) d h = elim (Bool-cases (contains x.node_id placed)) [
  | inl y ↦
      let (n, f, out) = waiting_one placed ns d.1 (ground arith) in
      (n, Table.find-cons node_key x n.node_id ns d.0 f, out)
  | inr e ↦ (x, Table.find-head node_key x ns, e)
]

pub contains-meets :
    (ids dependencies : List ℕ) (id : ℕ)
    → contains id dependencies ≡ true
    → contains id ids ≡ true
    → meets ids dependencies ≡ true
unfolding meets any
contains-meets ids [] id c d = ground arith
contains-meets ids (x ∷ xs) id c d = ground (arith, contains-meets ids xs id, ==_iff x id)
