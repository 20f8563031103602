-- ===== src/Dag/Entries.antt =====
-- runtime_service/dag.py, `_build_topological_order`: a heap holds the nodes that pass a test, in
-- the order of their declaration; what a push, a pop and the loop over the dependents do to it.
use agent_runtime_platform.Base.{
  ℕ, suc, ◌≤◌, Bool, true, false, not, ◌&&◌, ◌||◌, Option, none, some, List, [], ◌∷◌, ◌≡◌, refl,
  inl, inr, ◌==◌, if◌then◌else◌, is_null, arith, Bool-cases, ==_iff,
}
use agent_runtime_platform.Base.Table
use agent_runtime_platform.Base.Table.{number_key}
use agent_runtime_platform.Dag.{WorkflowNode, find_node}
use agent_runtime_platform.Dag.Schedule.{heappush, heapify}

abbrev pub node_key : WorkflowNode → ℕ
node_key n = n.node_id

abbrev pub Distinct : List WorkflowNode → Type 0
Distinct = Table.Distinct node_key

-- The nodes that pass a test with their positions, counted from `first`.
unfoldable pub entries : (WorkflowNode → Bool) → ℕ → List WorkflowNode → List (ℕ × ℕ)
entries test first [] = []
entries test first (n ∷ ns) =
    let rest = entries test (suc first) ns in if test n then (first, n.node_id) ∷ rest else rest

-- The position of an id, counted from `first`.
unfoldable pub index : ℕ → List WorkflowNode → ℕ → Option ℕ
index first [] id = none
index first (n ∷ ns) id =
    let rest = index (suc first) ns id in if n.node_id == id then some first else rest

pub entries_ext :
    (test other : WorkflowNode → Bool) (first : ℕ) (ns : List WorkflowNode)
    → Distinct ns
    → ((id : ℕ) (n : WorkflowNode) → find_node id ns ≡ some n → test n ≡ other n)
    → entries test first ns ≡ entries other first ns
unfolding entries
entries_ext test other first [] d h = refl
entries_ext test other first (n ∷ ns) d h = ground (
  arith,
  h n.node_id n (Table.find-head node_key n ns),
  entries_ext test other (suc first) ns d.1
      (λ k r f. h k r (Table.find-cons node_key n k ns d.0 f)),
)

index_least :
    (first : ℕ) (ns : List WorkflowNode) (id : ℕ) {p : ℕ} → index first ns id ≡ some p → first ≤ p
unfolding index
index_least first [] id {p} h = ground arith
index_least first (n ∷ ns) id {p} h = ground (arith, index_least (suc first) ns id {p = p})

pub index-find :
    (first : ℕ) (ns : List WorkflowNode) (id : ℕ)
    → is_null (index first ns id) ≡ is_null (find_node id ns)
unfolding index Table.find
index-find first [] id = refl
index-find first (n ∷ ns) id = ground (arith, index-find (suc first) ns id)

push_before :
    (test : WorkflowNode → Bool) (p id first : ℕ) (ns : List WorkflowNode)
    → suc p ≤ first
    → heappush (p, id) (entries test first ns) ≡ (p, id) ∷ entries test first ns
unfolding entries heappush
push_before test p id first [] h = refl
push_before test p id first (n ∷ ns) h =
    ground (arith, push_before test p id (suc first) ns (omega (arith, h)))

absent :
    (id k : ℕ) (ns : List WorkflowNode) {n : WorkflowNode}
    → find_node id ns ≡ none
    → find_node k ns ≡ some n
    → (n.node_id == id) ≡ false
absent id k ns {n} a f = elim (Bool-cases (n.node_id == id)) [
  | inl y ↦ absurd (ground (arith, ==_iff n.node_id id, Table.find-own node_key k ns f))
  | inr e ↦ e
]

shown :
    (n : WorkflowNode) (id : ℕ) (ns : List WorkflowNode)
    → (n.node_id == id) ≡ true
    → find_node id (n ∷ ns) ≡ some n
unfolding Table.find
shown n id ns y = ground arith

hidden :
    (n : WorkflowNode) (id : ℕ) (ns : List WorkflowNode)
    → (n.node_id == id) ≡ true
    → find_node n.node_id ns ≡ none
    → find_node id ns ≡ none
hidden n id ns y f = ground (arith, ==_iff n.node_id id)

later :
    (n : WorkflowNode) (id : ℕ) (ns : List WorkflowNode) {m : WorkflowNode}
    → (n.node_id == id) ≡ false
    → find_node id ns ≡ some m
    → find_node id (n ∷ ns) ≡ some m
unfolding Table.find
later n id ns e f = ground arith

pub push-entries :
    (test : WorkflowNode → Bool) (p id first : ℕ) (ns : List WorkflowNode)
    → Distinct ns
    → index first ns id ≡ some p
    → ((n : WorkflowNode) → find_node id ns ≡ some n → test n ≡ false)
    → heappush (p, id) (entries test first ns) ≡ entries (λ n. test n || n.node_id == id) first ns
unfolding entries heappush index
push-entries test p id first [] d h t = ground arith
push-entries test p id first (n ∷ ns) d h t = elim (Bool-cases (n.node_id == id)) [
  | inl y ↦ ground (
    arith,
    t n (shown n id ns y),
    (==_iff n.node_id id).0 y,
    push_before test first id (suc first) ns (omega arith),
    entries_ext test (λ m. test m || m.node_id == id) (suc first) ns d.1
        (λ k m f. ground (arith, absent id k ns (hidden n id ns y d.0) f)),
  )
  | inr e ↦ ground (
    arith,
    index_least (suc first) ns id {p = p},
    push-entries test p id (suc first) ns d.1 (ground arith) (λ m f. t m (later n id ns e f)),
  )
]

-- What `heappop` leaves.
pub pop-entries :
    (test : WorkflowNode → Bool) (first : ℕ) (ns : List WorkflowNode) {least : ℕ × ℕ}
    {heap : List (ℕ × ℕ)}
    → Distinct ns
    → entries test first ns ≡ least ∷ heap
    → heap ≡ entries (λ n. test n && not (n.node_id == least.1)) first ns
unfolding entries
pop-entries test first [] d h = ground arith
pop-entries test first (n ∷ ns) {least} {heap} d h = elim (Bool-cases (test n)) [
  | inl y ↦ ground (
    arith,
    ==_iff n.node_id n.node_id,
    entries_ext test (λ m. test m && not (m.node_id == n.node_id)) (suc first) ns d.1
        (λ k m f. ground (arith, absent n.node_id k ns d.0 f)),
  )
  | inr e ↦ ground (arith, pop-entries test (suc first) ns {least = least} {heap = heap} d.1)
]

-- A heap is in order already.
pub heapify-entries :
    (test : WorkflowNode → Bool) (first : ℕ) (ns : List WorkflowNode)
    → heapify (entries test first ns) ≡ entries test first ns
unfolding entries heapify
heapify-entries test first [] = refl
heapify-entries test first (n ∷ ns) = ground (
  arith,
  heapify-entries test (suc first) ns,
  push_before test first n.node_id (suc first) ns (omega arith),
)

-- An item of a heap is a node that passes the test.
pub entries-find :
    (test : WorkflowNode → Bool) (first : ℕ) (ns : List WorkflowNode) {least : ℕ × ℕ}
    {heap : List (ℕ × ℕ)}
    → Distinct ns
    → entries test first ns ≡ least ∷ heap
    → (n : WorkflowNode) × (find_node least.1 ns ≡ some n) × (test n ≡ true)
unfolding entries
entries-find test first [] d h = ground arith
entries-find test first (n ∷ ns) {least} {heap} d h = elim (Bool-cases (test n)) [
  | inl y ↦ (n, ground (arith, shown n least.1 ns, ==_iff n.node_id least.1), y)
  | inr e ↦
      let (m, f, t) =
        entries-find test (suc first) ns {least = least} {heap = heap} d.1 (ground arith) in
      (m, Table.find-cons node_key n least.1 ns d.0 f, t)
]
