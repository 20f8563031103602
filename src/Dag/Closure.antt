-- ===== src/Dag/Closure.antt =====
-- runtime_service/dag.py, `descendants`: the nodes to be found, and the loop over the dependents of
-- one node.
use agent_runtime_platform.Base.{
  ℕ, suc, ◌+◌, true, false, not, ◌&&◌, ◌||◌, List, [], ◌∷◌, ◌≡◌, refl, inl, inr, length, is_null,
  arith, Bool-cases, ==_iff, Option-cases,
}
use agent_runtime_platform.Base.Table.{number_key}
use agent_runtime_platform.Dag.{
  WorkflowNode, contains, repeats, find_node, dependencies_of, missing,
}
use agent_runtime_platform.Dag.Reach.{Search, to_set, discover, without}
use agent_runtime_platform.Dag.Entries.{Distinct}
use agent_runtime_platform.Dag.Waiting.{waiting, waiting_less}

-- A root, or a node that depends on a node reached.
pub data Reaches (nodes : List WorkflowNode) (roots : List ℕ) : ℕ → Type 0 where
  root : (id : ℕ) → contains id roots ≡ true → Reaches nodes roots id
  depends :
      (id next : ℕ)
      → contains id (dependencies_of nodes next) ≡ true
      → Reaches nodes roots id
      → Reaches nodes roots next

pub contains-to_set : (ids : List ℕ) (x : ℕ) → contains x (to_set ids) ≡ contains x ids
unfolding to_set
contains-to_set [] x = refl
contains-to_set (id ∷ ids) x =
    ground (arith, contains-to_set ids x, contains-to_set ids id, (==_iff id x))

pub repeats-to_set : (ids : List ℕ) → repeats (to_set ids) ≡ false
unfolding to_set
repeats-to_set [] = refl
repeats-to_set (id ∷ ids) = ground (arith, repeats-to_set ids)

pub missing-to_set :
    (positions : List (ℕ × ℕ)) (ids : List ℕ)
    → missing positions ids ≡ []
    → missing positions (to_set ids) ≡ []
unfolding to_set
missing-to_set positions [] h = refl
missing-to_set positions (id ∷ ids) h = ground (arith, missing-to_set positions ids)

pub contains-without :
    (roots ids : List ℕ) (x : ℕ)
    → contains x (without roots ids) ≡ (contains x ids && not (contains x roots))
unfolding without
contains-without roots [] x = refl
contains-without roots (id ∷ ids) x = ground (arith, contains-without roots ids x, ==_iff id x)

pub discover-discovered :
    (ids : List ℕ) (s : Search) (x : ℕ)
    → contains x (discover ids s).discovered ≡ (contains x s.discovered || contains x ids)
unfolding discover
discover-discovered [] s x = ground arith
discover-discovered (id ∷ ids) s x = elim (Bool-cases (contains id s.discovered)) [
  | inl y ↦ ground (arith, discover-discovered ids s x, ==_iff id x)
  | inr e ↦ ground (
    arith,
    discover-discovered ids (record { discovered = id ∷ s.discovered; pending = id ∷ s.pending }) x,
  )
]

pub discover-pending :
    (ids : List ℕ) (s : Search) (x : ℕ)
    → contains x (discover ids s).pending
      ≡ (contains x s.pending || (contains x ids && not (contains x s.discovered)))
unfolding discover
discover-pending [] s x = ground arith
discover-pending (id ∷ ids) s x = elim (Bool-cases (contains id s.discovered)) [
  | inl y ↦ ground (arith, discover-pending ids s x, ==_iff id x)
  | inr e ↦ ground (
    arith,
    ==_iff id x,
    discover-pending ids (record { discovered = id ∷ s.discovered; pending = id ∷ s.pending }) x,
  )
]

-- The nodes that are still to be visited, and those that are not found.
abbrev pub work : List WorkflowNode → Search → ℕ
work nodes s = length s.pending + waiting s.discovered nodes

pub found_less :
    (nodes : List WorkflowNode) (ids : List ℕ) (id : ℕ)
    → Distinct nodes
    → contains id ids ≡ false
    → is_null (find_node id nodes) ≡ false
    → suc (waiting (id ∷ ids) nodes) ≡ waiting ids nodes
found_less nodes ids id d c k = elim (Option-cases (find_node id nodes)) [
  | inl e ↦ absurd (ground arith)
  | inr (n, f) ↦ waiting_less ids (id ∷ ids) id nodes (λ i. ground arith) d c f
]

pub discover-work :
    (nodes : List WorkflowNode) (ids : List ℕ) (s : Search)
    → Distinct nodes
    → ((id : ℕ) → contains id ids ≡ true → is_null (find_node id nodes) ≡ false)
    → work nodes (discover ids s) ≡ work nodes s
unfolding discover
discover-work nodes [] s d k = refl
discover-work nodes (id ∷ ids) s d k = elim (Bool-cases (contains id s.discovered)) [
  | inl y ↦ ground (arith, discover-work nodes ids s d (λ i c. k i (ground arith)))
  | inr e ↦ ground (
    arith,
    found_less nodes s.discovered id d e (k id (ground (arith, ==_iff id id))),
    discover-work nodes ids (record { discovered = id ∷ s.discovered; pending = id ∷ s.pending }) d
        (λ i c. k i (ground arith)),
  )
]
