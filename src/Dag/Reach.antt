-- ===== src/Dag/Reach.antt =====
-- runtime_service/dag.py: `dependencies_for`, `_require_known` and `descendants`. `pending` is kept
-- with its last item first. A dependent that is found is put before those found before it.
use agent_runtime_platform.Base.{
  ℕ, zero, suc, Bool, Option, none, some, List, [], ◌∷◌, length, if◌then◌else◌,
}
use agent_runtime_platform.Dag.{
  WorkflowNode, Checked, rejected, accepted, unknown_node_ids, contains, missing, dependencies_of,
  dependents, WorkflowDag,
}

pub record Search : Type 0 where
  pub discovered : List ℕ
  pub pending : List ℕ

-- set(node_ids)
unfoldable pub to_set : List ℕ → List ℕ
to_set [] = []
to_set (id ∷ ids) = let rest = to_set ids in if contains id rest then rest else id ∷ rest

-- The loop over the dependents of one node.
unfoldable pub discover : List ℕ → Search → Search
discover [] s = s
discover (dependent ∷ rest) s = discover rest (
    if contains dependent s.discovered
    then s
    else record { discovered = dependent ∷ s.discovered; pending = dependent ∷ s.pending })

-- while pending, for at most `fuel` rounds; `none` when they are not enough.
unfoldable pub search_from : List WorkflowNode → ℕ → Search → Option (List ℕ)
search_from nodes zero s = elim s.pending [ [] ↦ some s.discovered | id ∷ rest ↦ none ]
search_from nodes (suc fuel) s = elim s.pending [
  | [] ↦ some s.discovered
  | id ∷ rest ↦
      search_from nodes fuel (discover (dependents nodes id) (record s { pending = rest }))
]

-- discovered -= roots
unfoldable pub without : List ℕ → List ℕ → List ℕ
without roots [] = []
without roots (id ∷ ids) =
    let rest = without roots ids in if contains id roots then rest else id ∷ rest

abbrev pub without_roots : Bool → List ℕ → Option (List ℕ) → Option (List ℕ)
without_roots include_roots roots none = none
without_roots include_roots roots (some found) =
    some (if include_roots then found else without roots found)

-- `_require_known`, before `rest`
abbrev pub require_known {ℓ} : {A : Type ℓ} → List ℕ → A → Checked A
require_known [] rest = accepted rest
require_known (id ∷ ids) rest = rejected (unknown_node_ids (id ∷ ids))

-- `dependencies_for`
unfoldable pub dependencies_for : WorkflowDag → ℕ → Checked (List ℕ)
dependencies_for dag id =
    require_known (missing dag.positions (id ∷ [])) (dependencies_of dag.nodes id)

-- `descendants`
unfoldable pub descendants : WorkflowDag → List ℕ → Bool → Checked (Option (List ℕ))
descendants dag ids include_roots =
    let roots = to_set ids in
    require_known (missing dag.positions roots) (
      without_roots include_roots roots
        (search_from dag.nodes (length dag.nodes) (record { discovered = roots; pending = roots })))
