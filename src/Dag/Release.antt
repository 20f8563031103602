-- ===== src/Dag/Release.antt =====
-- runtime_service/dag.py, `_build_topological_order`: the loop over the dependents of one node.
use agent_runtime_platform.Base.{
  ℕ, ◌-◌, Bool, true, false, ◌&&◌, ◌||◌, some, List, [], ◌∷◌, ◌≡◌, refl, ◌∙◌, inl, inr, ◌==◌, leb,
  if◌then◌else◌, is_null, arith, Bool-cases, ==_iff, Option-cases,
}
use agent_runtime_platform.Base.Table
use agent_runtime_platform.Base.Table.{number_key}
use agent_runtime_platform.Dag.{WorkflowNode, contains, repeats, find_node}
use agent_runtime_platform.Dag.Schedule.{Schedule, release, release_all, position}
use agent_runtime_platform.Dag.Entries.{
  node_key, Distinct, entries, index, index-find, entries_ext, push-entries,
}

-- The dict of the positions agrees with the declaration.
pub record IsIndexed (nodes : List WorkflowNode) (positions : List (ℕ × ℕ)) : Type 0 where
  pub places : (id p : ℕ) → index 0 nodes id ≡ some p → position positions id ≡ p

-- The nodes that are ready after the dependents in a list are released.
abbrev pub frees : (WorkflowNode → Bool) → (ℕ → ℕ) → List ℕ → WorkflowNode → Bool
frees test remaining released n =
    test n || (contains n.node_id released && leb (remaining n.node_id) 1)

module _ (nodes : List WorkflowNode) (positions : List (ℕ × ℕ)) (distinct : Distinct nodes)
    (indexed : IsIndexed nodes positions) where
  indexed_at :
      (id : ℕ) → is_null (find_node id nodes) ≡ false → (p : ℕ) × (index 0 nodes id ≡ some p)
  indexed_at id known = elim (Option-cases (index 0 nodes id)) [
    | inl e ↦ absurd (ground (arith, index-find 0 nodes id))
    | inr found ↦ found
  ]

  release-ready :
      (test : WorkflowNode → Bool) (id : ℕ) (s : Schedule)
      → is_null (find_node id nodes) ≡ false
      → ((n : WorkflowNode) → find_node id nodes ≡ some n → test n ≡ false)
      → s.ready ≡ entries test 0 nodes
      → (release positions id s).ready
        ≡ entries (frees test s.remaining_dependencies (id ∷ [])) 0 nodes
  unfolding release
  release-ready test id s known t h =
      let (p, at) = indexed_at id known in
      elim (Bool-cases (leb (s.remaining_dependencies id) 1)) [
        | inl y ↦ ground (
          arith,
          indexed.places id p at,
          push-entries test p id 0 nodes distinct at t,
          entries_ext (λ n. test n || n.node_id == id)
              (frees test s.remaining_dependencies (id ∷ [])) 0 nodes distinct
              (λ k n f. ground (arith, ==_iff n.node_id id, ==_iff id n.node_id)),
        )
        | inr e ↦ ground (
          arith,
          entries_ext test (frees test s.remaining_dependencies (id ∷ [])) 0 nodes distinct
              (λ k n f. ground (arith, ==_iff n.node_id id, ==_iff id n.node_id)),
        )
      ]

  pub release_all-remaining :
      (ids : List ℕ) (s : Schedule) (i : ℕ)
      → repeats ids ≡ false
      → (release_all positions ids s).remaining_dependencies i
        ≡ (if contains i ids then s.remaining_dependencies i - 1 else s.remaining_dependencies i)
  unfolding release_all release
  release_all-remaining [] s i r = refl
  release_all-remaining (id ∷ ids) s i r =
      ground (arith, release_all-remaining ids (release positions id s) i, ==_iff id i)

  pub release_all-ordered :
      (ids : List ℕ) (s : Schedule) → (release_all positions ids s).ordered ≡ s.ordered
  unfolding release_all release
  release_all-ordered [] s = refl
  release_all-ordered (id ∷ ids) s = release_all-ordered ids (release positions id s)

  pub release_all-ready :
      (test : WorkflowNode → Bool) (ids : List ℕ) (s : Schedule)
      → repeats ids ≡ false
      → ((id : ℕ) → contains id ids ≡ true → is_null (find_node id nodes) ≡ false)
      → ((id : ℕ) (n : WorkflowNode)
          → contains id ids ≡ true
          → find_node id nodes ≡ some n
          → test n ≡ false)
      → s.ready ≡ entries test 0 nodes
      → (release_all positions ids s).ready
        ≡ entries (frees test s.remaining_dependencies ids) 0 nodes
  unfolding release_all release
  release_all-ready test [] s r known t h =
      h
      ∙ entries_ext test (frees test s.remaining_dependencies []) 0 nodes distinct
          (λ k n f. ground arith)
  release_all-ready test (id ∷ ids) s r known t h =
      release_all-ready (frees test s.remaining_dependencies (id ∷ [])) ids (release positions id s)
        (ground arith) (λ i c. known i (ground arith))
        (λ i n c f. ground (
          arith,
          t i n (ground arith) f,
          Table.find-key node_key i nodes f,
          ==_iff id n.node_id,
          ==_iff id i,
        ))
        (release-ready test id s (known id (ground (arith, ==_iff id id)))
          (λ n f. t id n (ground (arith, ==_iff id id)) f) h)
      ∙ entries_ext
          (frees (frees test s.remaining_dependencies (id ∷ []))
            (release positions id s).remaining_dependencies ids)
          (frees test s.remaining_dependencies (id ∷ ids)) 0 nodes distinct
          (λ k n f. ground (arith, ==_iff id n.node_id))
