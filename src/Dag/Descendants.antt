-- ===== src/Dag/Descendants.antt =====
-- runtime_service/dag.py: `descendants` ends and finds the nodes that depend on a root, directly or
-- through others.
use agent_runtime_platform.Base.{
  ℕ, zero, suc, ◌+◌, ◌≤◌, Bool, true, false, not, ◌&&◌, ◌||◌, some, List, [], ◌∷◌, ◌≡◌, ◌↔◌, sym,
  subst, ◌∙◌, inl, inr, length, if◌then◌else◌, is_null, arith, Bool-cases, ==_iff,
}
use agent_runtime_platform.Base.Table.{number_key}
use agent_runtime_platform.Dag.{
  WorkflowNode, WorkflowDag, contains, repeats, find_node, dependencies_of, dependents, accepted,
  missing,
}
use agent_runtime_platform.Dag.Schedule.{workflow_dag}
use agent_runtime_platform.Dag.Reach.{Search, to_set, discover, search_from, without, descendants}
use agent_runtime_platform.Dag.Entries.{Distinct}
use agent_runtime_platform.Dag.Greedy.{contains-dependents, dependent_known}
use agent_runtime_platform.Dag.Closure.{
  Reaches, root, depends, contains-to_set, repeats-to_set, missing-to_set, contains-without,
  discover-discovered, discover-pending, work, found_less, discover-work,
}
use agent_runtime_platform.Dag.Waiting.{waiting, waiting-nil}
use agent_runtime_platform.Dag.Drain.{List-cases}
use agent_runtime_platform.Dag.Declared.{missing-position_of, declare-find}
use agent_runtime_platform.Dag.Final.{IsBuilt, workflow_dag-IsBuilt, IsBuilt-IsGraph}

record IsClosing (nodes : List WorkflowNode) (roots : List ℕ) (s : Search) : Type 0 where
  pub sound : (x : ℕ) → contains x s.discovered ≡ true → Reaches nodes roots x
  pub queued : (x : ℕ) → contains x s.pending ≡ true → contains x s.discovered ≡ true
  -- A node that is not to be visited again has its dependents found.
  pub closed :
      (x y : ℕ)
      → contains x s.discovered ≡ true
      → contains x s.pending ≡ false
      → contains x (dependencies_of nodes y) ≡ true
      → contains y s.discovered ≡ true
  pub rooted : (x : ℕ) → contains x roots ≡ true → contains x s.discovered ≡ true

abbrev visit : List WorkflowNode → ℕ → List ℕ → Search → Search
visit nodes id rest s = discover (dependents nodes id) (record s { pending = rest })

module _ (nodes : List WorkflowNode) (roots : List ℕ) (distinct : Distinct nodes) where
  visit-IsClosing :
      (s : Search) (id : ℕ) (rest : List ℕ)
      → s.pending ≡ id ∷ rest
      → IsClosing nodes roots s
      → IsClosing nodes roots (visit nodes id rest s)
  visit-IsClosing s id rest e c =
      let popped = record s { pending = rest } in
      let found = discover-discovered (dependents nodes id) popped in
      let queue = discover-pending (dependents nodes id) popped in
      record {
        sound = λ x h. elim (Bool-cases (contains x s.discovered)) [
          | inl y ↦ c.sound x y
          | inr n ↦
              depends id x (ground (arith, found x, contains-dependents nodes id x distinct))
                (c.sound id (c.queued id (ground (arith, e, ==_iff id id))))
        ];
        queued = λ x h. ground (arith, found x, queue x, c.queued x, e);
        closed = λ x y f p d. ground (
          arith,
          found x,
          found y,
          queue x,
          c.closed x y,
          e,
          ==_iff id x,
          contains-dependents nodes id y distinct,
        );
        rooted = λ x r. ground (arith, found x, c.rooted x r);
      }

  visit-work :
      (s : Search) (id : ℕ) (rest : List ℕ)
      → s.pending ≡ id ∷ rest
      → suc (work nodes (visit nodes id rest s)) ≡ work nodes s
  visit-work s id rest e = ground (
    arith,
    discover-work nodes (dependents nodes id) (record s { pending = rest }) distinct
        (λ i c.
          dependent_known nodes id i (ground (arith, contains-dependents nodes id i distinct))),
  )

  Reaches-contains :
      (s : Search) (x : ℕ)
      → IsClosing nodes roots s
      → s.pending ≡ []
      → Reaches nodes roots x
      → contains x s.discovered ≡ true
  Reaches-contains s x c e (root y r) = c.rooted x r
  Reaches-contains s x c e (depends id y d r) =
      c.closed id x (Reaches-contains s id c e r) (ground arith) d

  finds :
      (s : Search)
      → IsClosing nodes roots s
      → s.pending ≡ []
      → (x : ℕ) → (contains x s.discovered ≡ true) ↔ Reaches nodes roots x
  finds s c e x = (c.sound x, Reaches-contains s x c e)

  search_from_ends :
      (fuel : ℕ) (s : Search)
      → IsClosing nodes roots s
      → work nodes s ≤ fuel
      → (found : List ℕ) × (search_from nodes fuel s ≡ some found)
        × ((x : ℕ) → (contains x found ≡ true) ↔ Reaches nodes roots x)
  unfolding search_from
  search_from_ends zero s c h = elim (List-cases s.pending) [
    | inl e ↦ (s.discovered, ground arith, finds s c e)
    | inr (id, rest, e) ↦ absurd (ground (arith, visit-work s id rest e))
  ]
  search_from_ends (suc fuel) s c h = elim (List-cases s.pending) [
    | inl e ↦ (s.discovered, ground arith, finds s c e)
    | inr (id, rest, e) ↦
        let (found, ends, all) =
          search_from_ends fuel (visit nodes id rest s) (visit-IsClosing s id rest e c)
            (ground (arith, visit-work s id rest e)) in
        (found, ground arith, all)
  ]

roots_work :
    (nodes : List WorkflowNode) (ids : List ℕ)
    → Distinct nodes
    → repeats ids ≡ false
    → ((x : ℕ) → contains x ids ≡ true → is_null (find_node x nodes) ≡ false)
    → length ids + waiting ids nodes ≡ length nodes
roots_work nodes [] d r k = ground (arith, waiting-nil nodes)
roots_work nodes (id ∷ ids) d r k = ground (
  arith,
  roots_work nodes ids d (ground arith) (λ x c. k x (ground arith)),
  found_less nodes ids id d (ground arith) (k id (ground (arith, ==_iff id id))),
)

initial-IsClosing :
    (nodes : List WorkflowNode) (ids : List ℕ)
    → IsClosing nodes ids (record { discovered = to_set ids; pending = to_set ids })
initial-IsClosing nodes ids = record {
  sound = λ x h. root x (sym (contains-to_set ids x) ∙ h);
  queued = λ x h. h;
  closed = λ x y f p d. ground arith;
  rooted = λ x r. contains-to_set ids x ∙ r;
}

known_node :
    (nodes : List WorkflowNode) {dag : WorkflowDag} (ids : List ℕ) (id : ℕ)
    → IsBuilt nodes dag
    → missing dag.positions ids ≡ []
    → contains id ids ≡ true
    → is_null (find_node id nodes) ≡ false
known_node nodes {dag} ids id b m c =
    ground (arith, missing-position_of dag.positions ids id m c, declare-find nodes id b.declared)

descendants_run :
    (dag : WorkflowDag) (ids : List ℕ) (include_roots : Bool) {found : List ℕ}
    → missing dag.positions (to_set ids) ≡ []
    → search_from dag.nodes
        (length dag.nodes)
        (record { discovered = to_set ids; pending = to_set ids })
      ≡ some found
    → descendants dag ids include_roots
      ≡ accepted (some (if include_roots then found else without (to_set ids) found))
unfolding descendants
descendants_run dag ids include_roots m h = ground arith

contains_left :
    (ids : List ℕ) (include_roots : Bool) (found : List ℕ) (x : ℕ)
    → contains x (if include_roots then found else without (to_set ids) found)
      ≡ (contains x found && (include_roots || not (contains x ids)))
contains_left ids include_roots found x =
    ground (arith, contains-without (to_set ids) found x, contains-to_set ids x)

-- For roots that are nodes of an accepted graph, `descendants` visits at most as many nodes as the
-- graph has and returns a set. A node is in it exactly when it is a root or depends on a root,
-- directly or through other nodes, and, where the roots are left out, is no root.
pub descendants_reach :
    (nodes : List WorkflowNode) (dag : WorkflowDag) (ids : List ℕ) (include_roots : Bool)
    → workflow_dag nodes ≡ accepted dag
    → missing dag.positions ids ≡ []
    → (found : List ℕ) × (descendants dag ids include_roots ≡ accepted (some found))
      × ((x : ℕ)
          → (contains x found ≡ true)
            ↔ (Reaches nodes ids x × ((include_roots || not (contains x ids)) ≡ true)))
descendants_reach nodes dag ids include_roots h m =
    let b = workflow_dag-IsBuilt nodes h in
    let roots = to_set ids in
    let none_missing = missing-to_set dag.positions ids m in
    let d = (IsBuilt-IsGraph nodes b).distinct in
    let (found, ends, all) =
      search_from_ends nodes ids d (length nodes) (record { discovered = roots; pending = roots })
        (initial-IsClosing nodes ids)
        (ground (
          arith,
          roots_work nodes roots d (repeats-to_set ids)
              (λ x c. known_node nodes roots x b none_missing c),
        )) in
    let Runs = λ (ns : List WorkflowNode).
      search_from ns (length ns) (record { discovered = roots; pending = roots }) ≡ some found in
    (
      if include_roots then found else without roots found,
      descendants_run dag ids include_roots none_missing (subst Runs (sym b.keeps) ends),
      λ x. (
        λ c. (
          (all x).0 (ground (arith, contains_left ids include_roots found x)),
          ground (arith, contains_left ids include_roots found x),
        ),
        λ r. ground (arith, contains_left ids include_roots found x, (all x).1 r.0, r.1),
      ),
    )
