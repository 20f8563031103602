-- ===== src/RunStore/Invariant/Revisions.antt =====
-- A checkpoint's revision only advances.
use agent_runtime_platform.Base.{
  ℕ, suc, ◌≤◌, Option, none, some, List, ◌≡◌, refl, sym, subst, ap, ◌∙◌, inl, inr, arith,
  Bool-cases, if◌then◌else◌, some-inj,
}
use agent_runtime_platform.Base.Table
use agent_runtime_platform.Base.Table.{pair_key, same_pair, same_pair_iff}
use agent_runtime_platform.RunStore.{Checkpoint, checkpoint_key, find_checkpoint}
use agent_runtime_platform.RunStore.Moves.{Advance}

-- The table after the revision of one thread has advanced.
pub find-Advance :
    (rows : List Checkpoint) (c : Checkpoint) (rows' : List Checkpoint) (k : ℕ × ℕ)
    → Advance rows c rows'
    → find_checkpoint k rows'
      ≡ (if same_pair (checkpoint_key c) k then some c else find_checkpoint k rows)
unfolding Table.find
find-Advance rows c rows' k a = elim a.found [
  | inl (_, _, e) ↦ ap (find_checkpoint k) e
  | inr (old, f, _, e) ↦
      ap (find_checkpoint k) e
      ∙ Table.find-set checkpoint_key (checkpoint_key c) k c rows refl
      ∙ ground arith
]

-- A thread's revision is 0 or that of its row.
abbrev pub revision_of : Option Checkpoint → ℕ
revision_of none = 0
revision_of (some c) = c.revision

pub revision_of-Advance_self :
    (rows : List Checkpoint) (c : Checkpoint) (rows' : List Checkpoint)
    → Advance rows c rows'
    → c.revision ≡ suc (revision_of (find_checkpoint (checkpoint_key c) rows))
revision_of-Advance_self rows c rows' a = ground (arith, a.found)

pub revision_of-Advance :
    (rows : List Checkpoint) (c : Checkpoint) (rows' : List Checkpoint) (k : ℕ × ℕ)
    → Advance rows c rows'
    → revision_of (find_checkpoint k rows) ≤ revision_of (find_checkpoint k rows')
revision_of-Advance rows c rows' k a = elim (Bool-cases (same_pair (checkpoint_key c) k)) [
  | inl y ↦
      subst (λ j. revision_of (find_checkpoint j rows) ≤ revision_of (find_checkpoint k rows'))
        ((same_pair_iff (checkpoint_key c) k).0 y)
        (omega (
          arith,
          revision_of-Advance_self rows c rows' a,
          ap revision_of (
              find-Advance rows c rows' k a
              ∙ ap (λ b. if b then some c else find_checkpoint k rows) y),
        ))
  | inr n ↦ omega (
    arith,
    ap revision_of
        (find-Advance rows c rows' k a ∙ ap (λ b. if b then some c else find_checkpoint k rows) n),
  )
]

pub Distinct-Advance :
    (rows : List Checkpoint) (c : Checkpoint) (rows' : List Checkpoint)
    → Advance rows c rows'
    → Table.Distinct checkpoint_key rows
    → Table.Distinct checkpoint_key rows'
Distinct-Advance rows c rows' a d = elim a.found [
  | inl (fresh, _, e) ↦ subst (Table.Distinct checkpoint_key) (sym e) (fresh, d)
  | inr (old, f, _, e) ↦
      subst (Table.Distinct checkpoint_key) (sym e)
        (Table.Distinct-set checkpoint_key (checkpoint_key c) c rows refl d)
]

pub positive-Advance :
    (rows : List Checkpoint) (c : Checkpoint) (rows' : List Checkpoint)
    → Advance rows c rows'
    → ((k : ℕ × ℕ) (d : Checkpoint) → find_checkpoint k rows ≡ some d → 1 ≤ d.revision)
    → (k : ℕ × ℕ) (d : Checkpoint) → find_checkpoint k rows' ≡ some d
    → 1 ≤ d.revision
positive-Advance rows c rows' a h k d f = elim (Bool-cases (same_pair (checkpoint_key c) k)) [
  | inl y ↦
      let e : some c ≡ some d =
        sym (ap (λ b. if b then some c else find_checkpoint k rows) y)
        ∙ sym (find-Advance rows c rows' k a)
        ∙ f in
      subst (λ (x : Checkpoint). 1 ≤ x.revision) (some-inj e)
        (omega (arith, revision_of-Advance_self rows c rows' a))
  | inr n ↦ h k d (
      sym (ap (λ b. if b then some c else find_checkpoint k rows) n)
      ∙ sym (find-Advance rows c rows' k a)
      ∙ f)
]
