-- ===== src/RunStore/Claim/Order.antt =====
-- `ORDER BY created_at, run_id LIMIT 1`: the row that it picks.
use agent_runtime_platform.Base.{
  ℕ, Bool, true, false, Option, none, some, List, [], ◌∷◌, ◌≡◌, sym, subst, ap, ◌∙◌, inl, inr,
  arith, Bool-cases,
}
use agent_runtime_platform.Base.Table
use agent_runtime_platform.Base.Table.{number_key}
use agent_runtime_platform.Models.{RunRecord}
use agent_runtime_platform.RunStore.{run_key, find_run}
use agent_runtime_platform.RunStore.Claim.{first_row, is_before, earlier}

-- Either no row passes the test, or the picked row passes it, is found under its key, and no row
-- that passes stands before it.
abbrev pub Picks : (RunRecord → Bool) → List RunRecord → Option RunRecord → Type 0
Picks p rows none = (k : ℕ) (s : RunRecord) → find_run k rows ≡ some s → p s ≡ false
Picks p rows (some r) =
    (p r ≡ true)
    × (find_run r.run_id rows ≡ some r)
    × ((k : ℕ) (s : RunRecord) → find_run k rows ≡ some s → p s ≡ true → is_before s r ≡ false)

before_irrefl : (r : RunRecord) → is_before r r ≡ false
unfolding is_before
before_irrefl r = ground arith

before_asym : (r s : RunRecord) → is_before r s ≡ true → is_before s r ≡ false
unfolding is_before
before_asym r s h = ground arith

-- If t is not before s and s is not before r, t is not before r.
before_cotrans :
    (r s t : RunRecord) → is_before t s ≡ false → is_before s r ≡ false → is_before t r ≡ false
unfolding is_before
before_cotrans r s t h k = ground arith

skips :
    (p : RunRecord → Bool) (x : RunRecord) (rows : List RunRecord) (o : Option RunRecord)
    → p x ≡ false
    → find_run x.run_id rows ≡ none
    → Picks p rows o
    → Picks p (x ∷ rows) o
skips p x rows none h fresh c = λ k s f. elim (Table.find-cons_cases run_key k x rows f) [
  | inl (_, e) ↦ ap p e ∙ h
  | inr (_, old) ↦ c k s old
]
skips p x rows (some r) h fresh (c, d, first) = (
  c,
  Table.find-cons run_key x r.run_id rows fresh d,
  λ k s f t. elim (Table.find-cons_cases run_key k x rows f) [
    | inl (_, e) ↦ absurd (cc (ap p e))
    | inr (_, old) ↦ first k s old t
  ],
)

takes :
    (p : RunRecord → Bool) (x : RunRecord) (rows : List RunRecord) (o : Option RunRecord)
    → p x ≡ true
    → find_run x.run_id rows ≡ none
    → Picks p rows o
    → Picks p (x ∷ rows) (earlier x o)
unfolding earlier
takes p x rows none h fresh c = (
  h,
  Table.find-head run_key x rows,
  λ k s f t. elim (Table.find-cons_cases run_key k x rows f) [
    | inl (_, e) ↦ subst (λ u. is_before u x ≡ false) (sym e) (before_irrefl x)
    | inr (_, old) ↦ absurd (cc (c k s old))
  ],
)
takes p x rows (some r) h fresh (c, d, first) = elim (Bool-cases (is_before r x)) [
  | inl y ↦ rw y (
    c,
    Table.find-cons run_key x r.run_id rows fresh d,
    λ k s f t. elim (Table.find-cons_cases run_key k x rows f) [
      | inl (_, e) ↦ subst (λ u. is_before u r ≡ false) (sym e) (before_asym r x y)
      | inr (_, old) ↦ first k s old t
    ],
  )
  | inr n ↦ rw n (
    h,
    Table.find-head run_key x rows,
    λ k s f t. elim (Table.find-cons_cases run_key k x rows f) [
      | inl (_, e) ↦ subst (λ u. is_before u x ≡ false) (sym e) (before_irrefl x)
      | inr (_, old) ↦ before_cotrans x r s (first k s old t) n
    ],
  )
]

-- The query picks the first row in the order that passes the test, and none only if none passes.
pub first_row-Picks :
    (p : RunRecord → Bool) (rows : List RunRecord)
    → Table.Distinct run_key rows
    → Picks p rows (first_row p rows)
unfolding first_row Table.find
first_row-Picks p [] d = λ k s f. absurd (cc)
first_row-Picks p (x ∷ rows) d = elim (Bool-cases (p x)) [
  | inl y ↦ rw y (takes p x rows (first_row p rows) y d.0 (first_row-Picks p rows d.1))
  | inr n ↦ rw n (skips p x rows (first_row p rows) n d.0 (first_row-Picks p rows d.1))
]
