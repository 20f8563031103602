-- ===== src/Base/Table.antt =====
-- A table as the list of its rows, with a primary key.
use mathlib.Core.Path.{◌≡◌, refl, sym, subst}
use mathlib.Core.Logic.{◌↔◌, ◌⊎◌, inl, inr, ◌≢◌}
use mathlib.Core.Bool.{Bool, true, false, ◌&&◌}
use mathlib.Core.Option.{Option, none, some}
use mathlib.Core.List.{List, [], ◌∷◌}
use native.Mathlib.Omega.{arith}
use Prim.Native.Nat.{ℕ}
use agent_runtime_platform.Base.Tests.{◌==◌, if◌then◌else◌, is_null, ==_iff, Bool-cases}
use agent_runtime_platform.Base.Lists.{any}

-- Equality of keys.
pub record Key {ℓ} (K : Type ℓ) : Type ℓ where
  pub same : K → K → Bool
  pub same_iff : (a b : K) → (same a b ≡ true) ↔ (a ≡ b)

instance abbrev pub number_key : Key ℕ
number_key = record { same = ◌==◌; same_iff = ==_iff }

abbrev pub same_pair : ℕ × ℕ → ℕ × ℕ → Bool
same_pair a b = a.0 == b.0 && a.1 == b.1

pub same_pair_iff : (a b : ℕ × ℕ) → (same_pair a b ≡ true) ↔ (a ≡ b)
same_pair_iff a b = ground arith

instance abbrev pub pair_key : Key (ℕ × ℕ)
pair_key = record { same = same_pair; same_iff = same_pair_iff }

module _ {ℓ κ} {A : Type ℓ} {K : Type κ} ⦃e : Key K⦄ (key : A → K) where
  -- SELECT ... WHERE key = k
  unfoldable pub find : K → List A → Option A
  find k [] = none
  find k (r ∷ rs) = if e.same (key r) k then some r else find k rs

  -- The row at key k, replaced.
  unfoldable pub set : K → A → List A → List A
  set k v [] = []
  set k v (r ∷ rs) = if e.same (key r) k then v ∷ rs else r ∷ set k v rs

  -- No two rows have one key.
  abbrev pub Distinct : List A → Type ℓ
  Distinct [] = Unit
  Distinct (r ∷ rs) = (find (key r) rs ≡ none) × Distinct rs

  pub find-key : (k : K) (rs : List A) {r : A} → find k rs ≡ some r → key r ≡ k
  unfolding find
  find-key k [] h = ground arith
  find-key k (x ∷ rs) {r} h = ground (arith, find-key k rs {r = r}, e.same_iff (key x) k)

  pub find-own : (k : K) (rs : List A) {r : A} → find k rs ≡ some r → find (key r) rs ≡ some r
  find-own k rs {r} f = subst (λ j. find j rs ≡ some r) (sym (find-key k rs f)) f

  pub find-set :
      (i j : K) (v : A) (rs : List A)
      → key v ≡ i
      → find j (set i v rs)
        ≡ (if e.same i j then (if is_null (find i rs) then none else some v) else find j rs)
  unfolding find set
  find-set i j v [] h = ground arith
  find-set i j v (x ∷ rs) h = ground (
    arith,
    find-set i j v rs h,
    e.same_iff (key x) i,
    e.same_iff (key x) j,
    e.same_iff (key v) j,
    e.same_iff i j,
  )

  pub find-set_self :
      (i : K) (v : A) (rs : List A) {r : A}
      → key v ≡ i
      → find i rs ≡ some r
      → find i (set i v rs) ≡ some v
  find-set_self i v rs h f = ground (arith, find-set i i v rs h, e.same_iff i i)

  pub find-set_ne :
      (i j : K) (v : A) (rs : List A)
      → key v ≡ i
      → e.same i j ≡ false
      → find j (set i v rs) ≡ find j rs
  find-set_ne i j v rs h n = ground (arith, find-set i j v rs h)

  -- A row of the changed table is the new row or an old one under another key.
  pub find-set_cases :
      (i j : K) (v : A) (rs : List A) {s : A}
      → key v ≡ i
      → find j (set i v rs) ≡ some s
      → ((j ≡ i) × (s ≡ v)) ⊎ ((j ≢ i) × (find j rs ≡ some s))
  find-set_cases i j v rs h f = elim (Bool-cases (e.same i j)) [
    | inl y ↦ inl (sym ((e.same_iff i j).0 y), ground (arith, find-set i j v rs h))
    | inr n ↦ inr ((λ p. cc (n, (e.same_iff i j).1 (sym p))), ground (arith, find-set i j v rs h))
  ]

  pub Distinct-set : (i : K) (v : A) (rs : List A) → key v ≡ i → Distinct rs → Distinct (set i v rs)
  unfolding set
  Distinct-set i v [] h d = d
  Distinct-set i v (x ∷ rs) h d = ground (
    arith,
    Distinct-set i v rs h d.1,
    find-set i (key x) v rs h,
    e.same_iff (key x) i,
    e.same_iff i (key x),
  )

  pub any-find :
      (p : A → Bool) (k : K) (rs : List A) {r : A}
      → any p rs ≡ false
      → find k rs ≡ some r
      → p r ≡ false
  unfolding find any
  any-find p k [] h f = ground arith
  any-find p k (x ∷ rs) {r} h f = ground (arith, any-find p k rs {r = r})

  -- A new row hides no row.
  pub find-cons :
      (x : A) (k : K) (rs : List A) {r : A}
      → find (key x) rs ≡ none
      → find k rs ≡ some r
      → find k (x ∷ rs) ≡ some r
  unfolding find
  find-cons x k rs {r} fresh f = elim (Bool-cases (e.same (key x) k)) [
    | inl y ↦ absurd (cc ((e.same_iff (key x) k).0 y))
    | inr n ↦ ground arith
  ]

  pub find-head : (x : A) (rs : List A) → find (key x) (x ∷ rs) ≡ some x
  unfolding find
  find-head x rs = ground (arith, e.same_iff (key x) (key x))

  pub find-cons_cases :
      (k : K) (x : A) (rs : List A) {s : A}
      → find k (x ∷ rs) ≡ some s
      → ((k ≡ key x) × (s ≡ x)) ⊎ ((k ≢ key x) × (find k rs ≡ some s))
  unfolding find
  find-cons_cases k x rs f = elim (Bool-cases (e.same (key x) k)) [
    | inl y ↦ inl (sym ((e.same_iff (key x) k).0 y), ground arith)
    | inr n ↦ inr ((λ p. cc (n, (e.same_iff (key x) k).1 (sym p))), ground arith)
  ]

  -- A test that fails on every row that a key shows fails on all rows.
  pub any-none :
      (p : A → Bool) (rs : List A)
      → Distinct rs
      → ((k : K) (r : A) → find k rs ≡ some r → p r ≡ false)
      → any p rs ≡ false
  unfolding any
  any-none p [] d h = refl
  any-none p (x ∷ rs) d h = ground (
    arith,
    h (key x) x (find-head x rs),
    any-none p rs d.1 (λ k r f. h k r (find-cons x k rs d.0 f)),
  )
