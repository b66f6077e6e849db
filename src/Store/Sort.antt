-- ===== src/Store/Sort.antt =====
-- ORDER BY a timestamp. Rows with equal timestamps keep their order, which SQL leaves open.
use sufirmart.Base.{
  map, ℕ, ◌≤◌, inl, inr, Bool, Bool-cases, List, [], ◌∷◌, ltb, if◌then◌else◌, arith,
}
use sufirmart.Store.Table.{All}
use mathlib.Core.List.{Perm}
use mathlib.Core.List.Perm

module _ {ℓ} {R : Type ℓ} (before : R → R → Bool) where
  insert : R → List R → List R
  insert r [] = r ∷ []
  insert r (s ∷ rs) = if before s r then s ∷ insert r rs else r ∷ s ∷ rs

  unfoldable pub sort : List R → List R
  unfolding insert
  sort [] = []
  sort (r ∷ rs) = insert r (sort rs)

  insert-perm : (r : R) (rs : List R) → Perm (insert r rs) (r ∷ rs)
  unfolding insert
  insert-perm r [] = Perm.refl _
  insert-perm r (s ∷ rs) = elim (Bool-cases (before s r)) [
    | inl later ↦
        rw (later, insert) (Perm.trans (Perm.cons s (insert-perm r rs)) (Perm.swap r s rs))
    | inr first ↦ rw (first, insert) (Perm.refl _)
  ]

  pub sort-perm : (rs : List R) → Perm (sort rs) rs
  unfolding sort
  sort-perm [] = Perm.refl _
  sort-perm (r ∷ rs) = Perm.trans (insert-perm r (sort rs)) (Perm.cons r (sort-perm rs))

-- Newest first.
abbrev pub newest {ℓ} : {R : Type ℓ} → (R → ℕ) → List R → List R
newest key = sort λ s r. ltb (key r) (key s)

-- Oldest first.
abbrev pub oldest {ℓ} : {R : Type ℓ} → (R → ℕ) → List R → List R
oldest key = sort λ s r. ltb (key s) (key r)

-- Keys that do not rise along a list whose first key is at most the bound.
abbrev pub FallsFrom : ℕ → List ℕ → Type 0
FallsFrom n [] = Unit {0}
FallsFrom n (k ∷ ks) = (k ≤ n) × FallsFrom k ks

abbrev pub Falls : List ℕ → Type 0
Falls [] = Unit {0}
Falls (k ∷ ks) = FallsFrom k ks

module _ {ℓ} {R : Type ℓ} (key : R → ℕ) where
  insert-FallsFrom :
      (n : ℕ) (r : R) (rs : List R)
      → key r ≤ n
      → FallsFrom n (map key rs)
      → FallsFrom n (map key (insert (λ s t. ltb (key t) (key s)) r rs))
  unfolding insert
  insert-FallsFrom n r [] h f = (h, tt)
  insert-FallsFrom n r (s ∷ rs) h f = elim (Bool-cases (ltb (key r) (key s))) [
    | inl later ↦ rw (later, insert) (f.0, insert-FallsFrom (key s) r rs (ground arith) f.1)
    | inr first ↦ rw (first, insert) (h, (ground arith, f.1))
  ]

  insert-Falls :
      (r : R) (rs : List R)
      → Falls (map key rs)
      → Falls (map key (insert (λ s t. ltb (key t) (key s)) r rs))
  unfolding insert
  insert-Falls r [] f = tt
  insert-Falls r (s ∷ rs) f = elim (Bool-cases (ltb (key r) (key s))) [
    | inl later ↦ rw (later, insert) (insert-FallsFrom (key s) r rs (ground arith) f)
    | inr first ↦ rw (first, insert) (ground arith, f)
  ]

  pub newest-Falls : (rs : List R) → Falls (map key (newest key rs))
  unfolding sort
  newest-Falls [] = tt
  newest-Falls (r ∷ rs) = insert-Falls r (newest key rs) (newest-Falls rs)

module _ {ℓ κ} {R : Type ℓ} (before : R → R → Bool) (P : R → Type κ) where
  All-insert : (r : R) (rs : List R) → P r → All P rs → All P (insert before r rs)
  unfolding insert
  All-insert r [] p h = (p, tt)
  All-insert r (s ∷ rs) p h = elim (Bool-cases (before s r)) [
    | inl later ↦ rw (later, insert) (h.0, All-insert r rs p h.1)
    | inr first ↦ rw (first, insert) (p, h)
  ]

  pub All-sort : (rs : List R) → All P rs → All P (sort before rs)
  unfolding sort
  All-sort [] h = tt
  All-sort (r ∷ rs) h = All-insert r (sort before rs) h.0 (All-sort rs h.1)

-- Keys that do not fall along a list whose first key is at least the bound.
abbrev pub RisesFrom : ℕ → List ℕ → Type 0
RisesFrom n [] = Unit {0}
RisesFrom n (k ∷ ks) = (n ≤ k) × RisesFrom k ks

abbrev pub Rises : List ℕ → Type 0
Rises [] = Unit {0}
Rises (k ∷ ks) = RisesFrom k ks

module _ {ℓ} {R : Type ℓ} (key : R → ℕ) where
  insert-RisesFrom :
      (n : ℕ) (r : R) (rs : List R)
      → n ≤ key r
      → RisesFrom n (map key rs)
      → RisesFrom n (map key (insert (λ s t. ltb (key s) (key t)) r rs))
  unfolding insert
  insert-RisesFrom n r [] h f = (h, tt)
  insert-RisesFrom n r (s ∷ rs) h f = elim (Bool-cases (ltb (key s) (key r))) [
    | inl later ↦ rw (later, insert) (f.0, insert-RisesFrom (key s) r rs (ground arith) f.1)
    | inr first ↦ rw (first, insert) (h, (ground arith, f.1))
  ]

  insert-Rises :
      (r : R) (rs : List R)
      → Rises (map key rs)
      → Rises (map key (insert (λ s t. ltb (key s) (key t)) r rs))
  unfolding insert
  insert-Rises r [] f = tt
  insert-Rises r (s ∷ rs) f = elim (Bool-cases (ltb (key s) (key r))) [
    | inl later ↦ rw (later, insert) (insert-RisesFrom (key s) r rs (ground arith) f)
    | inr first ↦ rw (first, insert) (ground arith, f)
  ]

  pub oldest-Rises : (rs : List R) → Rises (map key (oldest key rs))
  unfolding sort
  oldest-Rises [] = tt
  oldest-Rises (r ∷ rs) = insert-Rises r (oldest key rs) (oldest-Rises rs)
