-- ===== src/Store/Table.antt =====
-- A table with a key: rows in the order of insertion, found and updated by their key. The key is a
-- primary key or a unique column, so that at most one row has it.
use mathlib.Core.Path.{subst, sym}
use sufirmart.Base.{
  true, inl, inr, Bool-cases, ◌≡◌, refl, Bool, Option, none, some, List, [], ◌∷◌, ◌++◌, Str, str_eq,
  str_eq_iff, if◌then◌else◌, arith,
}
use mathlib.Core.Option

module _ {ℓ} {R : Type ℓ} where
  unfoldable pub find : (R → Str) → Str → List R → Option R
  find key k [] = none
  find key k (r ∷ rs) = if str_eq (key r) k then some r else find key k rs

  -- UPDATE … WHERE key = k
  unfoldable pub update : (R → Str) → Str → (R → R) → List R → List R
  update key k f [] = []
  update key k f (r ∷ rs) = if str_eq (key r) k then f r ∷ rs else r ∷ update key k f rs

  -- SELECT … WHERE p, and UPDATE … WHERE p
  unfoldable pub select : (R → Bool) → List R → List R
  select p [] = []
  select p (r ∷ rs) = let rest = select p rs in if p r then r ∷ rest else rest

  unfoldable pub update_where : (R → Bool) → (R → R) → List R → List R
  update_where p f [] = []
  update_where p f (r ∷ rs) = (if p r then f r else r) ∷ update_where p f rs

  -- No key stands twice.
  abbrev pub Distinct : (R → Str) → List R → Type ℓ
  Distinct key [] = Unit
  Distinct key (r ∷ rs) = (find key (key r) rs ≡ none) × Distinct key rs

  pub find-update :
      (key : R → Str) (k j : Str) (f : R → R) (rs : List R)
      → ((r : R) → key (f r) ≡ key r)
      → find key j (update key k f rs)
        ≡ (if str_eq k j then Option.map f (find key k rs) else find key j rs)
  unfolding find update
  find-update key k j f [] h = ground arith
  find-update key k j f (r ∷ rs) h = ground (
    arith,
    find-update key k j f rs h,
    h r,
    str_eq_iff (key r) k,
    str_eq_iff (key r) j,
    str_eq_iff k j,
  )

  -- A row that is missing is missing after an update of others.
  pub find-update_where :
      (key : R → Str) (p : R → Bool) (f : R → R) (j : Str) (rs : List R)
      → find key j rs ≡ none
      → ((r : R) → key (f r) ≡ key r)
      → find key j (update_where p f rs) ≡ none
  unfolding find update_where
  find-update_where key p f j [] e h = refl
  find-update_where key p f j (r ∷ rs) e h = elim (Bool-cases (str_eq (key r) j)) [
    | inl hit ↦ absurd (some-none (rw hit at e))
    | inr miss ↦
        let rest = find-update_where key p f j rs (rw miss at e) h in
        elim (Bool-cases (p r)) [
          | inl chosen ↦ rw (chosen, h r, miss) rest
          | inr kept ↦ rw (kept, miss) rest
        ]
  ]
    where
      some-none : some r ≡ none → ⊥
      some-none e = cc

  pub find-snoc :
      (key : R → Str) (j : Str) (rs : List R) (r : R)
      → find key j (rs ++ r ∷ []) ≡ elim (find key j rs) [
        | some s ↦ some s
        | none ↦ if str_eq (key r) j then some r else none
      ]
  unfolding find
  find-snoc key j [] r = refl
  find-snoc key j (s ∷ rs) r = ground (arith, find-snoc key j rs r)

  -- A row that is found has the key.
  pub key-find :
      (key : R → Str) (k : Str) (rs : List R) (r : R) → find key k rs ≡ some r → key r ≡ k
  unfolding find
  key-find key k [] r h = cc
  key-find key k (s ∷ rs) r h = ground (arith, key-find key k rs r, str_eq_iff (key s) k)

  pub Distinct-update :
      (key : R → Str) (k : Str) (f : R → R) (rs : List R)
      → ((r : R) → key (f r) ≡ key r)
      → Distinct key rs
      → Distinct key (update key k f rs)
  unfolding update
  Distinct-update key k f [] h d = tt
  Distinct-update key k f (r ∷ rs) h d = ground (
    arith,
    Distinct-update key k f rs h d.1,
    find-update key k (key r) f rs h,
    h r,
    str_eq_iff (key r) k,
    str_eq_iff k (key r),
  )

  pub Distinct-snoc :
      (key : R → Str) (rs : List R) (r : R)
      → Distinct key rs
      → find key (key r) rs ≡ none
      → Distinct key (rs ++ r ∷ [])
  unfolding find
  Distinct-snoc key [] r d h = (refl, tt)
  Distinct-snoc key (s ∷ rs) r d h = ground (
    arith,
    Distinct-snoc key rs r d.1,
    find-snoc key (key s) rs r,
    str_eq_iff (key s) (key r),
    str_eq_iff (key r) (key s),
  )

-- A predicate on every row.
abbrev pub All {ℓ κ} : {R : Type ℓ} → (R → Type κ) → List R → Type κ
All P [] = Unit
All P (r ∷ rs) = P r × All P rs

module _ {ℓ κ} {R : Type ℓ} (P : R → Type κ) where
  pub All-find :
      (key : R → Str) (k : Str) (rs : List R) (r : R) → All P rs → find key k rs ≡ some r → P r
  unfolding find
  All-find key k [] r h e = cc
  All-find key k (s ∷ rs) r h e = elim (Bool-cases (str_eq (key s) k)) [
    | inl hit ↦ subst P (ground arith) h.0
    | inr miss ↦ All-find key k rs r h.1 (ground arith)
  ]

  pub All-snoc : (rs : List R) (r : R) → All P rs → P r → All P (rs ++ r ∷ [])
  All-snoc [] r h p = (p, tt)
  All-snoc (s ∷ rs) r h p = (h.0, All-snoc rs r h.1 p)

  pub All-update :
      (key : R → Str) (k : Str) (f : R → R) (rs : List R) (t : R)
      → find key k rs ≡ some t
      → (P t → P (f t))
      → All P rs
      → All P (update key k f rs)
  unfolding find update
  All-update key k f [] t e keep h = tt
  All-update key k f (r ∷ rs) t e keep h = elim (Bool-cases (str_eq (key r) k)) [
    | inl hit ↦
        let same : t ≡ r = ground arith in
        rw (hit, update) (subst (λ x. P (f x)) same (keep (subst P (sym same) h.0)), h.1)
    | inr miss ↦ rw (miss, update) (h.0, All-update key k f rs t (ground arith) keep h.1)
  ]

  pub All-update_where :
      (p : R → Bool) (f : R → R) (rs : List R)
      → ((r : R) → p r ≡ true → P r → P (f r))
      → All P rs
      → All P (update_where p f rs)
  unfolding update_where
  All-update_where p f [] keep h = tt
  All-update_where p f (r ∷ rs) keep h = elim (Bool-cases (p r)) [
    | inl hit ↦ rw (hit, update_where) (keep r hit h.0, All-update_where p f rs keep h.1)
    | inr miss ↦ rw (miss, update_where) (h.0, All-update_where p f rs keep h.1)
  ]

-- The rows that a condition selects meet it.
pub All-select {ℓ} : {R : Type ℓ} (p : R → Bool) (rs : List R) → All (λ r. p r ≡ true) (select p rs)
unfolding select
All-select p [] = tt
All-select p (r ∷ rs) = elim (Bool-cases (p r)) [
  | inl here ↦ rw (here, select) (here, All-select p rs)
  | inr gone ↦ rw (gone, select) (All-select p rs)
]
