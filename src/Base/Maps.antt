-- ===== src/Base/Maps.antt =====
-- Go maps with string keys, as lists of keys with their values.
use mathlib.Core.Path.{◌≡◌, refl, sym, ◌∙◌}
use mathlib.Core.Logic.{inl, inr}
use mathlib.Core.Bool.{Bool, true, false}
use mathlib.Core.Option.{Option, none, some}
use mathlib.Core.List.{List, [], ◌∷◌}
use native.Mathlib.Omega.{arith}
use sufirmart.Base.Tests.{if◌then◌else◌, Bool-cases}
use sufirmart.Base.Text.{Str, str_eq, str_eq_iff}

str_eq-apart :
    (k key other : Str) → str_eq k key ≡ false → str_eq k other ≡ true → str_eq key other ≡ false
str_eq-apart k key other apart same = elim (Bool-cases (str_eq key other)) [
  | inl e ↦
      let one =
        (str_eq_iff k key).1 ((str_eq_iff k other).0 same ∙ sym ((str_eq_iff key other).0 e)) in
      cc
  | inr e ↦ e
]

module _ {ℓ} {A : Type ℓ} where
  -- v, ok := m[key]
  unfoldable pub lookup : Str → List (Str × A) → Option A
  lookup key [] = none
  lookup key ((k, v) ∷ m) = if str_eq k key then some v else lookup key m

  -- delete(m, key)
  unfoldable pub delete : Str → List (Str × A) → List (Str × A)
  delete key [] = []
  delete key ((k, v) ∷ m) = let rest = delete key m in if str_eq k key then rest else (k, v) ∷ rest

  -- m[key] = v
  unfoldable pub insert : Str → A → List (Str × A) → List (Str × A)
  unfolding delete
  insert key v m = (key, v) ∷ delete key m

  pub lookup-delete :
      (key other : Str) (m : List (Str × A))
      → lookup other (delete key m) ≡ (if str_eq key other then none else lookup other m)
  unfolding lookup delete
  lookup-delete key other [] = elim (Bool-cases (str_eq key other)) [
    | inl same ↦ rw same refl
    | inr apart ↦ rw apart refl
  ]
  lookup-delete key other ((k, v) ∷ m) = elim (Bool-cases (str_eq k key)) [
    | inl same ↦
        let one : k ≡ key = (str_eq_iff k key).0 same in
        rw (same, delete) (rw one (lookup-delete key other m ∙ both (str_eq key other)))
    | inr apart ↦
        rw (apart, delete, lookup)
          (ground (arith, lookup-delete key other m, str_eq-apart k key other apart))
  ]
    where
      both :
          (b : Bool)
          → (if b then none else lookup other m)
            ≡ (if b then none else (if b then some v else lookup other m))
      both true = refl
      both false = refl

  pub lookup-insert :
      (key other : Str) (v : A) (m : List (Str × A))
      → lookup other (insert key v m) ≡ (if str_eq key other then some v else lookup other m)
  unfolding insert lookup
  lookup-insert key other v m = elim (Bool-cases (str_eq key other)) [
    | inl same ↦ rw (same, lookup) refl
    | inr apart ↦ rw (apart, lookup) (lookup-delete key other m ∙ rw apart refl)
  ]
