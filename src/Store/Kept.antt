-- ===== src/Store/Kept.antt =====
-- The rows that a query's WHERE lets through, by what it asks of them.
use sufirmart.Base.{inl, inr, Bool-cases, ◌≡◌, refl, Bool, true, false, ◌↔◌, ◌&&◌, List, [], ◌∷◌}
use sufirmart.Store.Table.{select}

pub and_iff : (a b : Bool) → (a && b ≡ true) ↔ ((a ≡ true) × (b ≡ true))
and_iff true true = (λ e. (refl, refl), λ e. refl)
and_iff true false = (λ e. cc, λ e. cc)
and_iff false b = (λ e. cc, λ e. cc)

-- `Kept P rs kept`: `kept` is those of `rs` that satisfy `P`, in their order.
pub data Kept {R : Type 0} (P : R → Type 0) : List R → List R → Type 0 where
  at_end : Kept P [] []
  keeps : (r : R) (rs kept : List R) → P r → Kept P rs kept → Kept P (r ∷ rs) (r ∷ kept)
  drops : (r : R) (rs kept : List R) → (P r → ⊥) → Kept P rs kept → Kept P (r ∷ rs) kept

pub select-Kept :
    {R : Type 0} (P : R → Type 0) (p : R → Bool)
    → ((r : R) → (p r ≡ true) ↔ P r)
    → (rs : List R) → Kept P rs (select p rs)
unfolding select
select-Kept P p test [] = at_end
select-Kept P p test (r ∷ rs) = elim (Bool-cases (p r)) [
  | inl chosen ↦ rw chosen (keeps r rs (select p rs) ((test r).0 chosen) (select-Kept P p test rs))
  | inr left ↦
      rw left
        (drops r rs (select p rs) (λ h. let chosen = (test r).1 h in cc) (select-Kept P p test rs))
]
