-- ===== src/Tools/Repeater/Turns.antt =====
-- One round of the loop in internal/tools/repeater/repeater.go, by itself.
use mathlib.Core.Option
use sufirmart.Base.{
  inl, inr, Bool-cases, Option-cases, Result-cases, ◌≡◌, refl, ℕ, suc, ◌+◌, Bool, true, false,
  Option, none, some, [], ◌∷◌, Result, ok, err, Error, Exec,
}
use sufirmart.Tools.Repeater.{Strategy, Outcome, report, goes_on, stops, repeat_from}

-- What a round comes to: Repeat goes on with the states of the strategy and of the action after an
-- error, or it returns.
pub data Turn (T S A : Type 0) : Type 0 where
  goes : Error → T → S → Turn T S A
  returns : Outcome T S A → Turn T S A

-- What holds of the action's state after a round.
abbrev pub KeptIn : {T S A : Type 0} → (S → Type 0) → Turn T S A → Type 0
KeptIn Keep (goes e t s) = Keep s
KeptIn Keep (returns o) = Keep o.state

module _ {T S A : Type 0} (strategy : Strategy T) (done : ℕ → Bool) (action : Exec S A) where
  -- What the loop does with the end of the action.
  unfoldable pub decide : ℕ → ℕ → T → Result A → S → Turn T S A
  decide attempts attempt t (ok a) s =
      returns (record { result = ok a; strategy = t; state = s; errors = [] })
  decide attempts attempt t (err e) s =
      let (again, t') = strategy.retriable e t in
      elim (stops strategy done action attempt e t' again) [
        | some e' ↦ returns (record { result = err e'; strategy = t'; state = s; errors = e ∷ [] })
        | none ↦ elim (goes_on attempts (attempt + 1)) [
          | false ↦ returns (record { result = err e; strategy = t'; state = s; errors = e ∷ [] })
          | true ↦ goes e t' s
        ]
      ]

  -- The round with the given attempt.
  unfoldable pub turn : ℕ → ℕ → T → S → Turn T S A
  unfolding decide
  turn attempts attempt t s = let (r, s') = action s in decide attempts attempt t r s'

  -- The rounds that follow.
  abbrev pub follow : ℕ → ℕ → ℕ → Turn T S A → Option (Outcome T S A)
  follow attempts fuel attempt (returns o) = some o
  follow attempts fuel attempt (goes e t s) =
      Option.map (report e) (repeat_from strategy done action attempts fuel (attempt + 1) t s)

  -- The loop is its rounds, one after the other.
  pub repeat_from-turn :
      (attempts fuel attempt : ℕ) (t : T) (s : S)
      → repeat_from strategy done action attempts (suc fuel) attempt t s
        ≡ follow attempts fuel attempt (turn attempts attempt t s)
  unfolding repeat_from turn
  repeat_from-turn attempts fuel attempt t s = elim (Result-cases (action s).0) [
    | inl (a, fine) ↦ rw (fine, repeat_from, decide) refl
    | inr (e, failed) ↦
        let again = (strategy.retriable e t).0 in
        let t' = (strategy.retriable e t).1 in
        elim (Option-cases (stops strategy done action attempt e t' again)) [
          | inr (e', stop) ↦ rw (failed, repeat_from, decide, stop) refl
          | inl wait ↦ elim (Bool-cases (goes_on attempts (attempt + 1))) [
            | inl more ↦ rw (failed, repeat_from, decide, wait, more) refl
            | inr last ↦ rw (failed, repeat_from, decide, wait, last) refl
          ]
        ]
  ]

  pub turn-Keep :
      (Keep : S → Type 0) (attempts attempt : ℕ) (t : T) (s : S)
      → Keep (action s).1
      → KeptIn Keep (turn attempts attempt t s)
  unfolding turn
  turn-Keep Keep attempts attempt t s h = elim (Result-cases (action s).0) [
    | inl (a, fine) ↦ rw (fine, decide) h
    | inr (e, failed) ↦
        let again = (strategy.retriable e t).0 in
        let t' = (strategy.retriable e t).1 in
        elim (Option-cases (stops strategy done action attempt e t' again)) [
          | inr (e', stop) ↦ rw (failed, decide, stop) h
          | inl wait ↦ elim (Bool-cases (goes_on attempts (attempt + 1))) [
            | inl more ↦ rw (failed, decide, wait, more) h
            | inr last ↦ rw (failed, decide, wait, last) h
          ]
        ]
  ]
