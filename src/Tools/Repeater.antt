-- ===== src/Tools/Repeater.antt =====
-- internal/tools/repeater/repeater.go.
pub mod Bounds
pub mod Keeps
pub mod Ends
pub mod Turns
use mathlib.Core.Option
use sufirmart.Base.{
  ℕ, zero, suc, ◌+◌, ◌-◌, ◌≡◌, Bool, true, false, not, ◌&&◌, ◌||◌, Option, none, some, List, [],
  ◌∷◌, Result, ok, err, Error, context_done, Exec, ℤ, pos, ltb_ℤ, ltb, leb, ◌==◌, if◌then◌else◌,
}

-- The interface Strategy, over the strategy's own state.
pub record Strategy (T : Type 0) : Type 0 where
  pub attempts : T → ℕ
  pub retriable : Error → T → Bool × T
  pub delay : ℕ → T → ℤ

-- What Repeat ends with: its result, the states of the strategy and of the action, and the errors
-- that the onError handlers were called with.
pub record Outcome (T S A : Type 0) : Type 0 where
  pub result : Result A
  pub strategy : T
  pub state : S
  pub errors : List Error

-- The onError handlers are called with `e` before the rest of the rounds.
abbrev pub report : {T S A : Type 0} → Error → Outcome T S A → Outcome T S A
report e o = record o { errors = e ∷ o.errors }

-- infinity || attempt <= attempts
abbrev pub goes_on : ℕ → ℕ → Bool
goes_on attempts attempt = (attempts == 0) || leb attempt attempts

module _ {T S A : Type 0} (strategy : Strategy T) (done : ℕ → Bool) (action : Exec S A) where
  -- What a failed round decides: `some` is the error that Repeat returns at once. `done attempt` says
  -- whether the context is done while the round waits.
  unfoldable pub stops : ℕ → Error → T → Bool → Option Error
  stops attempt e t again =
      if not again
      then some e
      else if ltb_ℤ (pos 0) (strategy.delay attempt t) && done attempt
      then some context_done
      else none

  -- The loop from the given attempt, with the limit read before the loop and fuel for the rounds.
  -- The first round always runs, since no attempts means no limit; so the loop's test stands behind
  -- the round.
  unfoldable pub repeat_from : ℕ → ℕ → ℕ → T → S → Option (Outcome T S A)
  unfolding stops
  repeat_from attempts zero attempt t s = none
  repeat_from attempts (suc fuel) attempt t s =
      let (r, s') = action s in
      elim r [
        | ok a ↦ some (record { result = ok a; strategy = t; state = s'; errors = [] })
        | err e ↦
            let (again, t') = strategy.retriable e t in
            elim (stops attempt e t' again) [
              | some e' ↦
                  some (record { result = err e'; strategy = t'; state = s'; errors = e ∷ [] })
              | none ↦ elim (goes_on attempts (attempt + 1)) [
                | false ↦
                    some (record { result = err e; strategy = t'; state = s'; errors = e ∷ [] })
                | true ↦ Option.map (report e) (repeat_from attempts fuel (attempt + 1) t' s')
              ]
            ]
      ]

  -- Repeat
  unfoldable pub repeat : ℕ → T → S → Option (Outcome T S A)
  unfolding repeat_from
  repeat fuel t s = repeat_from (strategy.attempts t) fuel 1 t s

-- fixedDelaysStrategy: it has no state that changes.
abbrev pub delay_at : List ℤ → ℕ → ℤ
delay_at [] i = pos 0
delay_at (d ∷ ds) zero = pos 0
delay_at (d ∷ ds) (suc zero) = d
delay_at (d ∷ ds) (suc (suc i)) = delay_at ds (suc i)

abbrev count : List ℤ → ℕ
count [] = 0
count (d ∷ ds) = suc (count ds)

unfoldable pub fixed_delays : (Error → Bool) → List ℤ → Strategy (Unit {0})
fixed_delays is_retriable delays = record {
  attempts = λ _. count delays;
  retriable = λ e t. (is_retriable e, t);
  delay = λ iter _. delay_at delays iter;
}
