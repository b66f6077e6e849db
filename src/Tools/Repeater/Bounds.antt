-- ===== src/Tools/Repeater/Bounds.antt =====
-- How many rounds Repeat of internal/tools/repeater/repeater.go makes, and that it ends.
use mathlib.Core.Option
use sufirmart.Base.{
  ap, ◌∙◌, inl, inr, ◌⊎◌, ℕ, zero, suc, ◌+◌, ◌≤◌, ◌<◌, ◌≡◌, refl, Bool, true, Bool-cases,
  Option-cases, Result-cases, Option, none, some, List, [], ◌∷◌, Result, ok, err, Error, Exec,
  arith, context_done,
}
use sufirmart.Tools.Repeater.{Strategy, Outcome, report, goes_on, stops, repeat_from, repeat}

abbrev pub count_errors : List Error → ℕ
count_errors [] = 0
count_errors (e ∷ es) = suc (count_errors es)

-- The last error that was reported.
abbrev pub last_error : List Error → Option Error
last_error [] = none
last_error (e ∷ []) = some e
last_error (e ∷ d ∷ es) = last_error (d ∷ es)

-- The result of the last action, or the context's error.
abbrev pub Explained : {A : Type 0} → Result A → List Error → Type 0
Explained (ok a) es = Unit {0}
Explained (err e) es = (e ≡ context_done) ⊎ (last_error es ≡ some e)

abbrev pub outcome : {T S A : Type 0} → Result A → T → S → List Error → Outcome T S A
outcome r t s es = record { result = r; strategy = t; state = s; errors = es }

Explained-report :
    {A : Type 0} (r : Result A) (e : Error) (es : List Error)
    → Explained r es
    → Explained r (e ∷ es)
Explained-report (ok a) e es h = tt
Explained-report (err d) e [] (inl h) = inl h
Explained-report (err d) e [] (inr h) = cc
Explained-report (err d) e (f ∷ es) h = h

module _ {T S A : Type 0} (strategy : Strategy T) (done : ℕ → Bool) (action : Exec S A) where
  -- A round ends the loop, with the error that it reports as its result if it has one, or it reports
  -- an error and leaves the rest to the rounds that follow.
  abbrev Round : (attempts fuel attempt : ℕ) → T → S → Type 0
  Round attempts fuel attempt t s =
      ((o : Outcome T S A) × (repeat_from strategy done action attempts (suc fuel) attempt t s
          ≡ some o)
        × (count_errors o.errors ≤ 1)
        × Explained o.result o.errors)
      ⊎ ((e : Error) × (t' : T) × (s' : S) × (goes_on attempts (attempt + 1) ≡ true)
          × (repeat_from strategy done action attempts (suc fuel) attempt t s
              ≡ Option.map (report e)
                  (repeat_from strategy done action attempts fuel (attempt + 1) t' s')))

  stops-cases :
      (attempt : ℕ) (e : Error) (t : T) (again : Bool) (e' : Error)
      → stops strategy done action attempt e t again ≡ some e'
      → (e' ≡ context_done) ⊎ (some e ≡ some e')
  unfolding stops
  stops-cases attempt e t again e' h = ground arith

  round : (attempts fuel attempt : ℕ) (t : T) (s : S) → Round attempts fuel attempt t s
  unfolding repeat_from
  round attempts fuel attempt t s = elim (Result-cases (action s).0) [
    | inl (a, fine) ↦
        inl (outcome (ok a) t (action s).1 [], rw (fine, repeat_from) refl, omega arith, tt)
    | inr (e, failed) ↦
        let again = (strategy.retriable e t).0 in
        let t' = (strategy.retriable e t).1 in
        elim (Option-cases (stops strategy done action attempt e t' again)) [
          | inr (e', stop) ↦ inl (
            outcome (err e') t' (action s).1 (e ∷ []),
            rw (failed, repeat_from, stop) refl,
            omega arith,
            stops-cases attempt e t' again e' stop,
          )
          | inl wait ↦ elim (Bool-cases (goes_on attempts (attempt + 1))) [
            | inl more ↦ inr (e, t', (action s).1, more, rw (failed, repeat_from, wait, more) refl)
            | inr last ↦ inl (
              outcome (err e) t' (action s).1 (e ∷ []),
              rw (failed, repeat_from, wait, last) refl,
              omega arith,
              inr refl,
            )
          ]
        ]
  ]

  limited_ends :
      (n fuel attempt : ℕ) (t : T) (s : S)
      → attempt ≤ suc n
      → suc n < attempt + fuel
      → (o : Outcome T S A) × (repeat_from strategy done action (suc n) fuel attempt t s ≡ some o)
        × (count_errors o.errors + attempt ≤ suc (suc n))
        × Explained o.result o.errors
  limited_ends n zero attempt t s h k = absurd (omega arith)
  limited_ends n (suc fuel) attempt t s h k = elim (round (suc n) fuel attempt t s) [
    | inl (o, e, few, why) ↦ (o, e, omega arith, why)
    | inr (e, t', s', more, eq) ↦
        let (o, found, few, why) =
          limited_ends n fuel (attempt + 1) t' s' (ground arith) (omega arith) in
        (report e o, rw (eq, found) refl, omega arith, Explained-report o.result e o.errors why)
  ]

  -- With a limit of one attempt or more, Repeat ends, given fuel for as many rounds. It reports at
  -- most as many errors as there are attempts, so it calls the action no more often; and an error
  -- that it returns is the last one reported, or the context's.
  pub repeat_limited :
      (n fuel : ℕ) (t : T) (s : S)
      → strategy.attempts t ≡ suc n
      → suc n ≤ fuel
      → (o : Outcome T S A) × (repeat strategy done action fuel t s ≡ some o)
        × (count_errors o.errors ≤ suc n)
        × Explained o.result o.errors
  unfolding repeat
  repeat_limited n fuel t s lim k =
      let one : 1 ≤ suc n = omega arith in
      let room : suc n < 1 + fuel = omega arith in
      let (o, e, few, why) = limited_ends n fuel 1 t s one room in
      (o, ap (λ m. repeat_from strategy done action m fuel 1 t s) lim ∙ e, omega arith, why)

  -- A first round without an error is the only one.
  pub repeat_once :
      (fuel : ℕ) (t : T) (s : S) (a : A)
      → (action s).0 ≡ ok a
      → repeat strategy done action (suc fuel) t s ≡ some (outcome (ok a) t (action s).1 [])
  unfolding repeat repeat_from
  repeat_once fuel t s a fine = rw (fine, repeat_from) refl
