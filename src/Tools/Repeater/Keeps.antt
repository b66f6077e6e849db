-- ===== src/Tools/Repeater/Keeps.antt =====
-- What the action keeps, Repeat of internal/tools/repeater/repeater.go keeps.
use mathlib.Core.Option
use sufirmart.Base.{
  inl, inr, ℕ, zero, suc, ◌+◌, ◌≡◌, Bool, Bool-cases, Option-cases, Result-cases, Option, none,
  some, Exec, Error,
}
use sufirmart.Tools.Repeater.{Strategy, Outcome, report, goes_on, stops, repeat_from, repeat}

module _ {T S A : Type 0} (strategy : Strategy T) (done : ℕ → Bool) (action : Exec S A)
    (Keep : S → Type 0) (keeps : (s : S) → Keep s → Keep (action s).1) where
  KeptBy : Option (Outcome T S A) → Type 0
  KeptBy none = Unit {0}
  KeptBy (some o) = Keep o.state

  kept-report :
      (e : Error) (r : Option (Outcome T S A)) → KeptBy r → KeptBy (Option.map (report e) r)
  unfolding KeptBy
  kept-report e none h = h
  kept-report e (some o) h = h

  kept_from :
      (n fuel i : ℕ) (t : T) (s : S)
      → Keep s
      → KeptBy (repeat_from strategy done action n fuel i t s)
  unfolding repeat_from KeptBy
  kept_from n zero i t s h = tt
  kept_from n (suc fuel) i t s h = elim (Result-cases (action s).0) [
    | inl (a, fine) ↦ rw (fine, repeat_from) (keeps s h)
    | inr (e, failed) ↦
        let again = (strategy.retriable e t).0 in
        let t' = (strategy.retriable e t).1 in
        elim (Option-cases (stops strategy done action i e t' again)) [
          | inr (e', stop) ↦ rw (failed, repeat_from, stop) (keeps s h)
          | inl wait ↦ elim (Bool-cases (goes_on n (i + 1))) [
            | inl more ↦
                rw (failed, repeat_from, wait, more)
                  (kept-report e _ (kept_from n fuel (i + 1) t' (action s).1 (keeps s h)))
            | inr last ↦ rw (failed, repeat_from, wait, last) (keeps s h)
          ]
        ]
  ]

  pub repeat-Keep :
      (fuel : ℕ) (t : T) (s : S) (o : Outcome T S A)
      → Keep s
      → repeat strategy done action fuel t s ≡ some o
      → Keep o.state
  unfolding repeat KeptBy
  repeat-Keep fuel t s o h e = rw e at (kept_from (strategy.attempts t) fuel 1 t s h)
