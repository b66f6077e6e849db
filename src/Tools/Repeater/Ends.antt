-- ===== src/Tools/Repeater/Ends.antt =====
-- When Repeat of internal/tools/repeater/repeater.go without a limit ends.
use sufirmart.Base.{
  inl, inr, ℕ, zero, suc, ◌+◌, ◌≤◌, ◌<◌, ◌≡◌, refl, Bool, true, false, Bool-cases, Option-cases,
  Result-cases, none, some, err, Error, Exec, pos, ltb_ℤ, ◌==◌, arith,
}
use sufirmart.Tools.Repeater.{Strategy, Outcome, report, goes_on, stops, repeat_from}

module _ {T S A : Type 0} (strategy : Strategy T) (done : ℕ → Bool) (action : Exec S A) where
  stops-done :
      (attempt : ℕ) (e : Error) (t : T) (again : Bool)
      → ltb_ℤ (pos 0) (strategy.delay attempt t) ≡ true
      → done attempt ≡ true
      → stops strategy done action attempt e t again ≡ none
      → ⊥
  unfolding stops
  stops-done attempt e t again waits over h = ground arith

  stops-waiting :
      (attempt : ℕ) (e : Error) (t : T)
      → done attempt ≡ false
      → stops strategy done action attempt e t true ≡ none
  unfolding stops
  stops-waiting attempt e t going = ground arith

  -- Where every wait takes time, the context that is done in the k-th round ends the loop.
  pub ends_from :
      (Keep : T → Type 0)
      → ((e : Error) (t : T) → Keep t → Keep (strategy.retriable e t).1)
      → ((i : ℕ) (t : T) → Keep t → ltb_ℤ (pos 0) (strategy.delay i t) ≡ true)
      → (n fuel attempt k : ℕ) (t : T) (s : S) → Keep t
      → done k ≡ true
      → attempt ≤ k
      → k < attempt + fuel
      → (o : Outcome T S A) × (repeat_from strategy done action n fuel attempt t s ≡ some o)
  unfolding repeat_from
  ends_from Keep keeps waits n zero attempt k t s h over from until = absurd (omega arith)
  ends_from Keep keeps waits n (suc fuel) attempt k t s h over from until =
      elim (Result-cases (action s).0) [
        | inl (a, fine) ↦ rw (fine, repeat_from) (_, refl)
        | inr (e, failed) ↦
            let again = (strategy.retriable e t).0 in
            let t' = (strategy.retriable e t).1 in
            elim (Option-cases (stops strategy done action attempt e t' again)) [
              | inr (e', stop) ↦ rw (failed, repeat_from, stop) (_, refl)
              | inl wait ↦ elim (Bool-cases (goes_on n (attempt + 1))) [
                | inr last ↦ rw (failed, repeat_from, wait, last) (_, refl)
                | inl more ↦
                    let (o, found) =
                      ends_from Keep keeps waits n fuel (attempt + 1) k t' (action s).1
                        (keeps e t h) over (later e t' again (keeps e t h) wait) (omega arith) in
                    rw (failed, repeat_from, wait, more, found) (report e o, refl)
              ]
            ]
      ]
    where
      later :
          (e : Error) (t' : T) (again : Bool)
          → Keep t'
          → stops strategy done action attempt e t' again ≡ none
          → attempt + 1 ≤ k
      later e t' again h' wait = elim (Bool-cases (attempt == k)) [
        | inl now ↦
            let same : attempt ≡ k = ground arith in
            absurd (stops-done attempt e t' again (waits attempt t' h') (rw same over) wait)
        | inr before ↦ ground arith
      ]

  -- Without a limit and with a context that is never done, an action that always ends with an error
  -- to try again is tried for ever.
  pub waits_from :
      (Keep : S → Type 0)
      → ((s : S)
          → Keep s
          → (e : Error) × ((action s).0 ≡ err e)
            × ((t : T) → (strategy.retriable e t).0 ≡ true)
            × Keep (action s).1)
      → ((i : ℕ) → done i ≡ false)
      → (fuel attempt : ℕ) (t : T) (s : S) → Keep s
      → repeat_from strategy done action 0 fuel attempt t s ≡ none
  unfolding repeat_from
  waits_from Keep fails never zero attempt t s h = refl
  waits_from Keep fails never (suc fuel) attempt t s h =
      let (e, failed, again, kept) = fails s h in
      let t' = (strategy.retriable e t).1 in
      let wait = stops-waiting attempt e t' (never attempt) in
      rw
        (
          failed,
          repeat_from,
          again t,
          wait,
          waits_from Keep fails never fuel (attempt + 1) t' (action s).1 kept,
        )
        refl
