-- ===== src/Accrual/Stub/Answers.antt =====
-- What the reader of internal/accrual/stub.go answers, by the calls that were made.
use sufirmart.Base.{
  inl, inr, ◌≡◌, refl, ◌∙◌, ap, Option, Option-cases, none, some, List, [], ◌∷◌, Str, str_eq,
  lookup, insert, delete, lookup-insert, lookup-delete, if◌then◌else◌,
}
use sufirmart.Accrual.{Accrual}
use sufirmart.Accrual.Stub.{
  StubReader, StubCall, set, remove, clear, fail_with, remove_error, new_stub_reader, stub_get,
  found, forced, perform, run, run_from, fail_with_in, remove_error_in,
}

-- What a call leaves as the value for a number.
abbrev pub value_after : StubCall → Str → Option (Option Accrual) → Option (Option Accrual)
value_after (set none) number v = v
value_after (set (some acc)) number v = if str_eq acc.order_num number then some (some acc) else v
value_after (remove order_number) number v = if str_eq order_number number then none else v
value_after clear number v = none
value_after (fail_with order_number e) number v = v
value_after (remove_error order_number) number v = v

abbrev pub value_after_all : List StubCall → Str → Option (Option Accrual) → Option (Option Accrual)
value_after_all [] number v = v
value_after_all (c ∷ calls) number v = value_after_all calls number (value_after c number v)

lookup-nothing : (number : Str) → lookup {A = Option Accrual} number [] ≡ none
unfolding lookup
lookup-nothing number = refl

perform-value :
    (c : StubCall) (r s : StubReader) (number : Str)
    → r.force_err ≡ none
    → perform c r ≡ some s
    → (s.force_err ≡ none)
      × (lookup number s.data_of ≡ value_after c number (lookup number r.data_of))
unfolding perform fail_with_in remove_error_in
perform-value (set none) r s number nil e = (cc, cc)
perform-value (set (some acc)) r s number nil e =
    let same : record r { data_of = insert acc.order_num (some acc) r.data_of } ≡ s = cc in
    rw (← same) (nil, lookup-insert acc.order_num number (some acc) r.data_of)
perform-value (remove order_number) r s number nil e =
    let same : record r { data_of = delete order_number r.data_of } ≡ s = cc in
    rw (← same) (nil, lookup-delete order_number number r.data_of)
perform-value clear r s number nil e =
    let same : record r { data_of = [] } ≡ s = cc in rw (← same) (nil, lookup-nothing number)
perform-value (fail_with order_number x) r s number nil e =
    let panic : none ≡ some s = rw nil at e in cc
perform-value (remove_error order_number) r s number nil e =
    let same : record r { force_err = remove_error_in order_number r.force_err } ≡ s = cc in
    rw (← same) (rw nil refl, refl)

run_from-none : (calls : List StubCall) → run_from calls none ≡ none
unfolding run_from
run_from-none [] = refl
run_from-none (c ∷ calls) = refl

run_from-value :
    (calls : List StubCall) (r s : StubReader) (number : Str)
    → r.force_err ≡ none
    → run_from calls (some r) ≡ some s
    → (s.force_err ≡ none)
      × (lookup number s.data_of ≡ value_after_all calls number (lookup number r.data_of))
unfolding run_from
run_from-value [] r s number nil e = let same : r ≡ s = cc in rw (← same) (nil, refl)
run_from-value (c ∷ calls) r s number nil e = elim (Option-cases (perform c r)) [
  | inl panic ↦
      let left = run_from-none calls in
      let gone : run_from calls none ≡ some s = rw panic at e in cc
  | inr (q, went) ↦
      let (nil', here) = perform-value c r q number nil went in
      let (nil'', later) = run_from-value calls q s number nil' (rw went at e) in
      (nil'', later ∙ ap (value_after_all calls number) here)
]

-- What a reader that was just made answers after any calls of Set, Remove, Clear, FailWith and
-- RemoveError that do not panic: the value that the last of the calls which concern the number has
-- left, and the error for an order that is not found where there is none. An error that FailWith was
-- given is never answered.
pub stub_get_outcome :
    (initial : Option (List (Str × Option Accrual))) (calls : List StubCall) (s : StubReader)
    (number : Str)
    → run calls (new_stub_reader initial) ≡ some s
    → stub_get number s
      ≡ found number
          (value_after_all calls number (lookup number (new_stub_reader initial).data_of))
unfolding run stub_get forced new_stub_reader
stub_get_outcome initial calls s number e =
    let (nil, value) = run_from-value calls (new_stub_reader initial) s number (made initial) e in
    rw (nil, forced, value) refl
  where
    made :
        (initial : Option (List (Str × Option Accrual)))
        → (new_stub_reader initial).force_err ≡ none
    made none = refl
    made (some m) = refl
