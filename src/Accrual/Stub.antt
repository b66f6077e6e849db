-- ===== src/Accrual/Stub.antt =====
-- internal/accrual/stub.go: the reader that answers from its own maps. Its calls run one after the
-- other, since each of them holds the lock.
pub mod Answers
use sufirmart.Base.{
  inl, inr, ◌≡◌, refl, ◌∙◌, sym, ap, Bool, true, false, Option, Option-cases, none, some, List, [],
  ◌∷◌, Str, str_eq, Result, ok, err, Error, not_found, lookup, insert, delete, lookup-insert,
  lookup-delete, if◌then◌else◌,
}
use sufirmart.Accrual.{Accrual}
use sufirmart.Accrual.Contract.{err_not_found, as_error}

-- A pointer to an Accrual may be nil, and so may the map of the errors.
pub record StubReader : Type 0 where
  pub data_of : List (Str × Option Accrual)
  pub force_err : Option (List (Str × Error))

-- The loop over the initial map
unfoldable pub copy_all :
    List (Str × Option Accrual) → List (Str × Option Accrual) → List (Str × Option Accrual)
copy_all [] m = m
copy_all ((k, v) ∷ initial) m = copy_all initial (insert k v m)

-- NewStubReader; no map, and a nil one, leave the reader empty.
unfoldable pub new_stub_reader : Option (List (Str × Option Accrual)) → StubReader
unfolding copy_all
new_stub_reader none = record { data_of = []; force_err = none }
new_stub_reader (some initial) = record { data_of = copy_all initial []; force_err = none }

unfoldable pub forced : Str → Option (List (Str × Error)) → Option Error
forced order_number none = none
forced order_number (some errors) = lookup order_number errors

unfoldable pub found : Str → Option (Option Accrual) → Result (Option Accrual)
unfolding as_error
found order_number none = err (as_error (err_not_found order_number))
found order_number (some acc) = ok acc

-- Get
unfoldable pub stub_get : Str → StubReader → Result (Option Accrual)
unfolding forced found
stub_get order_number r = elim (forced order_number r.force_err) [
  | some e ↦ err e
  | none ↦ found order_number (lookup order_number r.data_of)
]

-- The calls that change the reader
pub data StubCall : Type 0 where
  set : Option Accrual → StubCall
  remove : Str → StubCall
  clear : StubCall
  fail_with : Str → Error → StubCall
  remove_error : Str → StubCall

unfoldable pub fail_with_in :
    Str → Error → StubReader → Option (List (Str × Error)) → Option StubReader
fail_with_in order_number e r none = none
fail_with_in order_number e r (some errors) =
    some (record r { force_err = some (insert order_number e errors) })

unfoldable pub remove_error_in : Str → Option (List (Str × Error)) → Option (List (Str × Error))
remove_error_in order_number none = none
remove_error_in order_number (some errors) = some (delete order_number errors)

-- Set, Remove, Clear, FailWith, RemoveError; `none` is a panic.
unfoldable pub perform : StubCall → StubReader → Option StubReader
unfolding fail_with_in remove_error_in
perform (set none) r = some r
perform (set (some acc)) r = some (record r { data_of = insert acc.order_num (some acc) r.data_of })
perform (remove order_number) r = some (record r { data_of = delete order_number r.data_of })
perform clear r = some (record r { data_of = [] })
perform (fail_with order_number e) r = fail_with_in order_number e r r.force_err
perform (remove_error order_number) r =
    some (record r { force_err = remove_error_in order_number r.force_err })

unfoldable pub run_from : List StubCall → Option StubReader → Option StubReader
unfolding perform
run_from [] r = r
run_from (c ∷ calls) none = none
run_from (c ∷ calls) (some r) = run_from calls (perform c r)

unfoldable pub run : List StubCall → StubReader → Option StubReader
unfolding run_from
run calls r = run_from calls (some r)
