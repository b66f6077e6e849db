-- ===== src/Tests/Money.antt =====
-- Accounts: internal/repository/account.go, and the requests for a withdrawal.
use mathlib.Core.List.{Perm}
use sufirmart.Store.Sort.{Falls}
use sufirmart.Store.Kept.{Kept}
use sufirmart.Account.History.{IsWithdrawal, list_withdrawals_outcome}
use sufirmart.Base.{
  map, List, ◌≡◌, refl, true, some, none, bytes, pos, ok, arith, leb_ℤ, ◌-ℤ◌, if◌then◌else◌, str_eq,
}
use sufirmart.Luhn.{order_num_validation}
use sufirmart.Domain.Amount.{abs, fits, of_numeric, to_numeric}
use sufirmart.Store.{TransactionRow, UserRow}
use sufirmart.Store.Table.{find}
use sufirmart.Account.Rows.{find_transaction, find_account}
use sufirmart.Account.Ledger.{IsLedger, NotProcessed}
use sufirmart.Account.Approve.{approve_transaction-IsLedger}
use sufirmart.Account.Calls.{here, next, after, Run-IsLedger, approve}
use sufirmart.Account.Reading.{get_balance_outcome, expected_balance}
use sufirmart.Account.{approve_transaction, get_balance, list_withdrawals}
use sufirmart.Api.Reply.{respond, http_error, empty_body}
use sufirmart.Api.Withdrawals.{withdraw_outcome, debit_of_request}
use sufirmart.Api.{WithdrawRequest, post_withdraw, user_of}
use sufirmart.Tests.Sample.{
  calm, calm-IsUp, ann, ann_row, ann_account, spending, number, world, world-IsLedger,
}

spending-found : find_transaction (bytes "w") world.transactions ≡ some spending
unfolding find str_eq
spending-found = refl

ann-found : find_account ann world.accounts ≡ some ann_account
unfolding find str_eq
ann-found = refl

spending-NotProcessed : NotProcessed (bytes "w") world.db
unfolding find str_eq
spending-NotProcessed t e = let same : some spending ≡ some t = e in ground arith

Run-IsLedger_example : IsLedger (after calm (approve (bytes "w") (pos 0)) world).db
Run-IsLedger_example =
    Run-IsLedger calm (next here (approve (bytes "w") (pos 0)) spending-NotProcessed) world-IsLedger

approve_transaction-IsLedger_example :
    IsLedger (approve_transaction calm (bytes "w") (pos 0) world).1.db
approve_transaction-IsLedger_example =
    approve_transaction-IsLedger calm (bytes "w") (pos 0) world world-IsLedger spending-NotProcessed

get_balance_outcome_example :
    ((get_balance calm ann world).0 ≡ ok (expected_balance ann world.db))
    × ((get_balance calm ann world).1.db ≡ world.db)
get_balance_outcome_example = get_balance_outcome calm ann world calm-IsUp world-IsLedger

abbrev request : WithdrawRequest
request = record { order = number; sum = pos 20000 }

number-passes : order_num_validation number ≡ true
unfolding order_num_validation
number-passes = refl

ann-known : user_of (some ann) ≡ some ann
unfolding user_of
ann-known = refl

fresh-missing : find_transaction (calm.uuid 0) world.transactions ≡ none
unfolding find str_eq
fresh-missing = refl

ann-registered : find (λ (v : UserRow). v.id) ann world.users ≡ some ann_row
unfolding find str_eq
ann-registered = refl

two_hundred : to_numeric (abs (pos 0 -ℤ pos 20000)) ≡ ok (pos 200)
unfolding to_numeric ◌-ℤ◌
two_hundred = refl

in_range : fits (pos 500) ≡ true
in_range = refl

withdraw_outcome_example :
    ((post_withdraw calm (some ann) (some request) world).0
      ≡ ok (if leb_ℤ (pos 200) (pos 500) then respond 200 empty_body else http_error 402))
    × ((post_withdraw calm (some ann) (some request) world).1.accounts ≡ (
        if leb_ℤ (pos 200) (pos 500)
        then debit_of_request calm calm-IsUp
            (some ann)
            ann
            request
            (pos 200)
            world
            ann_row
            ann_account
            ann-known
            number-passes
            refl
            two_hundred
            refl
            fresh-missing
            ann-registered
            ann-found
            in_range
        else world.accounts))
withdraw_outcome_example =
    withdraw_outcome calm calm-IsUp (some ann) ann request (pos 200) world ann_row ann_account
      ann-known number-passes refl two_hundred refl fresh-missing ann-registered ann-found in_range

list_withdrawals_outcome_example :
    (stored rows : List TransactionRow) × Kept (IsWithdrawal ann) world.transactions stored
    × Perm rows stored
    × Falls (map (λ (t : TransactionRow). t.processed_at) rows)
    × ((list_withdrawals calm ann world).0
        ≡ ok (
            map
              (λ (t : TransactionRow). record {
                order_num = t.order_num;
                sum = of_numeric t.withdraw;
                processed_at = t.processed_at;
              })
              rows))
    × ((list_withdrawals calm ann world).1.db ≡ world.db)
list_withdrawals_outcome_example = list_withdrawals_outcome calm ann world calm-IsUp
