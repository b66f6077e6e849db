-- ===== src/Account/Outcome.antt =====
-- What a withdrawal ends in: ApproveTransaction of internal/repository/account.go on a planned
-- withdrawal, with a database that does not fail.
use sufirmart.Base.{
  inl, inr, Bool-cases, ◌≡◌, refl, true, false, some, Str, pos, ◌+ℤ◌, ◌-ℤ◌, ltb_ℤ, leb_ℤ,
  if◌then◌else◌, arith, ok, err, bytes, insufficient_funds,
}
use sufirmart.Domain.Amount.{
  Numeric, Float64, fits, to_numeric, to_numeric-sub, leb-of_numeric, of_numeric-positive,
}
use sufirmart.Store.{Db, TransactionRow, AccountRow}
use sufirmart.Store.Table.{update}
use sufirmart.Store.Statement.{Env, World, IsUp, statement_up, transaction_up}
use sufirmart.Account.Rows.{
  find_transaction, find_account, update_transaction, settle_row, cancel_row, insert_account,
  debit_account, credit_account, accrue_transaction, accrue_row,
}
use sufirmart.Account.{approve_accrual, approve_transaction, approve_withdraw, conclude_withdraw}

fits-sub :
    (b w : Numeric)
    → fits b ≡ true
    → ltb_ℤ (pos 0) w ≡ true
    → leb_ℤ w b ≡ true
    → fits (b -ℤ w) ≡ true
unfolding ◌-ℤ◌
fits-sub b w r p h = ground arith

module _ (env : Env) (up : IsUp env) (id : Str) (accrual : Float64) (w : World) (t : TransactionRow)
    (a : AccountRow) (found : find_transaction id w.transactions ≡ some t)
    (account : find_account t.user_id w.accounts ≡ some a)
    (planned : ltb_ℤ (pos 0) t.withdraw ≡ true) where
  -- The account after the debit.
  abbrev pub debited : Db
  debited = record w.db {
    accounts =
        update (λ (r : AccountRow). r.user_id) t.user_id
          (λ r. record r { current_balance = a.current_balance -ℤ t.withdraw }) w.accounts;
    transactions = update_transaction id (settle_row (env.now w.calls)) w.transactions;
  }

  -- The database after a refusal.
  abbrev pub refused : Db
  refused = record w.db {
    transactions =
        update_transaction id (cancel_row (env.now w.calls) (bytes "insufficient funds"))
          w.transactions;
  }

  approve_covered :
      leb_ℤ t.withdraw a.current_balance ≡ true
      → fits (a.current_balance -ℤ t.withdraw) ≡ true
      → ((approve_transaction env id accrual w).0 ≡ ok tt)
        × ((approve_transaction env id accrual w).1.db ≡ debited)
  unfolding approve_transaction insert_account debit_account
  approve_covered enough fit =
      rw
        (
          transaction_up env up,
          statement_up env up,
          found,
          statement_up env up,
          account,
          insert_account,
          of_numeric-positive t.withdraw,
          planned,
          approve_withdraw,
          statement_up env up,
          account,
          statement_up env up,
          account,
          debit_account,
          leb-of_numeric t.withdraw a.current_balance,
          enough,
          to_numeric-sub a.current_balance t.withdraw,
          fit,
          conclude_withdraw,
          statement_up env up,
          up _,
        )
        (refl, refl)

  approve_short :
      leb_ℤ t.withdraw a.current_balance ≡ false
      → ((approve_transaction env id accrual w).0 ≡ err insufficient_funds)
        × ((approve_transaction env id accrual w).1.db ≡ refused)
  unfolding approve_transaction insert_account debit_account
  approve_short short =
      rw
        (
          transaction_up env up,
          statement_up env up,
          found,
          statement_up env up,
          account,
          insert_account,
          of_numeric-positive t.withdraw,
          planned,
          approve_withdraw,
          statement_up env up,
          account,
          statement_up env up,
          account,
          debit_account,
          leb-of_numeric t.withdraw a.current_balance,
          short,
          conclude_withdraw,
          statement_up env up,
          up _,
        )
        (refl, refl)

  -- With a database that does not fail, approving a positive planned withdrawal, on an account whose
  -- balance is in the range of its column, succeeds exactly when the balance covers it. Then that
  -- balance falls by the amount and the transaction is processed. Otherwise the call returns
  -- ErrInsufficientFunds, no account changes and the transaction is canceled. Nothing else changes,
  -- and the accrual passed in does not matter.
  pub approve_withdraw_outcome :
      fits a.current_balance ≡ true
      → ((approve_transaction env id accrual w).0
          ≡ (if leb_ℤ t.withdraw a.current_balance then ok tt else err insufficient_funds))
        × ((approve_transaction env id accrual w).1.db
            ≡ (if leb_ℤ t.withdraw a.current_balance then debited else refused))
  approve_withdraw_outcome range = elim (Bool-cases (leb_ℤ t.withdraw a.current_balance)) [
    | inl enough ↦
        rw enough
          (approve_covered enough (fits-sub a.current_balance t.withdraw range planned enough))
    | inr short ↦ rw short (approve_short short)
  ]

module _ (env : Env) (up : IsUp env) (id : Str) (accrual : Float64) (c : Numeric) (w : World)
    (t : TransactionRow) (a : AccountRow) (found : find_transaction id w.transactions ≡ some t)
    (account : find_account t.user_id w.accounts ≡ some a)
    (unplanned : ltb_ℤ (pos 0) t.withdraw ≡ false) (positive : ltb_ℤ (pos 0) accrual ≡ true)
    (stored : to_numeric accrual ≡ ok c) (range : fits (a.current_balance +ℤ c) ≡ true) where
  -- The account after the credit.
  abbrev pub credited : Db
  credited = record w.db {
    accounts =
        update (λ (r : AccountRow). r.user_id) t.user_id
          (λ r. record r { current_balance = a.current_balance +ℤ c }) w.accounts;
    transactions = update_transaction id (accrue_row (env.now w.calls) c) w.transactions;
  }

  pub approve_accrual_outcome :
      ((approve_transaction env id accrual w).0 ≡ ok tt)
      × ((approve_transaction env id accrual w).1.db ≡ credited)
  unfolding approve_transaction insert_account credit_account accrue_transaction
  approve_accrual_outcome =
      rw
        (
          transaction_up env up,
          statement_up env up,
          found,
          statement_up env up,
          account,
          insert_account,
          of_numeric-positive t.withdraw,
          unplanned,
          positive,
          approve_accrual,
          statement_up env up,
          stored,
          credit_account,
          account,
          range,
          statement_up env up,
          accrue_transaction,
          up _,
        )
        (refl, refl)
