-- ===== src/Account.antt =====
-- internal/repository/account.go: the balances and the ledger of transactions.
pub mod Rows
pub mod Sums
pub mod Ledger
pub mod Debts
pub mod Outcome
pub mod Register
pub mod Reading
pub mod Reads
pub mod History
pub mod Calls
pub mod Credits
pub mod Writes
pub mod Additions
pub mod Awaits
pub mod Approve
use mathlib.Core.Option
use Rows.{
  one_row, read, set_transactions, set_accounts, find_transaction, update_transaction, find_account,
  is_processed, is_planned, settled_of, withdrawal_of, sum_net, sum_withdraw, insert_transaction,
  settle_row, accrue_row, cancel_row, insert_account, debit_account, credit_account,
  accrue_transaction,
}
use sufirmart.Base.{
  ℕ, ◌≡◌, Bool, true, false, ◌&&◌, not, Option, none, some, List, [], ◌∷◌, ◌++◌, map, Str, str_eq,
  bytes, Result, ok, err, no_rows, sql_error, insufficient_funds, Exec, pure, raise, lift, attempt,
  continue, ◌>>=◌, ◌>>◌, ℤ, pos, ◌+ℤ◌, ◌-ℤ◌, ltb_ℤ, leb_ℤ, if◌then◌else◌, Error,
}
use sufirmart.Domain.Amount.{Float64, Numeric, abs, fits, of_numeric, round_hundredths, to_numeric}
use sufirmart.Domain.Balance.{Balance, Withdrawal, new_balance}
use sufirmart.Store.Sort.{newest}
use sufirmart.Domain.Status.{TransactionStatus}
use sufirmart.Store.{Db, UserRow, TransactionRow, AccountRow}
use sufirmart.Store.Table.{find, update, update_where, select}
use sufirmart.Store.Statement.{Env, World, statement, transaction, new_uuid}

-- A negative sum is a withdrawal, any other an accrual.
unfoldable pub withdraw_part : Float64 → Float64
withdraw_part sum = if ltb_ℤ sum (pos 0) then abs sum else pos 0

unfoldable pub accrual_part : Float64 → Float64
accrual_part sum = if ltb_ℤ sum (pos 0) then pos 0 else abs sum

-- Scan of a row into a withdrawal.
abbrev pub withdrawal_row : TransactionRow → Withdrawal
withdrawal_row t = record {
  order_num = t.order_num;
  sum = of_numeric t.withdraw;
  processed_at = t.processed_at;
}

module _ (env : Env) where
  -- RegisterTransaction
  unfoldable pub register_transaction : Str → Str → Float64 → Str → Exec World Str
  unfolding insert_transaction withdraw_part accrual_part
  register_transaction user order_num sum comment = do
    id ← new_uuid env
    statement env
        (insert_transaction id user order_num (accrual_part sum) (withdraw_part sum) comment)
    pure id

  -- CancelTransaction
  unfoldable pub cancel_transaction : Str → Str → Exec World (Unit {0})
  cancel_transaction id reason =
      statement env λ now db.
        set_transactions (update_transaction id (cancel_row now reason) db.transactions) db

  -- CancelPlannedTransactionsByOrder
  unfoldable pub cancel_planned_transactions_by_order : Str → Str → Str → Exec World (Unit {0})
  cancel_planned_transactions_by_order user order_num reason = statement env λ now db.
      set_transactions
        (update_where
          (λ t. str_eq t.user_id user && str_eq t.order_num order_num && is_planned t.status)
          (cancel_row now reason) db.transactions)
        db

  -- What ApproveTransaction does by whether the debit affected the account.
  conclude_withdraw : Str → ℕ → Bool → Exec World (Result (Unit {0}))
  conclude_withdraw id now true = do
    statement env
        λ _ db. set_transactions (update_transaction id (settle_row now) db.transactions) db
    pure (ok tt)
  conclude_withdraw id now false = do
    statement env λ _ db.
        set_transactions
          (update_transaction id (cancel_row now (bytes "insufficient funds")) db.transactions) db
    pure (err insufficient_funds)

  -- The branch of ApproveTransaction for a planned withdrawal.
  approve_withdraw : Str → Str → Float64 → ℕ → Exec World (Result (Unit {0}))
  unfolding debit_account conclude_withdraw
  approve_withdraw id user planned now = do
    statement env λ _ db. read (one_row (find_account user db.accounts)) db
    affected ← statement env λ _. debit_account user planned
    conclude_withdraw id now affected

  -- The branch for a positive accrual.
  approve_accrual : Str → Str → Float64 → ℕ → Exec World (Result (Unit {0}))
  unfolding credit_account accrue_transaction
  approve_accrual id user accrual now = do
    statement env λ _. credit_account user accrual
    statement env λ _. accrue_transaction id accrual now
    pure (ok tt)

  -- The branch for neither.
  approve_nothing : Str → ℕ → Exec World (Result (Unit {0}))
  approve_nothing id now = do
    statement env
        λ _ db. set_transactions (update_transaction id (settle_row now) db.transactions) db
    pure (ok tt)

  approve_body : Str → Float64 → ℕ → Exec World (Result (Unit {0}))
  unfolding insert_account approve_withdraw approve_accrual approve_nothing
  approve_body id accrual now = do
    t ← statement env λ _ db. read (one_row (find_transaction id db.transactions)) db
    let planned = of_numeric t.withdraw
    statement env λ _. insert_account t.user_id
    if ltb_ℤ (pos 0) planned
        then approve_withdraw id t.user_id planned now
        else if ltb_ℤ (pos 0) accrual
        then approve_accrual id t.user_id accrual now
        else approve_nothing id now

  -- ApproveTransaction
  unfoldable pub approve_transaction : Str → Float64 → Exec World (Unit {0})
  unfolding approve_body
  approve_transaction id accrual = transaction env (approve_body id accrual)

  -- ListWithdrawals
  unfoldable pub list_withdrawals : Str → Exec World (List Withdrawal)
  list_withdrawals user = statement env λ _ db. ok (
    map withdrawal_row (newest (λ t. t.processed_at) (select (withdrawal_of user) db.transactions)),
    db,
  )

  -- SELECT COALESCE(SUM(…), 0) over the processed transactions of a user
  net_of_history : Str → Exec World Float64
  net_of_history user =
      statement env λ _ db. ok (of_numeric (sum_net (select (settled_of user) db.transactions)), db)

  withdrawn_of : Str → Exec World Float64
  withdrawn_of user =
      statement env
        λ _ db. ok (of_numeric (sum_withdraw (select (withdrawal_of user) db.transactions)), db)

  -- Whether the first query of GetBalance gives an amount to go on with: `err` is an error other
  -- than ErrNoRows, `none` is no row or a zero balance.
  current_of : Result Numeric → Result (Option Float64)
  current_of (ok b) =
      if ltb_ℤ (pos 0) b
      then ok (some (of_numeric b))
      else if ltb_ℤ b (pos 0)
      then ok (some (of_numeric b))
      else ok none
  current_of (err no_rows) = ok none
  current_of (err e) = err e

  balance_from : Str → Option Float64 → Exec World Balance
  unfolding net_of_history withdrawn_of
  balance_from user none = do
    current ← net_of_history user
    withdrawn ← withdrawn_of user
    pure (new_balance user (current +ℤ withdrawn) withdrawn)
  balance_from user (some current) = do
    withdrawn ← withdrawn_of user
    pure (new_balance user (current +ℤ withdrawn) withdrawn)

  -- GetBalance
  unfoldable pub get_balance : Str → Exec World Balance
  unfolding current_of balance_from
  get_balance user = do
    row ← attempt (
        statement env λ _ db.
          read
            (one_row
              (Option.map (λ (a : AccountRow). a.current_balance) (find_account user db.accounts)))
            db)
    current ← lift (current_of row)
    balance_from user current
