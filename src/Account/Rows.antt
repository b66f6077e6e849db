-- ===== src/Account/Rows.antt =====
-- The statements of internal/repository/account.go on the tables of migrations/000004_balance.up.sql
-- and migrations/000006_account_balance.up.sql.
use sufirmart.Base.{
  ℕ, Bool, true, false, ◌&&◌, Option, none, some, List, [], ◌∷◌, ◌++◌, Str, str_eq, Result, ok, err,
  no_rows, sql_error, pos, ◌+ℤ◌, ◌-ℤ◌, ltb_ℤ, leb_ℤ, if◌then◌else◌,
}
use sufirmart.Domain.Amount.{Float64, Numeric, fits, of_numeric, to_numeric}
use sufirmart.Domain.Status.{TransactionStatus}
use sufirmart.Store.{Db, UserRow, TransactionRow, AccountRow}
use sufirmart.Store.Table.{find, update}

-- A query that must give a row: `Scan` gives ErrNoRows.
abbrev pub one_row : {A : Type 0} → Option A → Result A
one_row none = err no_rows
one_row (some a) = ok a

-- A query that reads.
abbrev pub read : {A : Type 0} → Result A → Db → Result (A × Db)
read (ok a) db = ok (a, db)
read (err e) db = err e

-- A statement that writes transactions or accounts.
abbrev pub set_transactions : List TransactionRow → Db → Result (Unit {0} × Db)
set_transactions ts db = ok (tt, record db { transactions = ts })

abbrev pub set_accounts : List AccountRow → Db → Result (Unit {0} × Db)
set_accounts accs db = ok (tt, record db { accounts = accs })

abbrev pub find_transaction : Str → List TransactionRow → Option TransactionRow
find_transaction = find (λ t. t.id)

abbrev pub update_transaction :
    Str → (TransactionRow → TransactionRow) → List TransactionRow → List TransactionRow
update_transaction = update (λ t. t.id)

abbrev pub find_account : Str → List AccountRow → Option AccountRow
find_account = find (λ a. a.user_id)

abbrev pub is_processed : TransactionStatus → Bool
is_processed TransactionStatus.processed = true
is_processed _ = false

abbrev pub is_planned : TransactionStatus → Bool
is_planned TransactionStatus.planned = true
is_planned _ = false

-- user_id = $1 AND status = 1
abbrev pub settled_of : Str → TransactionRow → Bool
settled_of user t = str_eq t.user_id user && is_processed t.status

-- user_id = $1 AND status = 1 AND withdraw > 0
abbrev pub withdrawal_of : Str → TransactionRow → Bool
withdrawal_of user t = settled_of user t && ltb_ℤ (pos 0) t.withdraw

-- SUM("accrual" - "withdraw"), SUM("withdraw")
unfoldable pub sum_net : List TransactionRow → Numeric
sum_net [] = pos 0
sum_net (t ∷ ts) = (t.accrual -ℤ t.withdraw) +ℤ sum_net ts

unfoldable pub sum_withdraw : List TransactionRow → Numeric
sum_withdraw [] = pos 0
sum_withdraw (t ∷ ts) = t.withdraw +ℤ sum_withdraw ts

-- INSERT INTO transaction: the primary key, the reference to the user, and the two casts.
unfoldable pub insert_transaction :
    Str → Str → Str → Float64 → Float64 → Str → ℕ → Db → Result (Unit {0} × Db)
insert_transaction id user order_num accrual withdraw comment now db =
    elim (find_transaction id db.transactions) [
      | some _ ↦ err sql_error
      | none ↦ elim (find (λ (u : UserRow). u.id) user db.users) [
        | none ↦ err sql_error
        | some _ ↦ elim (to_numeric accrual) [
          | err e ↦ err e
          | ok a ↦ elim (to_numeric withdraw) [
            | err e ↦ err e
            | ok w ↦
                set_transactions
                  (db.transactions
                    ++ record {
                      id = id;
                      user_id = user;
                      order_num = order_num;
                      accrual = a;
                      withdraw = w;
                      status = TransactionStatus.planned;
                      comment = comment;
                      processed_at = now;
                    }
                      ∷ [])
                  db
          ]
        ]
      ]
    ]

-- UPDATE … SET status = …, processed_at = NOW(), by what it sets.
abbrev pub settle_row : ℕ → TransactionRow → TransactionRow
settle_row now t = record t { status = TransactionStatus.processed; processed_at = now }

abbrev pub accrue_row : ℕ → Numeric → TransactionRow → TransactionRow
accrue_row now a t = record t {
  status = TransactionStatus.processed;
  accrual = a;
  processed_at = now;
}

abbrev pub cancel_row : ℕ → Str → TransactionRow → TransactionRow
cancel_row now comment t = record t {
  status = TransactionStatus.canceled;
  comment = comment;
  processed_at = now;
}

-- INSERT INTO account … ON CONFLICT (user_id) DO NOTHING
unfoldable pub insert_account : Str → Db → Result (Unit {0} × Db)
insert_account user db = elim (find_account user db.accounts) [
  | some _ ↦ set_accounts db.accounts db
  | none ↦ elim (find (λ (u : UserRow). u.id) user db.users) [
    | none ↦ err sql_error
    | some _ ↦
        set_accounts (db.accounts ++ record { user_id = user; current_balance = pos 0 } ∷ []) db
  ]
]

-- UPDATE account SET current_balance = current_balance - $2 WHERE user_id = $1 AND
-- current_balance >= $2, with the number of rows that it affects
unfoldable pub debit_account : Str → Float64 → Db → Result (Bool × Db)
debit_account user amount db = elim (find_account user db.accounts) [
  | none ↦ ok (false, db)
  | some a ↦
      if leb_ℤ amount (of_numeric a.current_balance)
      then elim (to_numeric (of_numeric a.current_balance -ℤ amount)) [
        | err e ↦ err e
        | ok b ↦ ok (
          true,
          record db {
            accounts =
                update (λ (r : AccountRow). r.user_id) user (λ r. record r { current_balance = b })
                  db.accounts;
          },
        )
      ]
      else ok (false, db)
]

-- INSERT INTO account … ON CONFLICT (user_id) DO UPDATE SET current_balance = current_balance +
-- EXCLUDED.current_balance
unfoldable pub credit_account : Str → Float64 → Db → Result (Unit {0} × Db)
credit_account user amount db = elim (to_numeric amount) [
  | err e ↦ err e
  | ok c ↦ elim (find_account user db.accounts) [
    | some a ↦
        if fits (a.current_balance +ℤ c)
        then set_accounts
            (update (λ (r : AccountRow). r.user_id) user
              (λ r. record r { current_balance = a.current_balance +ℤ c }) db.accounts)
            db
        else err sql_error
    | none ↦ elim (find (λ (u : UserRow). u.id) user db.users) [
      | none ↦ err sql_error
      | some _ ↦
          set_accounts (db.accounts ++ record { user_id = user; current_balance = c } ∷ []) db
    ]
  ]
]

-- UPDATE transaction SET status = …, accrual = $3 WHERE id = $1
unfoldable pub accrue_transaction : Str → Float64 → ℕ → Db → Result (Unit {0} × Db)
accrue_transaction id accrual now db = elim (to_numeric accrual) [
  | err e ↦ err e
  | ok a ↦ set_transactions (update_transaction id (accrue_row now a) db.transactions) db
]
