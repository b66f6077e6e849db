-- ===== src/Orders/Accruals.antt =====
-- The subquery of ListByUser in internal/repository/order.go.
use mathlib.Core.List.{Perm}
use sufirmart.Base.{
  ◌≡◌, true, ◌↔◌, ◌&&◌, Option, none, some, List, [], ◌∷◌, map, str_eq, str_eq_iff, pos, ltb_ℤ,
  ◌≤ℤ◌, arith,
}
use sufirmart.Domain.Amount.{Float64, of_numeric}
use sufirmart.Domain.Status.{TransactionStatus}
use sufirmart.Store.{Db, OrderRow, TransactionRow}
use sufirmart.Store.Table.{All, select}
use sufirmart.Store.Kept.{Kept, select-Kept, and_iff}
use sufirmart.Store.Sort.{newest, sort-perm, newest-Falls, Falls}
use sufirmart.Account.Rows.{settled_of, is_processed}
use sufirmart.Account.History.{is_processed_iff}
use sufirmart.Orders.{accrual_row, first_accrual, order_accrual}

-- A transaction by which something was accrued for an order.
pub record IsAccrual (o : OrderRow) (t : TransactionRow) : Type 0 where
  pub owned : t.user_id ≡ o.user_id
  pub settled : t.status ≡ TransactionStatus.processed
  pub same_order : t.order_num ≡ o.order_num
  pub positive : pos 1 ≤ℤ t.accrual

accrual_row_iff : (o : OrderRow) (t : TransactionRow) → (accrual_row o t ≡ true) ↔ IsAccrual o t
accrual_row_iff o t =
    let settled = and_iff (str_eq t.user_id o.user_id) (is_processed t.status) in
    let worth = and_iff (str_eq t.order_num o.order_num) (ltb_ℤ (pos 0) t.accrual) in
    let tests =
      and_iff (settled_of o.user_id t)
        (str_eq t.order_num o.order_num && ltb_ℤ (pos 0) t.accrual) in
    (
      λ e.
          let (row, rest) = tests.0 e in
          let (mine, done) = settled.0 row in
          let (number, plus) = worth.0 rest in
          record {
            owned = (str_eq_iff t.user_id o.user_id).0 mine;
            settled = (is_processed_iff t.status).0 done;
            same_order = (str_eq_iff t.order_num o.order_num).0 number;
            positive = ground arith;
          },
      λ h. tests.1 (
        settled.1
            ((str_eq_iff t.user_id o.user_id).1 h.owned, (is_processed_iff t.status).1 h.settled),
        worth.1 (
          (str_eq_iff t.order_num o.order_num).1 h.same_order,
          (let sum = h.positive in ground arith),
        ),
      ),
    )

-- The accrual of the first row, where there is one.
pub data FirstAccrual : List TransactionRow → Option Float64 → Type 0 where
  without : FirstAccrual [] none
  of_first :
      (t : TransactionRow) (ts : List TransactionRow)
      → FirstAccrual (t ∷ ts) (some (of_numeric t.accrual))

first_accrual-FirstAccrual : (ts : List TransactionRow) → FirstAccrual ts (first_accrual ts)
unfolding first_accrual
first_accrual-FirstAccrual [] = without
first_accrual-FirstAccrual (t ∷ ts) = of_first t ts

-- The latest accrual of an order among the transactions.
abbrev pub IsLastAccrual : List TransactionRow → OrderRow → Option Float64 → Type 0
IsLastAccrual table o accrual =
    (stored rows : List TransactionRow) × Kept (IsAccrual o) table stored
    × Perm rows stored
    × Falls (map (λ (t : TransactionRow). t.processed_at) rows)
    × FirstAccrual rows accrual

order_accrual-IsLastAccrual :
    (db : Db) (o : OrderRow) → IsLastAccrual db.transactions o (order_accrual db o)
unfolding order_accrual
order_accrual-IsLastAccrual db o =
    let stored = select (accrual_row o) db.transactions in
    (
      stored,
      newest (λ t. t.processed_at) stored,
      select-Kept (IsAccrual o) (accrual_row o) (accrual_row_iff o) db.transactions,
      sort-perm _ stored,
      newest-Falls (λ t. t.processed_at) stored,
      first_accrual-FirstAccrual _,
    )

-- So for each of some orders.
pub last_accruals :
    (db : Db) (rows : List OrderRow)
    → All (λ o. IsLastAccrual db.transactions o (order_accrual db o)) rows
last_accruals db [] = tt
last_accruals db (o ∷ rows) = (order_accrual-IsLastAccrual db o, last_accruals db rows)
