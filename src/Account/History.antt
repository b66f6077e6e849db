-- ===== src/Account/History.antt =====
-- ListWithdrawals of internal/repository/account.go.
use mathlib.Core.List.{Perm}
use sufirmart.Base.{
  ◌≡◌, refl, true, ◌↔◌, ok, List, map, Str, str_eq, str_eq_iff, pos, ltb_ℤ, ◌≤ℤ◌, arith,
}
use sufirmart.Domain.Amount.{of_numeric}
use sufirmart.Domain.Status.{TransactionStatus}
use sufirmart.Store.{TransactionRow}
use sufirmart.Store.Table.{select}
use sufirmart.Store.Kept.{Kept, select-Kept, and_iff}
use sufirmart.Store.Sort.{newest, sort-perm, newest-Falls, Falls}
use sufirmart.Store.Statement.{Env, World, IsUp, statement_up}
use sufirmart.Account.Rows.{withdrawal_of, settled_of, is_processed}
use sufirmart.Account.{list_withdrawals}

-- A withdrawal of the user that was carried out.
pub record IsWithdrawal (user : Str) (t : TransactionRow) : Type 0 where
  pub owned : t.user_id ≡ user
  pub settled : t.status ≡ TransactionStatus.processed
  pub positive : pos 1 ≤ℤ t.withdraw

pub is_processed_iff :
    (s : TransactionStatus) → (is_processed s ≡ true) ↔ (s ≡ TransactionStatus.processed)
is_processed_iff TransactionStatus.planned = (λ e. cc, λ e. cc)
is_processed_iff TransactionStatus.processed = (λ e. refl, λ e. refl)
is_processed_iff TransactionStatus.canceled = (λ e. cc, λ e. cc)

withdrawal_of_iff :
    (user : Str) (t : TransactionRow) → (withdrawal_of user t ≡ true) ↔ IsWithdrawal user t
withdrawal_of_iff user t =
    let settled = and_iff (str_eq t.user_id user) (is_processed t.status) in
    let tests = and_iff (settled_of user t) (ltb_ℤ (pos 0) t.withdraw) in
    (
      λ e.
          let (row, some_sum) = tests.0 e in
          let (mine, done) = settled.0 row in
          record {
            owned = (str_eq_iff t.user_id user).0 mine;
            settled = (is_processed_iff t.status).0 done;
            positive = ground arith;
          },
      λ h. tests.1 (
        settled.1 ((str_eq_iff t.user_id user).1 h.owned, (is_processed_iff t.status).1 h.settled),
        (let sum = h.positive in ground arith),
      ),
    )

-- With a database that does not fail, ListWithdrawals answers with the rows of the user that are
-- processed and withdraw more than nothing, each as often as it is stored and no other, the latest
-- first, each with its order number, the amount of its withdraw column and its time; and it changes
-- nothing.
pub list_withdrawals_outcome :
    (env : Env) (user : Str) (w : World)
    → IsUp env
    → (stored rows : List TransactionRow) × Kept (IsWithdrawal user) w.transactions stored
      × Perm rows stored
      × Falls (map (λ (t : TransactionRow). t.processed_at) rows)
      × ((list_withdrawals env user w).0
          ≡ ok (
              map
                (λ (t : TransactionRow). record {
                  order_num = t.order_num;
                  sum = of_numeric t.withdraw;
                  processed_at = t.processed_at;
                })
                rows))
      × ((list_withdrawals env user w).1.db ≡ w.db)
unfolding list_withdrawals
list_withdrawals_outcome env user w up = (
  select (withdrawal_of user) w.transactions,
  newest (λ t. t.processed_at) (select (withdrawal_of user) w.transactions),
  select-Kept (IsWithdrawal user) (withdrawal_of user) (withdrawal_of_iff user) w.transactions,
  sort-perm _ (select (withdrawal_of user) w.transactions),
  newest-Falls (λ t. t.processed_at) (select (withdrawal_of user) w.transactions),
  rw (statement_up env up) refl,
  rw (statement_up env up) refl,
)
