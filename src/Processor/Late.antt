-- ===== src/Processor/Late.antt =====
-- A round of a task of internal/order/processor.go that has waited, whatever other tasks have made of
-- its order meanwhile.
use sufirmart.Base.{
  ◌≡◌, refl, ◌∙◌, ap, ℕ, suc, true, false, some, Str, str_eq, ok, pos, ◌+ℤ◌, ltb_ℤ,
}
use sufirmart.Domain.Amount.{Numeric, fits, to_numeric}
use sufirmart.Domain.Order.{OrderStatus, change_status}
use sufirmart.Domain.Status.{AccrualStatus}
use sufirmart.Store.{Db, OrderRow, TransactionRow, AccountRow}
use sufirmart.Store.Table.{update}
use sufirmart.Store.Statement.{Env, World, IsUp}
use sufirmart.Account.Rows.{find_account, find_transaction}
use sufirmart.Account.Credits.{credits, credits-accrue_new}
use sufirmart.Account.Outcome.{approve_accrual_outcome}
use sufirmart.Account.{approve_transaction}
use sufirmart.Orders.{find_order}
use sufirmart.Accrual.{Accrual, Reader, get}
use sufirmart.Tools.Transaction.{wrap_transaction}
use sufirmart.Processor.{ask, settle, success_order, Task}
use sufirmart.Processor.Calls.{set_status, tx_call_up, save_known}

module _ (env : Env) (up : IsUp env) (reader : Reader) (info : Accrual) (id : Str) (s : Task)
    (row : OrderRow) (taken : s.order.status ≡ OrderStatus.processing)
    (found : find_order s.order.number s.world.orders ≡ some row)
    (own : str_eq row.user_id s.order.user_id ≡ true)
    (answers : (n : ℕ) → reader n s.order.number ≡ ok info)
    (worth : info.status ≡ AccrualStatus.processed) where
  -- The world in which the transaction is approved.
  abbrev pub saved : World
  saved = record (s.world) {
    db = record (s.world.db) {
      orders = set_status s.order.number OrderStatus.processed s.world.orders;
    };
    calls = suc (suc (suc s.world.calls));
  }

  -- The task after the round.
  abbrev pub rounded : Task
  rounded = record {
    world = record ((approve_transaction env id info.value saved).1) {
      calls = suc (approve_transaction env id info.value saved).1.calls;
    };
    order = record (s.order) { status = OrderStatus.processed };
  }

  pub round :
      (approve_transaction env id info.value saved).0 ≡ ok tt
      → ask env reader s.order.number id s ≡ (ok tt, rounded)
  unfolding ask get settle success_order wrap_transaction change_status
  round approved =
      rw
        (
          answers,
          settle,
          worth,
          success_order,
          tx_call_up env up,
          taken,
          save_known env up (record (s.order) { status = OrderStatus.processed }) row
              (record (s.world) { calls = suc (suc s.world.calls) }) found own,
          approved,
          tx_call_up env up,
        )
        refl

  -- A round of a task that has taken its order, and whose service now answers that the order is
  -- processed, credits the owner, whatever status the order and the transaction have in the database
  -- by then: the order has one credit more than before, and the balance rises by the worth in
  -- hundredths. So a task that waits while another one, from a recovery, has its order processed and
  -- its transaction canceled credits the order a second time. The conditions: the database does not
  -- fail, the transaction is one of the order, has no accrual yet and is no withdrawal, the worth is
  -- positive also in hundredths, and the balance stays in the range of its column.
  pub late_round_credits :
      (t : TransactionRow) (a : AccountRow) (c : Numeric)
      → find_transaction id s.world.transactions ≡ some t
      → find_account t.user_id s.world.accounts ≡ some a
      → str_eq t.order_num s.order.number ≡ true
      → ltb_ℤ (pos 0) t.accrual ≡ false
      → ltb_ℤ (pos 0) t.withdraw ≡ false
      → ltb_ℤ (pos 0) info.value ≡ true
      → to_numeric info.value ≡ ok c
      → ltb_ℤ (pos 0) c ≡ true
      → fits (a.current_balance +ℤ c) ≡ true
      → ((ask env reader s.order.number id s).0 ≡ ok tt)
        × (credits s.order.number (ask env reader s.order.number id s).1.world.transactions
            ≡ suc (credits s.order.number s.world.transactions))
        × ((ask env reader s.order.number id s).1.world.accounts
            ≡ update
                (λ (r : AccountRow). r.user_id)
                t.user_id
                (λ r. record r { current_balance = a.current_balance +ℤ c })
                s.world.accounts)
  late_round_credits t a c planned account named empty unspent worthy stored counts range =
      let outcome =
        approve_accrual_outcome env up id info.value c saved t a planned account unspent worthy
          stored range in
      let ends = round outcome.0 in
      (
        ap (λ r. r.0) ends,
        ap (λ r. credits s.order.number r.1.world.transactions) ends
            ∙ ap (λ (d : Db). credits s.order.number d.transactions) outcome.1
            ∙ credits-accrue_new s.order.number id _ c _ t planned named empty counts,
        ap (λ r. r.1.world.accounts) ends ∙ ap (λ (d : Db). d.accounts) outcome.1,
      )
