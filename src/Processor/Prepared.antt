-- ===== src/Processor/Prepared.antt =====
-- How a task of internal/order/processor.go begins for a new order, with a database that does not fail:
-- the order is taken and its transaction planned.
use sufirmart.Base.{
  ◌≡◌, refl, ap, suc, Bool, true, ◌&&◌, none, some, str_eq, str_eq_refl, bytes, ok, pos,
}
use sufirmart.Domain.Order.{Order, OrderStatus, change_status, is_processed}
use sufirmart.Domain.UserId.{new_user_id}
use sufirmart.Store.{UserRow, OrderRow}
use sufirmart.Store.Table.{find, update_where, find-update_where}
use sufirmart.Account.Rows.{find_transaction, is_planned, cancel_row}
use sufirmart.Account.Register.{registered, register_accrual}
use sufirmart.Account.{cancel_planned_transactions_by_order}
use sufirmart.Store.Statement.{Env, World, IsUp, statement_up}
use sufirmart.Orders.{find_order}
use sufirmart.Orders.Lookup.{plain_order, get_by_number-open}
use sufirmart.Tools.Transaction.{wrap_transaction}
use sufirmart.Processor.{touch_body, touch_order, prepare, refuses}
use sufirmart.Processor.Calls.{touched, tx_call_up, save_known}

module _ (env : Env) (up : IsUp env) where
  module _ (allow : Bool) (w : World) (o : OrderRow)
      (found : find_order o.order_num w.orders ≡ some o)
      (owned : new_user_id o.user_id ≡ ok o.user_id) (fresh : o.status ≡ OrderStatus.new) where
    abbrev pub processing_order : Order
    processing_order = record (plain_order o.user_id o) { status = OrderStatus.processing }

    touch_order_new :
        touch_order env o.order_num allow w ≡ (ok processing_order, touched o.order_num w)
    unfolding touch_order touch_body wrap_transaction refuses change_status
    touch_order_new =
        rw
          (
            tx_call_up env up,
            get_by_number-open env up o.order_num true (record w { calls = suc w.calls }) o found
                owned (ap is_processed fresh),
            fresh,
            refuses,
            save_known env up processing_order o (record w { calls = suc (suc w.calls) }) found
                (str_eq_refl o.user_id),
            tx_call_up env up,
          )
          refl

    -- The world after the planned transactions of the order are canceled.
    abbrev pub cleared : World
    cleared = record (touched o.order_num w) {
      db = record ((touched o.order_num w).db) {
        transactions =
            update_where
              (λ t.
                str_eq t.user_id o.user_id && str_eq t.order_num o.order_num && is_planned t.status)
              (cancel_row (env.now (touched o.order_num w).calls) (bytes "recovered duplicate"))
              w.transactions;
      };
      calls = suc (touched o.order_num w).calls;
    }

    module _ (u : UserRow)
        (unused : find_transaction (env.uuid cleared.calls) w.transactions ≡ none)
        (known : find (λ (v : UserRow). v.id) o.user_id w.users ≡ some u) where
      pub unused_still : find_transaction (env.uuid cleared.calls) cleared.transactions ≡ none
      unused_still = find-update_where _ _ _ _ _ unused (λ r. refl)

      abbrev pub planned : World
      planned =
          registered env up o.user_id o.order_num (bytes "Order accrual") cleared u unused_still
            known (pos 0) (pos 0)

      pub prepare_new :
          prepare env o.order_num allow w ≡ (ok (processing_order, env.uuid cleared.calls), planned)
      unfolding prepare cancel_planned_transactions_by_order
      prepare_new =
          rw
            (
              touch_order_new,
              statement_up env up,
              register_accrual env up o.user_id o.order_num (bytes "Order accrual") cleared u
                  unused_still known,
            )
            refl
