-- ===== src/Processor/Calls.antt =====
-- The calls of internal/order/processor.go on a database that does not fail.
use sufirmart.Base.{◌≡◌, refl, suc, true, some, List, Str, str_eq, ok}
use sufirmart.Domain.Order.{Order, OrderStatus}
use sufirmart.Store.{OrderRow}
use sufirmart.Store.Table.{update}
use sufirmart.Store.Statement.{Env, World, IsUp, statement_up}
use sufirmart.Orders.{save, save_order, find_order}
use sufirmart.Tools.Transaction.{tx_call}

-- A row of the orders with another status.
abbrev pub set_status : Str → OrderStatus → List OrderRow → List OrderRow
set_status number status =
    update (λ (o : OrderRow). o.order_num) number (λ o. record o { status = status })

-- The world after touchOrder.
abbrev pub touched : Str → World → World
touched number w = record w {
  db = record w.db { orders = set_status number OrderStatus.processing w.orders };
  calls = suc (suc (suc (suc w.calls)));
}

module _ (env : Env) (up : IsUp env) where
  pub tx_call_up : (w : World) → tx_call env w ≡ (ok tt, record w { calls = suc w.calls })
  unfolding tx_call
  tx_call_up w = rw (statement_up env up) refl

  pub save_known :
      (o : Order) (row : OrderRow) (w : World)
      → find_order o.number w.orders ≡ some row
      → str_eq row.user_id o.user_id ≡ true
      → save env o w ≡ (
        ok tt,
        record w {
          db = record w.db { orders = set_status o.number o.status w.orders };
          calls = suc w.calls;
        },
      )
  unfolding save save_order
  save_known o row w found own = rw (statement_up env up, save_order, found, own) refl
