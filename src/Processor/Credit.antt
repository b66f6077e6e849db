-- ===== src/Processor/Credit.antt =====
-- A task of internal/order/processor.go for a new order that is worth something, with a database that
-- does not fail.
use sufirmart.Base.{
  ◌≡◌, refl, ap, ◌∙◌, ℕ, suc, Bool, true, none, some, str_eq_refl, bytes, ok, pos, ◌+ℤ◌, ltb_ℤ, Str,
}
use sufirmart.Domain.Amount.{Numeric, fits, to_numeric}
use sufirmart.Domain.Order.{Order, OrderStatus}
use sufirmart.Domain.Status.{AccrualStatus}
use sufirmart.Domain.UserId.{new_user_id}
use sufirmart.Store.{Db, UserRow, OrderRow, AccountRow}
use sufirmart.Store.Table.{find, update, find-update}
use sufirmart.Account.Rows.{find_account, find_transaction}
use sufirmart.Account.Register.{planned_row, find-planned_row}
use sufirmart.Store.Statement.{Env, World, IsUp}
use sufirmart.Orders.{find_order}
use sufirmart.Account.{approve_transaction}
use sufirmart.Accrual.{Accrual, Reader}
use sufirmart.Tools.Repeater.Bounds.{repeat_once}
use sufirmart.Account.Outcome.{approve_accrual_outcome}
use sufirmart.Processor.Strategy.{adaptive, new_adaptive_strategy, second}
use sufirmart.Processor.{after_prepare, poll, conclude_order, process_order, ask, Task}
use sufirmart.Processor.Late.{rounded, round}
use sufirmart.Processor.Calls.{set_status}
use sufirmart.Processor.Prepared.{processing_order, cleared, planned, unused_still, prepare_new}

module _ (env : Env) (up : IsUp env) where
  module _ (allow : Bool) (w : World) (o : OrderRow)
      (found : find_order o.order_num w.orders ≡ some o)
      (owned : new_user_id o.user_id ≡ ok o.user_id) (fresh : o.status ≡ OrderStatus.new) where
    module _ (u : UserRow)
        (unused : find_transaction
            (env.uuid (cleared env up allow w o found owned fresh).calls)
            w.transactions
          ≡ none)
        (known : find (λ (v : UserRow). v.id) o.user_id w.users ≡ some u) where
      -- The world in which the service is asked, the order as taken and the planned transaction.
      abbrev asked_from : World
      asked_from = planned env up allow w o found owned fresh u unused known

      abbrev taken_order : Order
      taken_order = processing_order env up allow w o found owned fresh

      abbrev planned_id : Str
      planned_id = env.uuid (cleared env up allow w o found owned fresh).calls

      -- The task after its transaction is planned, and the world in which it is approved.
      abbrev task : Task
      task = record { world = asked_from; order = taken_order }

      abbrev ending : Reader → World
      ending reader = record asked_from {
        db = record (asked_from.db) {
          orders = set_status o.order_num OrderStatus.processed asked_from.orders;
        };
        calls = suc (suc (suc asked_from.calls));
      }

      saved_row :
          find_order o.order_num asked_from.orders
          ≡ some (record o { status = OrderStatus.processing })
      saved_row =
          rw
            (
              find-update (λ (r : OrderRow). r.order_num) o.order_num o.order_num
                  (λ r. record r { status = OrderStatus.processing }) w.orders (λ r. refl),
              str_eq_refl o.order_num,
              found,
            )
            refl

      last_row :
          find_order o.order_num (set_status o.order_num OrderStatus.processed asked_from.orders)
          ≡ some (record o { status = OrderStatus.processed })
      last_row =
          rw
            (
              find-update (λ (r : OrderRow). r.order_num) o.order_num o.order_num
                  (λ r. record r { status = OrderStatus.processed }) asked_from.orders (λ r. refl),
              str_eq_refl o.order_num,
              saved_row,
            )
            refl

      module _ (reader : Reader) (info : Accrual) (done : ℕ → Bool)
          (answers : (n : ℕ) → reader n o.order_num ≡ ok info)
          (worth : info.status ≡ AccrualStatus.processed)
          (approved : (approve_transaction env planned_id info.value (ending reader)).0
            ≡ ok tt) where
        -- The task after the round.
        abbrev ended : Task
        ended =
            rounded env up reader info planned_id task
              (record o { status = OrderStatus.processing }) refl saved_row (str_eq_refl o.user_id)
              answers worth

        one_round : ask env reader o.order_num planned_id task ≡ (ok tt, ended)
        one_round =
            round env up reader info planned_id task (record o { status = OrderStatus.processing })
              refl saved_row (str_eq_refl o.user_id) answers worth approved

        processed_at_once :
            (fuel : ℕ)
            → process_order env reader done (suc fuel) o.order_num allow w ≡ some ended.world
        unfolding process_order after_prepare poll conclude_order
        processed_at_once fuel =
            rw
              (
                prepare_new env up allow w o found owned fresh u unused known,
                after_prepare,
                poll,
                repeat_once adaptive done (ask env reader o.order_num planned_id) fuel
                    (new_adaptive_strategy second 0) task tt (ap (λ r. r.0) one_round),
                one_round,
              )
              refl

      planned_found :
          (reader : Reader)
          → find_transaction planned_id (ending reader).transactions
            ≡ some (
                planned_row planned_id o.user_id o.order_num
                  (pos 0)
                  (pos 0)
                  (bytes "Order accrual")
                  (env.now (suc (cleared env up allow w o found owned fresh).calls)))
      planned_found reader =
          find-planned_row
            (planned_row planned_id o.user_id o.order_num (pos 0) (pos 0) (bytes "Order accrual")
              (env.now (suc (cleared env up allow w o found owned fresh).calls)))
            (cleared env up allow w o found owned fresh).transactions
            (unused_still env up allow w o found owned fresh u unused known)

      -- A task for a new order that the accrual service answers as processed, with a positive worth,
      -- ends in its first round: the order is processed, and the balance of its owner, and no other,
      -- rises by the worth in hundredths. The conditions: the database does not fail, the owner is
      -- registered with a valid id and has an account whose balance stays in the range of its
      -- column, and the identifier drawn for the transaction is new.
      pub process_order_credits :
          (reader : Reader) (info : Accrual) (done : ℕ → Bool) (fuel : ℕ) (a : AccountRow)
          (c : Numeric)
          → ((n : ℕ) → reader n o.order_num ≡ ok info)
          → info.status ≡ AccrualStatus.processed
          → ltb_ℤ (pos 0) info.value ≡ true
          → to_numeric info.value ≡ ok c
          → find_account o.user_id w.accounts ≡ some a
          → fits (a.current_balance +ℤ c) ≡ true
          → (w' : World) × (process_order env reader done (suc fuel) o.order_num allow w ≡ some w')
            × (find_order o.order_num w'.orders
                ≡ some (record o { status = OrderStatus.processed }))
            × (w'.accounts
                ≡ update
                    (λ (r : AccountRow). r.user_id)
                    o.user_id
                    (λ r. record r { current_balance = a.current_balance +ℤ c })
                    w.accounts)
      process_order_credits reader info done fuel a c answers worth positive stored account range =
          let outcome =
            approve_accrual_outcome env up planned_id info.value c (ending reader) _ a
              (planned_found reader) account refl positive stored range in
          (
            (ended reader info done answers worth outcome.0).world,
            processed_at_once reader info done answers worth outcome.0 fuel,
            ap (λ (d : Db). find_order o.order_num d.orders) outcome.1 ∙ last_row,
            ap (λ (d : Db). d.accounts) outcome.1,
          )
