-- ===== src/Tests/Tasks.antt =====
-- Tasks: internal/order/processor.go.
use sufirmart.Base.{
  ◌≡◌, refl, ap, inr, arith, ℕ, false, true, some, none, Bool, str_eq, bytes, ok, pos, ◌+ℤ◌,
}
use sufirmart.Domain.Amount.{to_numeric, fits}
use sufirmart.Domain.Order.{OrderStatus}
use sufirmart.Domain.Status.{AccrualStatus}
use sufirmart.Domain.UserId.{new_user_id}
use sufirmart.Store.{UserRow, AccountRow}
use sufirmart.Store.Table.{find, update}
use sufirmart.Store.Statement.{World}
use sufirmart.Account.Rows.{find_transaction, find_account}
use sufirmart.Account.Ledger.{IsLedger}
use sufirmart.Orders.{find_order}
use sufirmart.Accrual.{Accrual, Reader}
use sufirmart.Processor.{process_order}
use sufirmart.Processor.Credit.{process_order_credits}
use sufirmart.Processor.Prepared.{prepare_new}
use sufirmart.Processor.Ends.{process_order_ends, process_order_waits}
use sufirmart.Processor.Safety.{process_order-IsLedger}
use sufirmart.Tests.Sample.{
  calm, calm-IsUp, ann, ann_row, ann_account, order_row, number, world, world-IsLedger,
}

abbrev pub answer : Accrual
answer = record { order_num = number; status = AccrualStatus.processed; value = pos 72900 }

abbrev pub service : Reader
service n k = ok answer

abbrev pub patient : ℕ → Bool
patient n = false

pub order-found : find_order number world.orders ≡ some order_row
unfolding find str_eq
order-found = refl

pub ann-valid : new_user_id ann ≡ ok ann
unfolding new_user_id
ann-valid = refl

pub unused : find_transaction (bytes "fresh") world.transactions ≡ none
unfolding find str_eq
unused = refl

pub ann-registered : find (λ (v : UserRow). v.id) ann world.users ≡ some ann_row
unfolding find str_eq
ann-registered = refl

pub ann-account : find_account ann world.accounts ≡ some ann_account
unfolding find str_eq
ann-account = refl

pub stored : to_numeric (pos 72900) ≡ ok (pos 729)
unfolding to_numeric
stored = refl

pub range : fits (pos 500 +ℤ pos 729) ≡ true
unfolding ◌+ℤ◌
range = refl

process_order_credits_example :
    (w' : World) × (process_order calm service patient 1 number false world ≡ some w')
    × (find_order number w'.orders ≡ some (record order_row { status = OrderStatus.processed }))
    × (w'.accounts
        ≡ update
            (λ (r : AccountRow). r.user_id)
            ann
            (λ r. record r { current_balance = pos 500 +ℤ pos 729 })
            world.accounts)
process_order_credits_example =
    process_order_credits calm calm-IsUp false world order_row order-found ann-valid refl ann_row
      unused ann-registered service answer patient 0 ann_account (pos 729) (λ n. refl) refl refl
      stored ann-account range

abbrev pub done_world : World
done_world =
    (process_order_credits calm calm-IsUp false world order_row order-found ann-valid refl ann_row
      unused ann-registered service answer patient 0 ann_account (pos 729) (λ n. refl) refl refl
      stored ann-account range).0

pub done_world-reached : process_order calm service patient 1 number false world ≡ some done_world
done_world-reached =
    (process_order_credits calm calm-IsUp false world order_row order-found ann-valid refl ann_row
      unused ann-registered service answer patient 0 ann_account (pos 729) (λ n. refl) refl refl
      stored ann-account range).1

process_order-IsLedger_example : IsLedger done_world.db
process_order-IsLedger_example =
    process_order-IsLedger calm service patient 1 number false world done_world world-IsLedger
      done_world-reached

-- A service that is always still working on the order.
abbrev slow_service : Reader
slow_service n k = ok (record answer { status = AccrualStatus.processing })

abbrev cancelled : ℕ → Bool
cancelled n = true

process_order_ends_example :
    (w' : World) × (process_order calm slow_service cancelled 3 number true world ≡ some w')
process_order_ends_example =
    process_order_ends calm slow_service cancelled number true 3 2 world refl (omega arith)
      (omega arith)

process_order_waits_example : process_order calm slow_service patient 100 number false world ≡ none
process_order_waits_example =
    process_order_waits calm slow_service patient number false 100 world _ _
      (ap (λ r. r.0)
        (prepare_new calm calm-IsUp false world order_row order-found ann-valid refl ann_row unused
          ann-registered))
      (λ n. inr refl) (λ i. refl)
