-- ===== src/Tests/Credits.antt =====
-- A task that credits an order, as a step of the service.
use sufirmart.Base.{
  if◌then◌else◌, ◌≡◌, refl, ◌≤◌, true, suc, ok, ◌+ℤ◌, false, some, none, [], ◌∷◌, str_eq, bytes,
  arith, pos,
}
use sufirmart.Store.Table.{find, update}
use sufirmart.Store.Statement.{World}
use sufirmart.Account.Rows.{find_transaction}
use sufirmart.Account.Credits.{credits}
use sufirmart.Orders.{find_order}
use sufirmart.Orders.Once.{IsOnce, may_begin}
use sufirmart.Tools.WorkerPool.{Pool, new_pool, start, start_from, begin_from, send_when, taken}
use sufirmart.Tools.WorkerPool.Drain.{Reach, fresh, starts, takes, step}
use sufirmart.Processor.Queue.{Queued, enqueue}
use sufirmart.Processor.Queue.Steps.{enqueue-Keeps}
use sufirmart.Domain.Order.{OrderStatus}
use sufirmart.Domain.Status.{TransactionStatus}
use sufirmart.Store.{OrderRow, TransactionRow, AccountRow}
use sufirmart.Processor.Late.{late_round_credits}
use sufirmart.Processor.{process_order, ask, Task}
use sufirmart.Processor.Credit.{process_order_credits}
use sufirmart.Server.{Site}
use sufirmart.Server.System.{SystemRun, begin, go_on, runs}
use sufirmart.Server.Once.{credited_once}
use sufirmart.Tests.Sample.{
  calm, calm-IsUp, ann, ann_row, ann_account, order_row, number, world, spending, bonus,
}
use sufirmart.Tests.Requests.{container, site}
use sufirmart.Tests.Tasks.{
  service, answer, patient, order-found, ann-valid, ann-registered, ann-account, stored, range,
}

abbrev fair_world : World
fair_world = record world { db = record (world.db) { transactions = spending ∷ bonus ∷ [] } }

IsOnce-fair_world : IsOnce fair_world.db
unfolding credits find
IsOnce-fair_world = record { bound = λ n. ground arith }

unused : find_transaction (bytes "fresh") fair_world.transactions ≡ none
unfolding find str_eq
unused = refl

abbrev busy : Pool Queued
busy = taken (number, false) [] (enqueue number false (start (new_pool 1 1)))

busy-Reach : Reach 1 1 busy
unfolding enqueue begin_from send_when start_from
busy-Reach =
    step
      (enqueue-Keeps (Reach 1 1) (λ p q x own h. step h x) number false _
        (step fresh (starts (new_pool 1 1))))
      (takes _ (number, false) [] refl (omega arith))

busy-running : busy.running ≡ (number, false) ∷ []
unfolding enqueue begin_from send_when start_from
busy-running = refl

abbrev before : Site
before = record site { world = fair_world; pool = some busy }

abbrev credited_world : World
credited_world =
    (process_order_credits calm calm-IsUp false fair_world order_row order-found ann-valid refl
      ann_row unused ann-registered service answer patient 0 ann_account (pos 729) (λ n. refl) refl
      refl stored ann-account range).0

credited-ended : process_order calm service patient 1 number false fair_world ≡ some credited_world
credited-ended =
    (process_order_credits calm calm-IsUp false fair_world order_row order-found ann-valid refl
      ann_row unused ann-registered service answer patient 0 ann_account (pos 729) (λ n. refl) refl
      refl stored ann-account range).1

abbrev after_task : Site
after_task = record before { world = credited_world }

ran : SystemRun container service before after_task
ran =
    go_on begin (
      runs before busy [] [] number false patient 1 credited_world refl busy-running credited-ended)

credited_once_example :
    credits number after_task.world.transactions
    ≤ (if may_begin (find_order number after_task.world.orders) then 0 else 1)
credited_once_example =
    credited_once 1 1 container service before after_task number ran IsOnce-fair_world busy-Reach

-- Another task has had the order processed: it has canceled the waiting task's transaction and has
-- credited one of its own.
abbrev canceled_row : TransactionRow
canceled_row = record bonus { status = TransactionStatus.canceled }

abbrev paid_row : TransactionRow
paid_row = record bonus { id = bytes "p"; accrual = pos 729; status = TransactionStatus.processed }

abbrev processed_row : OrderRow
processed_row = record order_row { status = OrderStatus.processed }

abbrev paid_world : World
paid_world = record world {
  db = record (world.db) {
    orders = processed_row ∷ [];
    transactions = canceled_row ∷ paid_row ∷ [];
  };
}

abbrev late_task : Task
late_task = record {
  world = paid_world;
  order = record {
    user_id = ann;
    number = number;
    status = OrderStatus.processing;
    uploaded_at = 3;
    accrual = none;
  };
}

late-order : find_order number paid_world.orders ≡ some processed_row
unfolding find str_eq
late-order = refl

late-transaction : find_transaction (bytes "b") paid_world.transactions ≡ some canceled_row
unfolding find str_eq
late-transaction = refl

late-own : str_eq ann ann ≡ true
unfolding str_eq
late-own = refl

late-number : str_eq number number ≡ true
unfolding str_eq
late-number = refl

credited_before : credits number paid_world.transactions ≡ 1
unfolding credits str_eq
credited_before = refl

late_round_credits_example :
    ((ask calm service number (bytes "b") late_task).0 ≡ ok tt)
    × (credits number (ask calm service number (bytes "b") late_task).1.world.transactions
        ≡ suc (credits number paid_world.transactions))
    × ((ask calm service number (bytes "b") late_task).1.world.accounts
        ≡ update
            (λ (r : AccountRow). r.user_id)
            ann
            (λ r. record r { current_balance = pos 500 +ℤ pos 729 })
            paid_world.accounts)
late_round_credits_example =
    late_round_credits calm calm-IsUp service answer (bytes "b") late_task processed_row refl
      late-order late-own (λ n. refl) refl canceled_row ann_account (pos 729) late-transaction
      ann-account late-number refl refl refl stored refl range
