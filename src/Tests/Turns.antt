-- ===== src/Tests/Turns.antt =====
-- A task of internal/order/processor.go as a whole and in its rounds.
use sufirmart.Base.{◌≡◌, refl, ◌≤◌, false, some, [], ◌∷◌, arith, Str, ok}
use sufirmart.Domain.Order.{Order}
use sufirmart.Store.{OrderRow}
use sufirmart.Store.Statement.{World}
use sufirmart.Orders.{find_order}
use sufirmart.Orders.Progress.{Comes}
use sufirmart.Server.Progress.{orders_progress}
use sufirmart.Account.Ledger.{IsLedger}
use sufirmart.Account.Awaits.{AllPending}
use sufirmart.Tools.WorkerPool.{
  Pool, count_tasks, new_pool, start, start_from, begin_from, send_when, taken,
}
use sufirmart.Tools.WorkerPool.Drain.{Reach, fresh, starts, takes, step}
use sufirmart.Tools.Repeater.Turns.{Turn, goes, returns}
use sufirmart.Processor.Strategy.{AdaptiveStrategy}
use sufirmart.Processor.{Task, prepare}
use sufirmart.Processor.Queue.{Queued, enqueue}
use sufirmart.Processor.Queue.Steps.{enqueue-Keeps}
use sufirmart.Processor.Prepared.{processing_order, planned, cleared, prepare_new}
use sufirmart.Server.{Site}
use sufirmart.Server.System.{SystemRun, begin, go_on, runs}
use sufirmart.Server.Rounds.{
  Waiting, Busy, RoundRun, at_once, then_step, begins, rounds, with_world, prepared, after_turn,
  turn_of,
}
use sufirmart.Server.Rounds.Apart.{Awaited}
use sufirmart.Server.Rounds.Invariant.{interleaved_invariant}
use sufirmart.Server.Rounds.Whole.{SystemRun-RoundRun}
use sufirmart.Tests.Sample.{calm, calm-IsUp, ann_row, order_row, number, world, world-IsLedger}
use sufirmart.Tests.Requests.{container, site}
use sufirmart.Tests.Tasks.{
  service, patient, order-found, ann-valid, ann-registered, unused, done_world, done_world-reached,
}

-- One worker has the task of the order.
abbrev busy : Pool Queued
busy = taken (number, false) [] (enqueue number false (start (new_pool 1 1)))

busy-Reach : Reach 1 1 busy
unfolding enqueue begin_from send_when start_from
busy-Reach =
    step
      (enqueue-Keeps (Reach 1 1) (λ p q x own h. step h x) number false _
        (step fresh (starts (new_pool 1 1))))
      (takes _ (number, false) [] refl (omega arith))

busy-running : busy.running ≡ (number, false) ∷ []
unfolding enqueue begin_from send_when start_from
busy-running = refl

abbrev opened : Site
opened = record site { world = world; pool = some busy }

abbrev idle : Busy
idle = record { site = opened; waiting = [] }

abbrev order : Order
order = processing_order calm calm-IsUp false world order_row order-found ann-valid refl

abbrev id : Str
id = calm.uuid (cleared calm calm-IsUp false world order_row order-found ann-valid refl).calls

abbrev first_world : World
first_world =
    planned calm calm-IsUp false world order_row order-found ann-valid refl ann_row unused
      ann-registered

ready : prepare calm number false world ≡ (ok (order, id), first_world)
ready =
    prepare_new calm calm-IsUp false world order_row order-found ann-valid refl ann_row unused
      ann-registered

abbrev waiting_task : Waiting
waiting_task = prepared number patient order id

abbrev begun : Busy
begun = with_world first_world (waiting_task ∷ []) idle

abbrev turned : Busy
turned =
    after_turn container service waiting_task [] begun
      (turn_of container service waiting_task first_world)

took_turn : RoundRun container service idle turned
took_turn =
    then_step
      (then_step at_once
        (begins idle busy [] [] number false patient order id first_world refl busy-running ready))
      (rounds begun [] [] waiting_task refl refl)

turned-pool : turned.site.pool ≡ some busy
turned-pool = same (turn_of container service waiting_task first_world)
  where
    same :
        (t : Turn AdaptiveStrategy Task (Unit {0}))
        → (after_turn container service waiting_task [] begun t).site.pool ≡ some busy
    same (goes e t s) = refl
    same (returns o) = refl

interleaved_invariant_example :
    IsLedger turned.site.world.db
    × (count_tasks busy.tasks ≤ busy.queue_size)
    × AllPending (Awaited turned.waiting) turned.site.world.db
interleaved_invariant_example =
    interleaved_invariant 1 1 container service opened turned busy took_turn world-IsLedger
      busy-Reach turned-pool

abbrev done_site : Site
done_site = record opened { world = done_world }

ran_whole : SystemRun container service opened done_site
ran_whole =
    go_on begin (
      runs opened busy [] [] number false patient 1 done_world refl busy-running done_world-reached)

whole_in_rounds : RoundRun container service idle (record { site = done_site; waiting = [] })
whole_in_rounds = SystemRun-RoundRun container service [] opened done_site ran_whole

orders_progress_example :
    (row' : OrderRow) × (find_order number done_world.orders ≡ some row') × Comes order_row row'
orders_progress_example =
    orders_progress container service opened done_site number order_row ran_whole order-found
