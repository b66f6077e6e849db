-- ===== src/Processor/Queue.antt =====
-- How internal/order/processor.go hands orders to the worker pool: Process, RecoverPending, enqueue.
pub mod Recovery
pub mod Steps
use sufirmart.Base.{Bool, true, false, Option, none, some, List, [], ◌∷◌, Str, Result, ok, err}
use sufirmart.Domain.Order.{Order, OrderStatus}
use sufirmart.Store.Statement.{Env, World}
use sufirmart.Orders.{list_by_statuses}
use sufirmart.Tools.WorkerPool.{Pool, begin_add, count_call, send}

-- A queued task: the order number, and whether an order that is being processed may be taken.
abbrev pub Queued : Type 0
Queued = Str × Bool

-- enqueue, without a step of others in between. What Add returns is only logged.
unfoldable pub enqueue : Str → Bool → Pool Queued → Pool Queued
enqueue number allow_processing p = elim (begin_add p) [
  | none ↦ p
  | some q ↦ (send (number, allow_processing) (count_call q)).1
]

-- Process: the pool may be nil.
unfoldable pub process : Str → Option (Pool Queued) → Option (Pool Queued)
unfolding enqueue
process number none = none
process number (some p) = some (enqueue number false p)

-- The loop of RecoverPending
unfoldable pub enqueue_all : List Order → Pool Queued → Pool Queued
unfolding enqueue
enqueue_all [] p = p
enqueue_all (o ∷ orders) p = enqueue_all orders (enqueue o.number true p)

unfoldable pub recovered :
    Result (List Order) × World → Pool Queued → Result (Unit {0}) × World × Pool Queued
unfolding enqueue_all
recovered (ok orders, w) p = (ok tt, w, enqueue_all orders p)
recovered (err e, w) p = (err e, w, p)

-- RecoverPending
unfoldable pub recover_pending : Env → World → Pool Queued → Result (Unit {0}) × World × Pool Queued
unfolding recovered
recover_pending env w p =
    recovered (list_by_statuses env (OrderStatus.new ∷ OrderStatus.processing ∷ []) w) p
