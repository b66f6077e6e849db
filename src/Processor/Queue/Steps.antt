-- ===== src/Processor/Queue/Steps.antt =====
-- What internal/order/processor.go does to the worker pool is made of the pool's own steps.
use sufirmart.Base.{
  inl, inr, ◌≡◌, refl, ℕ, suc, ◌≤◌, Bool, true, Option-cases, some, List, [], ◌∷◌, Str, Result, ok,
  err, arith,
}
use sufirmart.Domain.Order.{Order, OrderStatus}
use sufirmart.Store.Statement.{Env, World}
use sufirmart.Orders.{list_by_statuses}
use sufirmart.Tools.WorkerPool.{Pool, PoolState, begin_from, begin_add, count_call, count_tasks}
use sufirmart.Tools.WorkerPool.Drain.{
  Step, is_own, Reach, begins, counts, sends, step, queue_bounds,
}
use sufirmart.Processor.Queue.{Queued, enqueue, enqueue_all, recovered, recover_pending}

begin_from-checked :
    {A : Type 0} (s : PoolState) (p q : Pool A) → begin_from s p ≡ some q → 1 ≤ q.checked
unfolding begin_from
begin_from-checked PoolState.init p q e =
    let same : record p { checked = suc p.checked } ≡ q = cc in rw (← same) (omega arith)
begin_from-checked PoolState.started p q e =
    let same : record p { checked = suc p.checked } ≡ q = cc in rw (← same) (omega arith)
begin_from-checked PoolState.stopped p q e = cc

-- What the pool's steps but Start and Stop keep, queueing keeps.
module _ (Q : Pool Queued → Type 0)
    (stepped : (p q : Pool Queued) (x : Step p q) → is_own x ≡ true → Q p → Q q) where
  pub enqueue-Keeps :
      (number : Str) (allow : Bool) (p : Pool Queued) → Q p → Q (enqueue number allow p)
  unfolding enqueue
  enqueue-Keeps number allow p r = elim (Option-cases (begin_add p)) [
    | inl refused ↦ rw (refused, enqueue) r
    | inr (q, passed) ↦
        rw (passed, enqueue)
          (stepped _ _ (sends (count_call q) (number, allow) (omega arith)) refl (
            stepped _ _ (counts q (begin_from-checked p.state p q passed)) refl
              (stepped _ _ (begins p q passed) refl r)))
  ]

  enqueue_all-Keeps : (orders : List Order) (p : Pool Queued) → Q p → Q (enqueue_all orders p)
  unfolding enqueue_all
  enqueue_all-Keeps [] p r = r
  enqueue_all-Keeps (o ∷ orders) p r =
      enqueue_all-Keeps orders (enqueue o.number true p) (enqueue-Keeps o.number true p r)

  recovered-Keeps : (r : Result (List Order) × World) (p : Pool Queued) → Q p → Q (recovered r p).2
  unfolding recovered
  recovered-Keeps (ok orders, w) p r = enqueue_all-Keeps orders p r
  recovered-Keeps (err e, w) p r = r

  pub recover_pending-Keeps :
      (env : Env) (w : World) (p : Pool Queued) → Q p → Q (recover_pending env w p).2
  unfolding recover_pending
  recover_pending-Keeps env w p r =
      recovered-Keeps (list_by_statuses env (OrderStatus.new ∷ OrderStatus.processing ∷ []) w) p r

-- RecoverPending changes the pool by its own steps only, whatever the database answers: a pool that
-- can be reached is taken to one that can be reached. So the queue stays in its bounds, also where
-- more orders are pending than it has room for.
pub recover_pending-Reach :
    (n size : ℕ) (env : Env) (w : World) (p : Pool Queued)
    → Reach n size p
    → Reach n size (recover_pending env w p).2
      × (count_tasks (recover_pending env w p).2.tasks ≤ (recover_pending env w p).2.queue_size)
recover_pending-Reach n size env w p r =
    let reached = recover_pending-Keeps (Reach n size) (λ p q x own h. step h x) env w p r in
    (reached, (queue_bounds n size _ reached).0)
