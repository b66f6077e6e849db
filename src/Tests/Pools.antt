-- ===== src/Tests/Pools.antt =====
-- The worker pool: internal/tools/workerpool/workerpool.go.
use mathlib.Core.List.{Perm}
use sufirmart.Base.{◌-◌, ◌++◌, ok, map, List, ◌≡◌, refl, ℕ, true, [], arith}
use sufirmart.Tools.WorkerPool.{
  Pool, count_tasks, new_pool, start, start_from, begin_from, begin_stop, stop_from, count_call,
  send, send_when, taken, over, left, drained,
}
use sufirmart.Tools.WorkerPool.Drain.{
  Reach, starts, begins, counts, sends, takes, ends, leaves, stops, fresh, step,
}
use sufirmart.Processor.Queue.{Queued, recover_pending}
use sufirmart.Processor.Queue.Recovery.{
  take, pending_task, IsOpenPool, is_pending, recover_pending_outcome,
}
use sufirmart.Domain.UserId.{new_user_id}
use sufirmart.Store.{OrderRow}
use sufirmart.Store.Table.{All, select}
use sufirmart.Store.Sort.{Rises}
use sufirmart.Tests.Sample.{calm, calm-IsUp, world}

-- One worker runs one task and the pool is stopped.
abbrev begun : Pool ℕ
begun = start (new_pool 1 1)

abbrev passed : Pool ℕ
passed = record begun { checked = 1 }

abbrev sent : Pool ℕ
sent = (send 7 (count_call passed)).1

abbrev ran : Pool ℕ
ran = over [] 7 [] (taken 7 [] sent)

abbrev last : Pool ℕ
last = left (begin_stop ran)

sent-Reach : Reach 1 1 sent
unfolding start_from begin_from
sent-Reach =
    step
      (step (step (step fresh (starts _)) (begins begun passed refl)) (counts passed (omega arith)))
      (sends _ 7 (omega arith))

last-Reach : Reach 1 1 last
unfolding start_from send_when stop_from
last-Reach =
    step
      (step
        (step (step sent-Reach (takes sent 7 [] refl (omega arith)))
          (ends (taken 7 [] sent) [] 7 [] refl))
        (stops ran))
      (leaves (begin_stop ran) refl refl (omega arith))

last-drained : drained last ≡ true
unfolding start_from send_when stop_from
last-drained = refl

abbrev queue : Pool Queued
queue = start (new_pool 1 1)

queue-Reach : Reach 1 1 queue
queue-Reach = step fresh (starts (new_pool 1 1))

queue-IsOpen : IsOpenPool queue
unfolding start_from
queue-IsOpen = (refl, refl)

owners-valid : All (λ (o : OrderRow). new_user_id o.user_id ≡ ok o.user_id) world.orders
unfolding new_user_id
owners-valid = (refl, tt)

recover_pending_outcome_example :
    (rows : List OrderRow) × ((recover_pending calm world queue).0 ≡ ok tt)
    × ((recover_pending calm world queue).1 ≡ record world { calls = 1 })
    × ((recover_pending calm world queue).2.tasks
        ≡ queue.tasks ++ take (queue.queue_size - count_tasks queue.tasks) (map pending_task rows))
    × Perm rows (select is_pending world.orders)
    × Rises (map (λ (o : OrderRow). o.uploaded_at) rows)
recover_pending_outcome_example =
    recover_pending_outcome calm world queue calm-IsUp queue-IsOpen owners-valid
