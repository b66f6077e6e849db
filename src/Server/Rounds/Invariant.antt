-- ===== src/Server/Rounds/Invariant.antt =====
-- Every run of the service in which tasks take turns keeps the ledger.
use sufirmart.Base.{◌≡◌, ℕ, ◌≤◌, some, List, [], ◌++◌, Str}
use sufirmart.Account.Ledger.{IsLedger}
use sufirmart.Account.Awaits.{AllPending}
use sufirmart.Accrual.{Reader}
use sufirmart.Api.Keeps.{IsHandled-both, IsLedger-IsHandled}
use sufirmart.Tools.WorkerPool.{Pool, count_tasks}
use sufirmart.Tools.WorkerPool.Drain.{Reach, step, queue_bounds}
use sufirmart.Tools.Repeater.Turns.{Turn, goes, returns}
use sufirmart.Processor.Strategy.{AdaptiveStrategy}
use sufirmart.Processor.{Task}
use sufirmart.Processor.Queue.{Queued}
use sufirmart.Processor.Safety.{process_order-Keeps}
use sufirmart.Processor.Awaits.{AllPending-IsHandled}
use sufirmart.Server.{Site}
use sufirmart.Server.Init.{Outside}
use sufirmart.Server.System.{PoolReach, IsTasked, step-IsSound}
use sufirmart.Server.Rounds.{
  Waiting, Busy, after_turn, turn_of, RoundStep, RoundRun, whole, declines, begins, rounds,
  concludes, at_once, then_step,
}
use sufirmart.Server.Rounds.Apart.{Awaited}
use sufirmart.Server.Rounds.Safety.{
  IsCalm, Calm, Before, Saved, Calm-IsRound, Calm-IsOpenTo, round-IsCalm, conclude-IsCalm,
  begin-IsCalm, refuse-IsCalm,
}

-- What holds between the steps.
abbrev IsKept : ℕ → ℕ → Busy → Type 0
IsKept n size b = IsCalm b.site.world.db b.waiting × PoolReach n size b.site.pool

module _ (n size : ℕ) (c : Outside) (reader : Reader) where
  Calm-IsTasked : (S : Str → Type 0) → IsTasked c.env reader (Calm S)
  Calm-IsTasked S number allow done fuel w w' h e =
      process_order-Keeps c.env (Calm S) (Before c.env S) (Saved c.env S) (Calm-IsRound c.env S)
        reader number allow done fuel w w' h e

  same_pool :
      (x : Waiting) (others : List Waiting) (b : Busy) (t : Turn AdaptiveStrategy Task (Unit {0}))
      → PoolReach n size b.site.pool
      → PoolReach n size (after_turn c reader x others b t).site.pool
  same_pool x others b (goes e t s) h = h
  same_pool x others b (returns o) h = h

  RoundStep-IsKept : {b d : Busy} → RoundStep c reader b d → IsKept n size b → IsKept n size d
  RoundStep-IsKept (whole b t x short) (h, reached) =
      let S = Awaited b.waiting in
      let (calm, pool) =
        step-IsSound (Reach n size) (λ p q x h. step h x) (Calm S) c reader (Calm-IsOpenTo c.env S)
          (IsHandled-both (IsLedger-IsHandled c.env) (AllPending-IsHandled S c.env))
          (Calm-IsTasked S) x ((h.ledger, h.pending), reached) in
      (record { ledger = calm.0; pending = calm.1; apart = h.apart }, pool)
  RoundStep-IsKept (declines b p before after number allow e w there taken failed) (h, reached) =
      (refuse-IsCalm c reader b.waiting b.site.world w number allow e h failed, reached)
  RoundStep-IsKept (begins b p before after number allow done order id w there taken ready)
        (h, reached) =
      (begin-IsCalm c reader b.waiting b.site.world w number allow done order id h ready, reached)
  RoundStep-IsKept (rounds b before after x there going) (h, reached) = (
    round-IsCalm c reader b before after x (rw there at h),
    same_pool x (before ++ after) b (turn_of c reader x b.site.world) reached,
  )
  RoundStep-IsKept (concludes b before after x r there over) (h, reached) =
      (conclude-IsCalm c reader b before after x r (rw there at h), reached)

  RoundRun-IsKept : {b d : Busy} → RoundRun c reader b d → IsKept n size b → IsKept n size d
  RoundRun-IsKept at_once h = h
  RoundRun-IsKept (then_step r x) h = RoundStep-IsKept x (RoundRun-IsKept r h)

-- However requests, recoveries and the rounds of any number of tasks fall between each other, whatever
-- the accrual service answers and whichever statements fail: every balance is the sum of the
-- processed accruals less the processed withdrawals of its user and not negative, the queue holds no
-- more tasks than its size, and the transaction of each task whose order has not come to an end is
-- there and not processed. The conditions: a request and one round of a task each run as a whole; at
-- the start the ledger holds, no task waits, and the pool is one that its steps reach.
pub interleaved_invariant :
    (n size : ℕ) (c : Outside) (reader : Reader) (s : Site) (d : Busy) (p : Pool Queued)
    → RoundRun c reader (record { site = s; waiting = [] }) d
    → IsLedger s.world.db
    → PoolReach n size s.pool
    → d.site.pool ≡ some p
    → IsLedger d.site.world.db
      × (count_tasks p.tasks ≤ p.queue_size)
      × AllPending (Awaited d.waiting) d.site.world.db
interleaved_invariant n size c reader s d p r ledger reached there =
    let (calm, pool) =
      RoundRun-IsKept n size c reader r
        (record { ledger = ledger; pending = λ id h. absurd h; apart = tt }, reached) in
    (calm.ledger, (queue_bounds n size p (rw there at pool)).0, calm.pending)
