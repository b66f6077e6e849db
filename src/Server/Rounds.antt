-- ===== src/Server/Rounds.antt =====
-- The service with tasks of internal/order/processor.go that take turns: between two rounds of a task
-- there may be requests, recoveries and rounds of other tasks.
pub mod Apart
pub mod Safety
pub mod Invariant
pub mod Whole
use sufirmart.Base.{
  ◌≡◌, ℕ, ◌+◌, Bool, true, false, Error, Option, none, some, List, [], ◌∷◌, ◌++◌, Str, Result, ok,
  err,
}
use sufirmart.Domain.Order.{Order}
use sufirmart.Store.Statement.{World}
use sufirmart.Accrual.{Reader}
use sufirmart.Tools.WorkerPool.{Pool}
use sufirmart.Tools.Repeater.Turns.{Turn, goes, returns, turn}
use sufirmart.Processor.Strategy.{AdaptiveStrategy, adaptive, new_adaptive_strategy, second}
use sufirmart.Processor.Queue.{Queued}
use sufirmart.Processor.{Task, ask, prepare, conclude_order}
use sufirmart.Server.{Site}
use sufirmart.Server.Init.{Outside}
use sufirmart.Server.System.{SystemStep, runs}

-- A task after its transaction is planned: the order that it holds, the attempt that comes next with
-- the state of the strategy, and what Repeat has returned.
pub record Waiting : Type 0 where
  pub number : Str
  pub id : Str
  pub done : ℕ → Bool
  pub order : Order
  pub attempt : ℕ
  pub strategy : AdaptiveStrategy
  pub result : Option (Result (Unit {0}))

-- The service and its tasks that wait.
pub record Busy : Type 0 where
  pub site : Site
  pub waiting : List Waiting

abbrev pub with_world : World → List Waiting → Busy → Busy
with_world w waiting b = record { site = record (b.site) { world = w }; waiting = waiting }

-- A task that processOrder has prepared.
abbrev pub prepared : Str → (ℕ → Bool) → Order → Str → Waiting
prepared number done order id = record {
  number = number;
  id = id;
  done = done;
  order = order;
  attempt = 1;
  strategy = new_adaptive_strategy second 0;
  result = none;
}

module _ (c : Outside) (reader : Reader) where
  -- A round of Repeat for a task; Repeat reads the limit of the attempts once, before its rounds.
  abbrev pub turn_of : Waiting → World → Turn AdaptiveStrategy Task (Unit {0})
  turn_of x w =
      turn adaptive x.done (ask c.env reader x.number x.id)
        (adaptive.attempts (new_adaptive_strategy second 0)) x.attempt x.strategy
        (record { world = w; order = x.order })

  -- The service after the round; `others` are the tasks that wait meanwhile.
  abbrev pub after_turn :
      Waiting → List Waiting → Busy → Turn AdaptiveStrategy Task (Unit {0}) → Busy
  after_turn x others b (goes e t s) =
      with_world s.world
        (record x { order = s.order; attempt = x.attempt + 1; strategy = t } ∷ others) b
  after_turn x others b (returns o) =
      with_world o.state.world
        (record x { order = o.state.order; strategy = o.strategy; result = some o.result } ∷ others)
        b

  -- A step of the service that is no task.
  abbrev pub is_task : {s t : Site} → SystemStep c reader s t → Bool
  is_task (runs s p before after number allow done fuel w there taken ended) = true
  is_task _ = false

  -- A step: a request, a recovery or a step of the pool, the start of a task, of which the order may
  -- be refused, one round of a task, or its end. The pool's steps and those of the tasks are not tied
  -- to each other: a worker's task may begin more than once, and be over for the pool while it waits.
  -- So there are more runs here than the code has.
  pub data RoundStep : Busy → Busy → Type 0 where
    whole :
        (b : Busy) (t : Site) (x : SystemStep c reader b.site t)
        → is_task x ≡ false
        → RoundStep b (record b { site = t })
    declines :
        (b : Busy) (p : Pool Queued) (before after : List Queued) (number : Str) (allow : Bool)
        (e : Error) (w : World)
        → b.site.pool ≡ some p
        → p.running ≡ before ++ (number, allow) ∷ after
        → prepare c.env number allow b.site.world ≡ (err e, w)
        → RoundStep b (with_world w b.waiting b)
    begins :
        (b : Busy) (p : Pool Queued) (before after : List Queued) (number : Str) (allow : Bool)
        (done : ℕ → Bool) (order : Order) (id : Str) (w : World)
        → b.site.pool ≡ some p
        → p.running ≡ before ++ (number, allow) ∷ after
        → prepare c.env number allow b.site.world ≡ (ok (order, id), w)
        → RoundStep b (with_world w (prepared number done order id ∷ b.waiting) b)
    rounds :
        (b : Busy) (before after : List Waiting) (x : Waiting)
        → b.waiting ≡ before ++ x ∷ after
        → x.result ≡ none
        → RoundStep b (after_turn x (before ++ after) b (turn_of x b.site.world))
    concludes :
        (b : Busy) (before after : List Waiting) (x : Waiting) (r : Result (Unit {0}))
        → b.waiting ≡ before ++ x ∷ after
        → x.result ≡ some r
        → RoundStep b (
            with_world
              (conclude_order c.env x.id r (record { world = b.site.world; order = x.order }))
              (before ++ after)
              b)

  pub data RoundRun (b : Busy) : Busy → Type 0 where
    at_once : RoundRun b b
    then_step : {d e : Busy} → RoundRun b d → RoundStep d e → RoundRun b e
