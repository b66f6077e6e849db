-- ===== src/Server/System.antt =====
-- The whole service in its steps: requests, the worker pool, tasks and the recovery of pending
-- orders, in any order. A request, a task and a recovery each run as a whole.
use sufirmart.Base.{
  ◌≡◌, ℕ, ◌≤◌, Bool, true, Option, none, some, List, [], ◌∷◌, ◌++◌, Str, Result, ok, err,
}
use sufirmart.Domain.Order.{Order, OrderStatus}
use sufirmart.Store.Statement.{Env, World}
use sufirmart.Store.{Db}
use sufirmart.Store.Triple.{Post}
use sufirmart.Account.Ledger.{IsLedger}
use sufirmart.Accrual.{Reader}
use sufirmart.Orders.{list_by_statuses}
use sufirmart.Orders.Keeps.{list_by_statuses-Keeps}
use sufirmart.Tools.WorkerPool.{Pool, count_tasks}
use sufirmart.Tools.WorkerPool.Drain.{Step, is_own, Reach, step, queue_bounds}
use sufirmart.Processor.{process_order}
use sufirmart.Processor.Safety.{process_order-IsLedger}
use sufirmart.Processor.Queue.{Queued, process, recovered, recover_pending}
use sufirmart.Processor.Queue.Steps.{enqueue-Keeps, recover_pending-Keeps}
use sufirmart.Server.{Request, Site}
use sufirmart.Server.Endpoints.{hand_over}
use sufirmart.Server.Init.{Outside, serve}
use sufirmart.Users.Keeps.{IsOpenTo, IsLedger-IsOpenTo}
use sufirmart.Api.Keeps.{IsHandled, IsLedger-IsHandled}
use sufirmart.Server.Safety.{IsSound, serve-IsSound}

-- A step of the service. The pool's own steps hand tasks to the workers and end them; what a
-- task does is a step between the two, and its end does not ask whether that was done.
pub data SystemStep (c : Outside) (reader : Reader) : Site → Site → Type 0 where
  serves : (s : Site) (req : Request) → SystemStep c reader s (serve c req s).1
  moves :
      (s : Site) (p q : Pool Queued)
      → s.pool ≡ some p
      → Step p q
      → SystemStep c reader s (record s { pool = some q })
  runs :
      (s : Site) (p : Pool Queued) (before after : List Queued) (number : Str) (allow : Bool)
      (done : ℕ → Bool) (fuel : ℕ) (w : World)
      → s.pool ≡ some p
      → p.running ≡ before ++ (number, allow) ∷ after
      → process_order c.env reader done fuel number allow s.world ≡ some w
      → SystemStep c reader s (record s { world = w })
  recovers :
      (s : Site) (p : Pool Queued)
      → s.pool ≡ some p
      → SystemStep c reader s (record s {
        world = (recover_pending c.env s.world p).1;
        pool = some (recover_pending c.env s.world p).2;
      })

-- From a state to one that the service comes to.
pub data SystemRun (c : Outside) (reader : Reader) (s : Site) : Site → Type 0 where
  begin : SystemRun c reader s s
  go_on : {t u : Site} → SystemRun c reader s t → SystemStep c reader t u → SystemRun c reader s u

-- The pool may be nil.
abbrev pub Held : (Pool Queued → Type 0) → Option (Pool Queued) → Type 0
Held Q none = Unit {0}
Held Q (some p) = Q p

abbrev pub PoolReach : ℕ → ℕ → Option (Pool Queued) → Type 0
PoolReach n size = Held (Reach n size)

-- A task that ends keeps `P`.
abbrev pub IsTasked : Env → Reader → (Db → Type 0) → Type 0
IsTasked env reader P =
    (number : Str) (allow : Bool) (done : ℕ → Bool) (fuel : ℕ) (w w' : World)
    → P w.db
    → process_order env reader done fuel number allow w ≡ some w'
    → P w'.db

-- What holds after a result and after an error.
Post-either : {A : Type 0} (P : Db → Type 0) (r : Result A) (d : Db) → Post (λ _. P) P r d → P d
Post-either P (ok _) d h = h
Post-either P (err _) d h = h

-- A step of the pool itself keeps `Q`.
abbrev pub MoveKeeps :
    (Pool Queued → Type 0)
    → {c : Outside} {reader : Reader} {s t : Site} → SystemStep c reader s t
    → Type 0
MoveKeeps Q (serves s req) = Unit {0}
MoveKeeps Q (moves s p q there moved) = Q p → Q q
MoveKeeps Q (runs s p before after number allow done fuel w there taken done_with) = Unit {0}
MoveKeeps Q (recovers s p there) = Unit {0}

module _ (Q : Pool Queued → Type 0)
    (stepped : (p q : Pool Queued) (x : Step p q) → is_own x ≡ true → Q p → Q q) where
  hand_over-Held :
      (number : Option Str) (pool : Option (Pool Queued))
      → Held Q pool
      → Held Q (hand_over number pool)
  unfolding hand_over process
  hand_over-Held none pool h = h
  hand_over-Held (some number) none h = tt
  hand_over-Held (some number) (some p) h = enqueue-Keeps Q stepped number _ p h

  module _ (P : Db → Type 0) where
    recovered-Keeps :
        (r : Result (List Order) × World) (p : Pool Queued) → P r.1.db → P (recovered r p).1.db
    unfolding recovered
    recovered-Keeps (ok orders, w) p h = h
    recovered-Keeps (err e, w) p h = h

    pub move-IsSound :
        {Ready Free : Str → Db → Type 0} (c : Outside) (reader : Reader)
        → IsOpenTo P
        → IsHandled c.env P Ready Free
        → IsTasked c.env reader P
        → {s t : Site} (x : SystemStep c reader s t) → MoveKeeps Q x
        → IsSound P (Held Q) s
        → IsSound P (Held Q) t
    unfolding recover_pending
    move-IsSound c reader stays handled tasked (serves s req) keeps h =
        serve-IsSound P (Held Q) hand_over-Held c stays handled req s h
    move-IsSound c reader stays handled tasked (moves s p q there moved) keeps h =
        (h.0, keeps (rw there at h.1))
    move-IsSound c reader stays handled tasked
          (runs s p before after number allow done fuel w there taken ended) keeps h =
        (tasked number allow done fuel s.world w h.0 ended, h.1)
    move-IsSound c reader stays handled tasked (recovers s p there) keeps h =
        let pending = OrderStatus.new ∷ OrderStatus.processing ∷ [] in
        let listed = list_by_statuses c.env pending s.world in
        (
          recovered-Keeps listed p (
              Post-either P listed.0 listed.1.db
                ((list_by_statuses-Keeps c.env P pending).at s.world h.0)),
          recover_pending-Keeps Q stepped c.env s.world p (rw there at h.1),
        )

module _ (Q : Pool Queued → Type 0) (stepped : (p q : Pool Queued) → Step p q → Q p → Q q) where
  move_keeps :
      {c : Outside} {reader : Reader} {s t : Site} (x : SystemStep c reader s t) → MoveKeeps Q x
  move_keeps (serves s req) = tt
  move_keeps (moves s p q there moved) = stepped p q moved
  move_keeps (runs s p before after number allow done fuel w there taken done_with) = tt
  move_keeps (recovers s p there) = tt

  module _ (P : Db → Type 0) where
    pub step-IsSound :
        {Ready Free : Str → Db → Type 0} (c : Outside) (reader : Reader)
        → IsOpenTo P
        → IsHandled c.env P Ready Free
        → IsTasked c.env reader P
        → {s t : Site} → SystemStep c reader s t
        → IsSound P (Held Q) s
        → IsSound P (Held Q) t
    step-IsSound c reader stays handled tasked x h =
        move-IsSound Q (λ p q y own k. stepped p q y k) P c reader stays handled tasked x
          (move_keeps x) h

    -- What requests and tasks keep, every run of the service keeps.
    pub run-IsSound :
        {Ready Free : Str → Db → Type 0} (c : Outside) (reader : Reader)
        → IsOpenTo P
        → IsHandled c.env P Ready Free
        → IsTasked c.env reader P
        → {s t : Site} → SystemRun c reader s t
        → IsSound P (Held Q) s
        → IsSound P (Held Q) t
    run-IsSound c reader stays handled tasked begin h = h
    run-IsSound c reader stays handled tasked (go_on r x) h =
        step-IsSound c reader stays handled tasked x (run-IsSound c reader stays handled tasked r h)

pub IsLedger-IsTasked : (env : Env) (reader : Reader) → IsTasked env reader IsLedger
IsLedger-IsTasked env reader number allow done fuel w w' h e =
    process_order-IsLedger env reader done fuel number allow w w' h e

-- Whatever requests, tasks and recoveries follow each other, each of them run as a whole, whatever the
-- accrual service answers and whichever statements fail: every balance is the sum of the processed
-- accruals less the processed withdrawals of its user and not negative, and the queue holds no more
-- tasks than its size. The conditions: both held at the start, the pool being one that its steps
-- reach.
pub system_invariant :
    (n size : ℕ) (c : Outside) (reader : Reader) (s t : Site) (p : Pool Queued)
    → SystemRun c reader s t
    → IsLedger s.world.db
    → PoolReach n size s.pool
    → t.pool ≡ some p
    → IsLedger t.world.db × (count_tasks p.tasks ≤ p.queue_size)
system_invariant n size c reader s t p r h reached there =
    let (kept, pool) =
      run-IsSound (Reach n size) (λ p q x h. step h x) IsLedger c reader IsLedger-IsOpenTo
        (IsLedger-IsHandled c.env) (IsLedger-IsTasked c.env reader) r (h, reached) in
    (kept, (queue_bounds n size p (rw there at pool)).0)
