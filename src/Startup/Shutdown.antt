-- ===== src/Startup/Shutdown.antt =====
-- What has been done when run of cmd/gophermart/main.go returns.
use sufirmart.Base.{◌≡◌, ◌≤◌, ℕ, Bool, true, false, ◌||◌, Option, none, some, Str, arith}
use sufirmart.Account.Ledger.{IsLedger}
use sufirmart.Account.Credits.{credits}
use sufirmart.Accrual.{Reader}
use sufirmart.Users.Keeps.{IsLedger-IsOpenTo}
use sufirmart.Api.Keeps.{IsLedger-IsHandled}
use sufirmart.Orders.Once.{IsOnce, credits-le_one}
use sufirmart.Server.Once.{IsOnce-IsOpenTo, IsOnce-IsHandled, IsOnce-IsTasked}
use sufirmart.Tools.WorkerPool.{Pool, PoolState}
use sufirmart.Tools.WorkerPool.Done.{IsDone}
use sufirmart.Processor.Queue.{Queued}
use sufirmart.Server.{Site}
use sufirmart.Server.Init.{Outside}
use sufirmart.Server.System.{PoolReach, IsLedger-IsTasked}
use sufirmart.Startup.Process.{
  created, listening, serving, ended, waiting, stopping, stopped, shutting_down, gone, Process,
  Process, ProcessRun, unmoved, moved_on, ServerPhase, StopPhase, start_process, returned,
}
use sufirmart.Startup.Orderly.{Over, Found, Closed, at_start}
use sufirmart.Startup.Run.{ProcessRun-IsOrderly}
use sufirmart.Startup.Awaited.{ProcessRun-IsFound}

ProcessRun-append :
    {c : Outside} {reader : Reader} {p q r : Process}
    → ProcessRun c reader p q
    → ProcessRun c reader q r
    → ProcessRun c reader p r
ProcessRun-append x unmoved = x
ProcessRun-append x (moved_on y z) = moved_on (ProcessRun-append x y) z

abbrev pub is_error : Option Str → Bool
is_error none = false
is_error (some e) = true

gone-over :
    (s : ServerPhase) (phase : StopPhase) (e : Option Str) (b : Bool) (q : Pool Queued)
    → returned s phase ≡ some e
    → Over b phase (some q)
    → Found phase b (some q)
    → IsDone q
unfolding returned Over Found
gone-over created phase e b q r h f = cc
gone-over listening phase e b q r h f = cc
gone-over serving phase e b q r h f = cc
gone-over (ended x) waiting e b q r h f = cc
gone-over (ended x) stopping e b q r h f = cc
gone-over (ended x) stopped e b q r h f = cc
gone-over (ended x) shutting_down e b q r h f = cc
gone-over (ended x) gone e false q r h f = cc
gone-over (ended x) gone e true q r h f = h

gone-shut :
    (s : ServerPhase) (phase : StopPhase) (e : Option Str) (shut : Bool)
    → returned s phase ≡ some e
    → Closed s shut
    → is_error e || shut ≡ true
unfolding returned Closed
gone-shut created phase e shut r h = cc
gone-shut listening phase e shut r h = cc
gone-shut serving phase e shut r h = cc
gone-shut (ended x) waiting e shut r h = cc
gone-shut (ended x) stopping e shut r h = cc
gone-shut (ended x) stopped e shut r h = cc
gone-shut (ended x) shutting_down e shut r h = cc
gone-shut (ended none) gone e shut r h = ground arith
gone-shut (ended (some x)) gone e shut r h = ground arith

-- However the server, the requests, the workers, the ticker and the shutdown take turns, and whatever
-- fails: when run returns, the worker pool is closed, no task waits or is with a worker, and as many
-- tasks are over as were accepted; the ledger holds; every order is credited at most once; and if run
-- returns no error, Shutdown was called. The conditions: the run passes a moment at which the pool is
-- started and Stop has not been called; a request, a task and a recovery each run as a whole; and at
-- the start the ledger holds, no order is credited twice or before it is settled, and the pool is one
-- that its steps reach.
pub run_returns :
    (n size : ℕ) (c : Outside) (reader : Reader) (site : Site) (m p : Process)
    (first q : Pool Queued) (e : Option Str) (number : Str)
    → ProcessRun c reader (start_process site) m
    → m.stopper ≡ waiting
    → m.site.pool ≡ some first
    → first.state ≡ PoolState.started
    → ProcessRun c reader m p
    → IsLedger site.world.db
    → IsOnce site.world.db
    → PoolReach n size site.pool
    → returned p.server p.stopper ≡ some e
    → p.site.pool ≡ some q
    → IsDone q
      × IsLedger p.site.world.db
      × (credits number p.site.world.transactions ≤ 1)
      × (is_error e || p.shut ≡ true)
unfolding Found
run_returns n size c reader site m p first q e number run before held started run' ledger once
      reached over there =
    let half =
      ProcessRun-IsOrderly IsLedger n size c reader IsLedger-IsOpenTo (IsLedger-IsHandled c.env)
        (IsLedger-IsTasked c.env reader) run (at_start IsLedger n size site ledger reached) in
    let h =
      ProcessRun-IsOrderly IsLedger n size c reader IsLedger-IsOpenTo (IsLedger-IsHandled c.env)
        (IsLedger-IsTasked c.env reader) run' half in
    let o =
      ProcessRun-IsOrderly IsOnce n size c reader IsOnce-IsOpenTo (IsOnce-IsHandled c.env)
        (IsOnce-IsTasked c.env reader) (ProcessRun-append run run')
        (at_start IsOnce n size site once reached) in
    let found : Found m.stopper m.waits m.site.pool = rw (before, held) started in
    let f : Found p.stopper p.waits p.site.pool =
      ProcessRun-IsFound IsLedger n size c reader IsLedger-IsOpenTo (IsLedger-IsHandled c.env)
        (IsLedger-IsTasked c.env reader) run' half found in
    (
      gone-over p.server p.stopper e p.waits q over (rw there at h.over) (rw there at f),
      h.kept,
      credits-le_one number p.site.world.db o.kept,
      gone-shut p.server p.stopper e p.shut over h.closed,
    )
