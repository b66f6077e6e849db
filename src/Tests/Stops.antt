-- ===== src/Tests/Stops.antt =====
-- The end of the process: run of cmd/gophermart/main.go.
use sufirmart.Base.{◌≡◌, ◌≤◌, refl, ◌||◌, true, false, none, some, [], arith}
use sufirmart.Account.Ledger.{IsLedger}
use sufirmart.Tools.WorkerPool.{
  Pool, PoolState, new_pool, start, start_from, begin_stop, stop_from, left,
}
use sufirmart.Tools.WorkerPool.Drain.{fresh, leaves}
use sufirmart.Tools.WorkerPool.Done.{IsDone}
use sufirmart.Processor.Queue.{Queued}
use sufirmart.Server.{Site}
use sufirmart.Server.System.{moves}
use sufirmart.Startup.Process.{
  Process, ProcessRun, waiting, serving, shutting_down, stopped, gone, start_process, begin_server,
  start_pool, end_server, stop_workers, stop_pool, finds_started, is_started, begins_serving,
  listens, serve_closes, works, signalled, stop_begins, stop_ends, shuts_down, shutdown_ends,
  unmoved, moved_on, returned,
}
use sufirmart.Startup.Early.{stop_before_start}
use sufirmart.Startup.Shutdown.{is_error, run_returns}
use sufirmart.Store.Statement.{World}
use sufirmart.Store.Table.{find, select}
use sufirmart.Account.Rows.{sum_net}
use sufirmart.Account.Credits.{credits}
use sufirmart.Orders.Once.{IsOnce}
use sufirmart.Tests.Sample.{world, number}
use sufirmart.Tests.Requests.{container, site}
use sufirmart.Tests.Tasks.{service}

-- A world in which nothing was accrued or withdrawn yet.
abbrev first_world : World
first_world = record world { db = record (world.db) { transactions = []; accounts = [] } }

first_world-IsLedger : IsLedger first_world.db
unfolding find select sum_net
first_world-IsLedger = record { rows = tt; balanced = λ v. refl; solvent = λ v. omega arith }

first_world-IsOnce : IsOnce first_world.db
unfolding credits
first_world-IsOnce = record { bound = λ n. omega arith }

abbrev opened_site : Site
opened_site = record site { world = first_world; pool = some (new_pool 1 1) }

-- A signal comes before the server listens; its one worker leaves, and the process ends.
abbrev asked : Process
asked = record (start_process opened_site) { cancelled = true }

abbrev served : Process
served = record (begin_server asked) { server = serving }

abbrev stopping_now : Process
stopping_now = stop_workers served

abbrev idle_pool : Pool Queued
idle_pool = left (begin_stop (start (new_pool 1 1)))

abbrev idle : Process
idle = record stopping_now { site = record opened_site { pool = some idle_pool } }

abbrev shut_down : Process
shut_down = record idle { shut = true; stopper = shutting_down }

abbrev at_end : Process
at_end = record (end_server none shut_down) { stopper = gone }

ran_up : ProcessRun container service (start_process opened_site) served
unfolding begin_server start_pool start_from
ran_up =
    moved_on
      (moved_on (moved_on unmoved (signalled (start_process opened_site)))
        (begins_serving asked refl))
      (listens (begin_server asked) refl)

ran_out : ProcessRun container service served at_end
unfolding begin_server start_pool stop_workers stop_pool finds_started is_started end_server
    start_from stop_from
ran_out =
    moved_on
      (moved_on
        (moved_on
          (moved_on
            (moved_on (moved_on unmoved (stop_begins served refl refl)) (
              works stopping_now (idle.site)
                (moves stopping_now.site (begin_stop (start (new_pool 1 1))) idle_pool refl
                  (leaves (begin_stop (start (new_pool 1 1))) refl refl (omega arith)))
                refl))
            (stop_ends idle refl refl))
          (shuts_down (record idle { stopper = stopped }) refl))
        (serve_closes shut_down refl refl))
      (shutdown_ends (end_server none shut_down) refl)

served-there : served.site.pool ≡ some (start (new_pool 1 1))
unfolding begin_server start_pool
served-there = refl

served-waiting : served.stopper ≡ waiting
unfolding begin_server
served-waiting = refl

first_pool-started : (start (new_pool {A = Queued} 1 1)).state ≡ PoolState.started
unfolding start_from
first_pool-started = refl

ended-well : returned at_end.server at_end.stopper ≡ some none
unfolding end_server returned
ended-well = refl

idle-there : at_end.site.pool ≡ some idle_pool
unfolding end_server
idle-there = refl

run_returns_example :
    IsDone idle_pool
    × IsLedger at_end.site.world.db
    × (credits number at_end.site.world.transactions ≤ 1)
    × (is_error none || at_end.shut ≡ true)
run_returns_example =
    run_returns 1 1 container service opened_site served at_end (start (new_pool 1 1)) idle_pool
      none number ran_up served-waiting served-there first_pool-started ran_out first_world-IsLedger
      first_world-IsOnce fresh ended-well idle-there

-- A signal that comes before the pool is started.
unstarted : (new_pool {A = Queued} 1 1).state ≡ PoolState.init
unstarted = refl

stop_before_start_example :
    (m : Process) × ProcessRun container service (start_process opened_site) m
    × (returned m.server m.stopper ≡ some none)
    × (m.site.pool ≡ some (start (new_pool 1 1)))
    × ((start (new_pool {A = Queued} 1 1)).state ≡ PoolState.started)
    × ((start (new_pool {A = Queued} 1 1)).closed ≡ false)
stop_before_start_example = stop_before_start container service opened_site (new_pool 1 1) unstarted
