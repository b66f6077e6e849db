-- ===== src/Startup/Early.antt =====
-- A signal that comes to run of cmd/gophermart/main.go before the worker pool is started.
use sufirmart.Base.{◌≡◌, refl, ap, true, Option, none, some}
use sufirmart.Accrual.{Reader}
use sufirmart.Tools.WorkerPool.{Pool, PoolState, start, start_from, begin_stop, stop_from}
use sufirmart.Processor.Queue.{Queued}
use sufirmart.Server.{Site}
use sufirmart.Server.Init.{Outside}
use sufirmart.Startup.Process.{
  Process, ProcessRun, serving, shutting_down, stopped, gone, start_process, begin_server,
  start_pool, end_server, stop_workers, stop_pool, finds_started, is_started, may_pass,
  begins_serving, listens, serve_closes, signalled, stop_begins, stop_ends, shuts_down,
  shutdown_ends, unmoved, moved_on, returned,
}

unstarted-passes :
    (s : PoolState) (pool : Option (Pool Queued))
    → s ≡ PoolState.init
    → may_pass (is_started s) pool ≡ true
unfolding is_started
unstarted-passes PoolState.init pool e = refl
unstarted-passes PoolState.started pool e = cc
unstarted-passes PoolState.stopped pool e = refl

stop_from-unstarted : (s : PoolState) (p : Pool Queued) → s ≡ PoolState.init → stop_from s p ≡ p
unfolding stop_from
stop_from-unstarted PoolState.init p e = refl
stop_from-unstarted PoolState.started p e = cc
stop_from-unstarted PoolState.stopped p e = refl

start_from-unstarted :
    (s : PoolState) (p : Pool Queued)
    → s ≡ PoolState.init
    → ((start_from s p).state ≡ PoolState.started) × ((start_from s p).closed ≡ p.closed)
unfolding start_from
start_from-unstarted PoolState.init p e = (refl, refl)
start_from-unstarted PoolState.started p e = cc
start_from-unstarted PoolState.stopped p e = cc

module _ (c : Outside) (reader : Reader) (site : Site) (p : Pool Queued)
    (unstarted : p.state ≡ PoolState.init) where
  abbrev asked : Process
  asked = record (start_process (record site { pool = some p })) { cancelled = true }

  abbrev passed_by : Process
  passed_by = record (stop_workers asked) { stopper = stopped }

  abbrev serving_late : Process
  serving_late = record (begin_server passed_by) { server = serving }

  abbrev shut_late : Process
  shut_late = record serving_late { shut = true; stopper = shutting_down }

  -- The process at its end.
  abbrev pub left_open : Process
  left_open = record (end_server none shut_late) { stopper = gone }

  stop_passes : may_pass (stop_workers asked).waits (stop_workers asked).site.pool ≡ true
  unfolding stop_workers finds_started
  stop_passes = unstarted-passes p.state _ unstarted

  ran_early : ProcessRun c reader (start_process (record site { pool = some p })) left_open
  unfolding begin_server stop_workers end_server
  ran_early =
      moved_on
        (moved_on
          (moved_on
            (moved_on
              (moved_on
                (moved_on
                  (moved_on
                    (moved_on unmoved (signalled (start_process (record site { pool = some p }))))
                    (stop_begins asked refl refl))
                  (stop_ends (stop_workers asked) refl stop_passes))
                (begins_serving passed_by refl))
              (listens (begin_server passed_by) refl))
            (shuts_down serving_late refl))
          (serve_closes shut_late refl refl))
        (shutdown_ends (end_server none shut_late) refl)

  stop_start : start (begin_stop p) ≡ start p
  stop_start = ap (λ q. start q) (stop_from-unstarted p.state p unstarted)

  -- For every pool that has not been started there is a run in which a signal comes first, so that Stop
  -- is called before Start: the run returns no error, and leaves the pool as Start makes it, started,
  -- and closed no more than it was.
  pub stop_before_start :
      (m : Process) × ProcessRun c reader (start_process (record site { pool = some p })) m
      × (returned m.server m.stopper ≡ some none)
      × (m.site.pool ≡ some (start p))
      × ((start p).state ≡ PoolState.started)
      × ((start p).closed ≡ p.closed)
  unfolding begin_server stop_workers end_server start_pool stop_pool returned
  stop_before_start =
      let (begun, open_yet) = start_from-unstarted p.state p unstarted in
      (left_open, ran_early, refl, ap some stop_start, begun, open_yet)
