-- ===== src/Startup/Run.antt =====
-- Every step of run of cmd/gophermart/main.go keeps what holds at every moment.
use sufirmart.Base.{Str, ◌≡◌, ℕ, Bool, true, false, Option, none, some, arith}
use sufirmart.Store.{Db}
use sufirmart.Accrual.{Reader}
use sufirmart.Users.Keeps.{IsOpenTo}
use sufirmart.Api.Keeps.{IsHandled}
use sufirmart.Tools.WorkerPool.{Pool}
use sufirmart.Tools.WorkerPool.Drain.{Step, Reach, starts, stops, step, stop_drains}
use sufirmart.Tools.WorkerPool.Done.{IsDone, Step-IsDone}
use sufirmart.Processor.Queue.{Queued}
use sufirmart.Server.{Site}
use sufirmart.Server.Init.{Outside}
use sufirmart.Server.Safety.{IsSound}
use sufirmart.Server.System.{SystemStep, Held, PoolReach, IsTasked, step-IsSound}
use sufirmart.Startup.Process.{
  ServerPhase, StopPhase, serving, ended, stopped, shutting_down, gone, Process, ProcessStep,
  ProcessRun, begin_server, start_pool, end_server, stop_workers, stop_pool, may_pass,
  begins_serving, listens, listen_fails, serve_fails, serve_closes, works, signalled, ticker_ends,
  stop_begins, stop_ends, shuts_down, shutdown_ends, unmoved, moved_on,
}
use sufirmart.Startup.Orderly.{
  Over, Asked, Closed, IsOrderly, Asked-stopping, Asked-stopped, Asked-gone, Closed-true, Over-map,
  Over-stopping, Over-stopped, Over-stopped-Held, Over-shutting_down-Held,
}

module _ (P : Db → Type 0) (n size : ℕ) where
  start_pool-Held :
      (pool : Option (Pool Queued))
      → PoolReach n size pool
      → PoolReach n size (start_pool pool) × (Held IsDone pool → Held IsDone (start_pool pool))
  unfolding start_pool
  start_pool-Held none h = (tt, λ d. d)
  start_pool-Held (some p) h = (step h (starts p), Step-IsDone (starts p))

  stop_pool-Held :
      (pool : Option (Pool Queued)) → PoolReach n size pool → PoolReach n size (stop_pool pool)
  unfolding stop_pool
  stop_pool-Held none h = tt
  stop_pool-Held (some p) h = step h (stops p)

  passed-Held :
      (pool : Option (Pool Queued))
      → PoolReach n size pool
      → may_pass true pool ≡ true
      → Held IsDone pool
  passed-Held none h e = tt
  passed-Held (some p) h e =
      let (adding, waits, runs, finished) = stop_drains n size p h e in
      record { shut = ground arith; none_waits = waits; none_runs = runs; all_run = finished }

  -- The server's goroutine, the signal and the ticker take a step.
  server_moves :
      (p : Process) (phase : ServerPhase) (cancelled recovering : Bool)
      → Closed phase p.shut
      → IsOrderly P n size p
      → IsOrderly P n size
          (record p { server = phase; cancelled = cancelled; recovering = recovering })
  server_moves p phase cancelled recovering closed h = record {
    kept = h.kept;
    reached = h.reached;
    over = h.over;
    asked = h.asked;
    closed = closed;
  }

  -- The other goroutine takes a step that leaves the pool.
  stopper_moves :
      (p : Process) (phase : StopPhase) (shut : Bool)
      → Over p.waits phase p.site.pool
      → Asked shut phase
      → Closed p.server shut
      → IsOrderly P n size p
      → IsOrderly P n size (record p { stopper = phase; shut = shut })
  stopper_moves p phase shut over asked closed h = record {
    kept = h.kept;
    reached = h.reached;
    over = over;
    asked = asked;
    closed = closed;
  }

  module _ {Ready Free : Str → Db → Type 0} (c : Outside) (reader : Reader) (stays : IsOpenTo P)
      (handled : IsHandled c.env P Ready Free) (tasked : IsTasked c.env reader P) where
    work :
        (Q : Pool Queued → Type 0)
        → ((p q : Pool Queued) → Step p q → Q p → Q q)
        → {s t : Site} → SystemStep c reader s t
        → IsSound P (Held Q) s
        → IsSound P (Held Q) t
    work Q stepped x h = step-IsSound Q stepped P c reader stays handled tasked x h

    ProcessStep-IsOrderly :
        {p q : Process} → ProcessStep c reader p q → IsOrderly P n size p → IsOrderly P n size q
    unfolding begin_server end_server stop_workers Over Asked Closed
    ProcessStep-IsOrderly (begins_serving p e) h =
        let (reached, kept) = start_pool-Held p.site.pool h.reached in
        record {
          kept = h.kept;
          reached = reached;
          over = Over-map p.waits p.stopper p.site.pool _ kept h.over;
          asked = h.asked;
          closed = tt;
        }
    ProcessStep-IsOrderly (listens p e) h = server_moves p serving p.cancelled p.recovering tt h
    ProcessStep-IsOrderly (listen_fails p x e) h =
        server_moves p (ended (some x)) true p.recovering tt h
    ProcessStep-IsOrderly (serve_fails p x e) h =
        server_moves p (ended (some x)) true p.recovering tt h
    ProcessStep-IsOrderly (serve_closes p e asked) h =
        server_moves p (ended none) p.cancelled p.recovering asked h
    ProcessStep-IsOrderly (works p t x allowed) h = record {
      kept = (work (Reach n size) (λ p q y k. step k y) x (h.kept, h.reached)).0;
      reached = (work (Reach n size) (λ p q y k. step k y) x (h.kept, h.reached)).1;
      over =
          Over-map p.waits p.stopper p.site.pool t.pool
            (λ d. (work IsDone (λ p q y k. Step-IsDone y k) x (h.kept, d)).1) h.over;
      asked = h.asked;
      closed = h.closed;
    }
    ProcessStep-IsOrderly (signalled p) h = server_moves p p.server true p.recovering h.closed h
    ProcessStep-IsOrderly (ticker_ends p e) h = server_moves p p.server p.cancelled false h.closed h
    ProcessStep-IsOrderly (stop_begins p e cancelled) h = record {
      kept = h.kept;
      reached = stop_pool-Held p.site.pool h.reached;
      over = Over-stopping _ _;
      asked = Asked-stopping p.shut (rw e at h.asked);
      closed = h.closed;
    }
    ProcessStep-IsOrderly (stop_ends p e passed) h =
        stopper_moves p stopped p.shut
          (Over-stopped p.waits stopped p.site.pool
            λ w. passed-Held p.site.pool h.reached (rw w at passed))
          (Asked-stopped p.shut (rw e at h.asked)) h.closed h
    ProcessStep-IsOrderly (shuts_down p e) h =
        stopper_moves p shutting_down true
          (Over-stopped p.waits shutting_down p.site.pool
            (Over-stopped-Held p.waits p.site.pool (rw e at h.over)))
          tt (Closed-true p.server) h
    ProcessStep-IsOrderly (shutdown_ends p e) h =
        stopper_moves p gone p.shut
          (Over-stopped p.waits gone p.site.pool
            (Over-shutting_down-Held p.waits p.site.pool (rw e at h.over)))
          (Asked-gone p.shut) h.closed h

    pub ProcessRun-IsOrderly :
        {p q : Process} → ProcessRun c reader p q → IsOrderly P n size p → IsOrderly P n size q
    ProcessRun-IsOrderly unmoved h = h
    ProcessRun-IsOrderly (moved_on r x) h = ProcessStep-IsOrderly x (ProcessRun-IsOrderly r h)
