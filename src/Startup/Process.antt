-- ===== src/Startup/Process.antt =====
-- run of cmd/gophermart/main.go: the server, the recovery of pending orders and the shutdown, which
-- take turns as the scheduler has them.
use sufirmart.Base.{◌≡◌, Bool, true, false, Option, none, some, Str}
use sufirmart.Accrual.{Reader}
use sufirmart.Tools.WorkerPool.{Pool, PoolState, start, begin_stop, drained}
use sufirmart.Tools.WorkerPool.Drain.{is_own}
use sufirmart.Processor.Queue.{Queued}
use sufirmart.Server.{Site}
use sufirmart.Server.Init.{Outside}
use sufirmart.Server.System.{SystemStep, serves, moves, runs, recovers}

-- The goroutine that runs the server. An error stands as its text; `ended` holds what the goroutine
-- returns.
pub data ServerPhase : Type 0 where
  created listening serving : ServerPhase
  ended : Option Str → ServerPhase

-- The goroutine that shuts the service down.
pub data StopPhase : Type 0 where
  waiting stopping stopped shutting_down gone : StopPhase

-- What run works on: `cancelled` is that the context is done, `recovering` that the goroutine of the
-- ticker runs, `shut` that Shutdown was called, `waits` that Stop found the pool started, so that it
-- waits for it.
pub record Process : Type 0 where
  pub site : Site
  pub cancelled : Bool
  pub recovering : Bool
  pub shut : Bool
  pub waits : Bool
  pub server : ServerPhase
  pub stopper : StopPhase

abbrev pub start_process : Site → Process
start_process site = record {
  site = site;
  cancelled = false;
  recovering = false;
  shut = false;
  waits = false;
  server = created;
  stopper = waiting;
}

-- The pool may be nil.
unfoldable pub start_pool : Option (Pool Queued) → Option (Pool Queued)
start_pool none = none
start_pool (some p) = some (start p)

has_pool : Option (Pool Queued) → Bool
has_pool none = false
has_pool (some p) = true

-- The server's goroutine up to net.Listen: the pool is started, and with it the ticker.
unfoldable pub begin_server : Process → Process
unfolding start_pool has_pool
begin_server p = record p {
  site = record (p.site) { pool = start_pool p.site.pool };
  recovering = has_pool p.site.pool;
  server = listening;
}

-- The server's goroutine returns; an error ends the context of the group.
unfoldable pub end_server : Option Str → Process → Process
end_server none p = record p { server = ended none }
end_server (some e) p = record p { server = ended (some e); cancelled = true }

unfoldable pub stop_pool : Option (Pool Queued) → Option (Pool Queued)
stop_pool none = none
stop_pool (some p) = some (begin_stop p)

-- The CompareAndSwap of Stop succeeds on a pool that is started, and on no other.
unfoldable pub is_started : PoolState → Bool
is_started PoolState.init = false
is_started PoolState.started = true
is_started PoolState.stopped = false

unfoldable pub finds_started : Option (Pool Queued) → Bool
finds_started none = false
finds_started (some p) = is_started p.state

-- WorkerPool.Stop up to its waits, or nothing where the pool is nil.
unfoldable pub stop_workers : Process → Process
unfolding stop_pool finds_started is_started
stop_workers p = record p {
  site = record (p.site) { pool = stop_pool p.site.pool };
  stopper = stopping;
  waits = finds_started p.site.pool;
}

-- Stop returns: at once where it has not found the pool started, otherwise after its waits.
abbrev pub may_pass : Bool → Option (Pool Queued) → Bool
may_pass false pool = true
may_pass true none = true
may_pass true (some p) = drained p

-- Which steps of the service may be taken: a request while the server serves, a recovery while the
-- ticker runs; Start and Stop are called by run alone.
abbrev pub IsAllowed :
    {c : Outside} {reader : Reader} {s t : Site} → Process → SystemStep c reader s t → Type 0
IsAllowed p (serves s req) = p.server ≡ serving
IsAllowed p (moves s q r there moved) = is_own moved ≡ true
IsAllowed p (runs s q before after number allow done fuel w there taken done_with) = Unit {0}
IsAllowed p (recovers s q there) = p.recovering ≡ true

-- A step of the process. That serving fails stands also for a panic of the goroutine, which it recovers
-- from as an error.
pub data ProcessStep (c : Outside) (reader : Reader) : Process → Process → Type 0 where
  begins_serving : (p : Process) → p.server ≡ created → ProcessStep c reader p (begin_server p)
  listens :
      (p : Process) → p.server ≡ listening → ProcessStep c reader p (record p { server = serving })
  listen_fails :
      (p : Process) (e : Str)
      → p.server ≡ listening
      → ProcessStep c reader p (end_server (some e) p)
  serve_fails :
      (p : Process) (e : Str) → p.server ≡ serving → ProcessStep c reader p (end_server (some e) p)
  serve_closes :
      (p : Process)
      → p.server ≡ serving
      → p.shut ≡ true
      → ProcessStep c reader p (end_server none p)
  works :
      (p : Process) (t : Site) (x : SystemStep c reader p.site t)
      → IsAllowed p x
      → ProcessStep c reader p (record p { site = t })
  signalled : (p : Process) → ProcessStep c reader p (record p { cancelled = true })
  ticker_ends :
      (p : Process) → p.cancelled ≡ true → ProcessStep c reader p (record p { recovering = false })
  stop_begins :
      (p : Process)
      → p.stopper ≡ waiting
      → p.cancelled ≡ true
      → ProcessStep c reader p (stop_workers p)
  stop_ends :
      (p : Process)
      → p.stopper ≡ stopping
      → may_pass p.waits p.site.pool ≡ true
      → ProcessStep c reader p (record p { stopper = stopped })
  shuts_down :
      (p : Process)
      → p.stopper ≡ stopped
      → ProcessStep c reader p (record p { shut = true; stopper = shutting_down })
  shutdown_ends :
      (p : Process)
      → p.stopper ≡ shutting_down
      → ProcessStep c reader p (record p { stopper = gone })

pub data ProcessRun (c : Outside) (reader : Reader) (p : Process) : Process → Type 0 where
  unmoved : ProcessRun c reader p p
  moved_on :
      {q r : Process} → ProcessRun c reader p q → ProcessStep c reader q r → ProcessRun c reader p r

-- Wait returns once both goroutines have: with the error of the server's.
unfoldable pub returned : ServerPhase → StopPhase → Option (Option Str)
returned (ended e) gone = some e
returned _ _ = none
