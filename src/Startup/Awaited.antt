-- ===== src/Startup/Awaited.antt =====
-- A pool that run of cmd/gophermart/main.go has started is one that the shutdown waits for.
use sufirmart.Base.{◌≡◌, refl, ◌∙◌, ap, ℕ, suc, Bool, true, false, Option, none, some, Str}
use sufirmart.Store.{Db}
use sufirmart.Accrual.{Reader}
use sufirmart.Users.Keeps.{IsOpenTo}
use sufirmart.Api.Keeps.{IsHandled}
use sufirmart.Tools.WorkerPool.{Pool, PoolState, start_from, begin_from, send_when}
use sufirmart.Tools.WorkerPool.Drain.{
  Step, is_own, starts, begins, counts, sends, takes, ends, leaves, stops,
}
use sufirmart.Processor.Queue.{Queued}
use sufirmart.Server.{Site}
use sufirmart.Server.Init.{Outside}
use sufirmart.Server.System.{
  SystemStep, Held, IsTasked, MoveKeeps, move-IsSound, serves, moves, runs, recovers,
}
use sufirmart.Startup.Process.{
  Process, ProcessStep, ProcessRun, IsAllowed, begin_server, start_pool, end_server, stop_workers,
  stop_pool, finds_started, is_started, begins_serving, listens, listen_fails, serve_fails,
  serve_closes, works, signalled, ticker_ends, stop_begins, stop_ends, shuts_down, shutdown_ends,
  unmoved, moved_on,
}
use sufirmart.Startup.Orderly.{IsStarted, Found, Found-map, IsOrderly}
use sufirmart.Startup.Run.{ProcessRun-IsOrderly}

begin_from-IsStarted :
    (s : PoolState) (p q : Pool Queued) → begin_from s p ≡ some q → IsStarted p → IsStarted q
unfolding begin_from
begin_from-IsStarted PoolState.init p q e h =
    let same : record p { checked = suc p.checked } ≡ q = cc in rw (← same) h
begin_from-IsStarted PoolState.started p q e h =
    let same : record p { checked = suc p.checked } ≡ q = cc in rw (← same) h
begin_from-IsStarted PoolState.stopped p q e h = cc

send_when-state :
    (closed room : Bool) (task : Queued) (p : Pool Queued)
    → (send_when closed room task p).1.state ≡ p.state
unfolding send_when
send_when-state true room task p = refl
send_when-state false true task p = refl
send_when-state false false task p = refl

own_step-IsStarted :
    {p q : Pool Queued} (x : Step p q) → is_own x ≡ true → IsStarted p → IsStarted q
own_step-IsStarted (starts p) own h = cc
own_step-IsStarted (begins p q e) own h = begin_from-IsStarted p.state p q e h
own_step-IsStarted (counts p one) own h = h
own_step-IsStarted (sends p task one) own h = send_when-state _ _ task p ∙ h
own_step-IsStarted (takes p task rest e idle) own h = h
own_step-IsStarted (ends p before task after e) own h = h
own_step-IsStarted (leaves p shut none_left idle) own h = h
own_step-IsStarted (stops p) own h = cc

allowed_keeps :
    {c : Outside} {reader : Reader} {s t : Site} (p : Process) (x : SystemStep c reader s t)
    → IsAllowed p x
    → MoveKeeps IsStarted x
allowed_keeps p (serves s req) own = tt
allowed_keeps p (moves s q r there moved) own = own_step-IsStarted moved own
allowed_keeps p (runs s q before after number allow done fuel w there taken done_with) own = tt
allowed_keeps p (recovers s q there) own = tt

-- Whatever holds of no pool in particular.
always :
    (A : Type 0) {c : Outside} {reader : Reader} {s t : Site} (x : SystemStep c reader s t)
    → MoveKeeps (λ _. A) x
always A (serves s req) = tt
always A (moves s q r there moved) = λ a. a
always A (runs s q before after number allow done fuel w there taken done_with) = tt
always A (recovers s q there) = tt

start_from-IsStarted : (s : PoolState) (p : Pool Queued) → IsStarted p → IsStarted (start_from s p)
unfolding start_from
start_from-IsStarted PoolState.init p h = refl
start_from-IsStarted PoolState.started p h = h
start_from-IsStarted PoolState.stopped p h = h

start_pool-IsStarted :
    (pool : Option (Pool Queued)) → Held IsStarted pool → Held IsStarted (start_pool pool)
unfolding start_pool
start_pool-IsStarted none h = tt
start_pool-IsStarted (some p) h = start_from-IsStarted p.state p h

start_pool-always :
    (A : Type 0) (pool : Option (Pool Queued))
    → Held (λ _. A) pool
    → Held (λ _. A) (start_pool pool)
unfolding start_pool
start_pool-always A none h = tt
start_pool-always A (some p) h = h

stop_pool-found :
    (pool : Option (Pool Queued))
    → Held IsStarted pool
    → Held (λ _. finds_started pool ≡ true) (stop_pool pool)
unfolding stop_pool finds_started is_started
stop_pool-found none h = tt
stop_pool-found (some p) h = ap is_started h

-- What `Found` says of the process.
abbrev pub IsFound : Process → Type 0
IsFound p = Found p.stopper p.waits p.site.pool

module _ (P : Db → Type 0) (n size : ℕ) {Ready Free : Str → Db → Type 0} (c : Outside)
    (reader : Reader) (stays : IsOpenTo P) (handled : IsHandled c.env P Ready Free)
    (tasked : IsTasked c.env reader P) where
  ProcessStep-IsFound :
      {p q : Process} → ProcessStep c reader p q → P p.site.world.db → IsFound p → IsFound q
  unfolding begin_server end_server stop_workers Found
  ProcessStep-IsFound (begins_serving p e) k h =
      Found-map p.stopper p.waits p.site.pool _ (start_pool-IsStarted p.site.pool)
        (start_pool-always _ p.site.pool) h
  ProcessStep-IsFound (listens p e) k h = h
  ProcessStep-IsFound (listen_fails p x e) k h = h
  ProcessStep-IsFound (serve_fails p x e) k h = h
  ProcessStep-IsFound (serve_closes p e asked) k h = h
  ProcessStep-IsFound (works p t x allowed) k h =
      Found-map p.stopper p.waits p.site.pool t.pool
        (λ s.
          (move-IsSound IsStarted (λ _ _. own_step-IsStarted) P c reader stays handled tasked x
            (allowed_keeps p x allowed) (k, s)).1)
        (λ s.
          (move-IsSound (λ _. p.waits ≡ true) (λ _ _ y own a. a) P c reader stays handled tasked x
            (always _ x) (k, s)).1)
        h
  ProcessStep-IsFound (signalled p) k h = h
  ProcessStep-IsFound (ticker_ends p e) k h = h
  ProcessStep-IsFound (stop_begins p e cancelled) k h = stop_pool-found p.site.pool (rw e at h)
  ProcessStep-IsFound (stop_ends p e passed) k h = rw e at h
  ProcessStep-IsFound (shuts_down p e) k h = rw e at h
  ProcessStep-IsFound (shutdown_ends p e) k h = rw e at h

  pub ProcessRun-IsFound :
      {p q : Process} → ProcessRun c reader p q → IsOrderly P n size p → IsFound p → IsFound q
  ProcessRun-IsFound unmoved h f = f
  ProcessRun-IsFound (moved_on r x) h f =
      ProcessStep-IsFound x (ProcessRun-IsOrderly P n size c reader stays handled tasked r h).kept
        (ProcessRun-IsFound r h f)
