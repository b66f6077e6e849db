-- ===== src/Startup/Orderly.antt =====
-- What holds at every moment of run of cmd/gophermart/main.go.
use Prim.{absurd}
use sufirmart.Base.{◌≡◌, refl, ℕ, Bool, true, false, Option, none, some}
use sufirmart.Store.{Db}
use sufirmart.Tools.WorkerPool.{Pool, PoolState}
use sufirmart.Tools.WorkerPool.Done.{IsDone}
use sufirmart.Processor.Queue.{Queued}
use sufirmart.Server.{Site}
use sufirmart.Server.System.{Held, PoolReach}
use sufirmart.Startup.Process.{
  created, listening, serving, ended, waiting, stopping, stopped, shutting_down, gone, Process,
  ServerPhase, StopPhase, start_process,
}

-- Once a Stop that waits is over, the pool is done.
unfoldable pub Over : Bool → StopPhase → Option (Pool Queued) → Type 0
Over false phase pool = Unit {0}
Over true waiting pool = Unit {0}
Over true stopping pool = Unit {0}
Over true stopped pool = Held IsDone pool
Over true shutting_down pool = Held IsDone pool
Over true gone pool = Held IsDone pool

abbrev pub IsStarted : Pool Queued → Type 0
IsStarted p = p.state ≡ PoolState.started

-- The pool is started until Stop finds it so.
unfoldable pub Found : StopPhase → Bool → Option (Pool Queued) → Type 0
Found waiting b pool = Held IsStarted pool
Found stopping b pool = Held (λ _. b ≡ true) pool
Found stopped b pool = Held (λ _. b ≡ true) pool
Found shutting_down b pool = Held (λ _. b ≡ true) pool
Found gone b pool = Held (λ _. b ≡ true) pool

-- Shutdown is called after that.
unfoldable pub Asked : Bool → StopPhase → Type 0
Asked false phase = Unit {0}
Asked true shutting_down = Unit {0}
Asked true gone = Unit {0}
Asked true _ = ⊥

-- The server's goroutine returns no error only after Shutdown was called.
unfoldable pub Closed : ServerPhase → Bool → Type 0
Closed (ended none) shut = shut ≡ true
Closed _ shut = Unit {0}

-- What holds of run at every moment, for a condition `P` on the tables.
pub record IsOrderly (P : Db → Type 0) (n size : ℕ) (p : Process) : Type 0 where
  pub kept : P p.site.world.db
  pub reached : PoolReach n size p.site.pool
  pub over : Over p.waits p.stopper p.site.pool
  pub asked : Asked p.shut p.stopper
  pub closed : Closed p.server p.shut

pub Asked-stopping : (b : Bool) → Asked b waiting → Asked b stopping
unfolding Asked
Asked-stopping false h = tt
Asked-stopping true h = absurd h

pub Asked-stopped : (b : Bool) → Asked b stopping → Asked b stopped
unfolding Asked
Asked-stopped false h = tt
Asked-stopped true h = absurd h

pub Asked-gone : (b : Bool) → Asked b gone
unfolding Asked
Asked-gone false = tt
Asked-gone true = tt

pub Closed-true : (s : ServerPhase) → Closed s true
unfolding Closed
Closed-true created = tt
Closed-true listening = tt
Closed-true serving = tt
Closed-true (ended none) = refl
Closed-true (ended (some e)) = tt

pub Over-map :
    (b : Bool) (phase : StopPhase) (pool pool' : Option (Pool Queued))
    → (Held IsDone pool → Held IsDone pool')
    → Over b phase pool
    → Over b phase pool'
unfolding Over
Over-map false phase pool pool' f h = tt
Over-map true waiting pool pool' f h = tt
Over-map true stopping pool pool' f h = tt
Over-map true stopped pool pool' f h = f h
Over-map true shutting_down pool pool' f h = f h
Over-map true gone pool pool' f h = f h

pub Over-stopping : (b : Bool) (pool : Option (Pool Queued)) → Over b stopping pool
unfolding Over
Over-stopping false pool = tt
Over-stopping true pool = tt

-- The steps after `stopped` leave it.
pub Over-stopped :
    (b : Bool) (phase : StopPhase) (pool : Option (Pool Queued))
    → (b ≡ true → Held IsDone pool)
    → Over b phase pool
unfolding Over
Over-stopped false phase pool f = tt
Over-stopped true waiting pool f = tt
Over-stopped true stopping pool f = tt
Over-stopped true stopped pool f = f refl
Over-stopped true shutting_down pool f = f refl
Over-stopped true gone pool f = f refl

pub Over-stopped-Held :
    (b : Bool) (pool : Option (Pool Queued)) → Over b stopped pool → b ≡ true → Held IsDone pool
unfolding Over
Over-stopped-Held false pool h e = cc
Over-stopped-Held true pool h e = h

pub Over-shutting_down-Held :
    (b : Bool) (pool : Option (Pool Queued))
    → Over b shutting_down pool
    → b ≡ true
    → Held IsDone pool
unfolding Over
Over-shutting_down-Held false pool h e = cc
Over-shutting_down-Held true pool h e = h

pub Found-map :
    (phase : StopPhase) (b : Bool) (pool pool' : Option (Pool Queued))
    → (Held IsStarted pool → Held IsStarted pool')
    → (Held (λ _. b ≡ true) pool → Held (λ _. b ≡ true) pool')
    → Found phase b pool
    → Found phase b pool'
unfolding Found
Found-map waiting b pool pool' f g h = f h
Found-map stopping b pool pool' f g h = g h
Found-map stopped b pool pool' f g h = g h
Found-map shutting_down b pool pool' f g h = g h
Found-map gone b pool pool' f g h = g h

pub at_start :
    (P : Db → Type 0) (n size : ℕ) (site : Site)
    → P site.world.db
    → PoolReach n size site.pool
    → IsOrderly P n size (start_process site)
unfolding Over Asked Closed
at_start P n size site kept reached = record {
  kept = kept;
  reached = reached;
  over = tt;
  asked = tt;
  closed = tt;
}
