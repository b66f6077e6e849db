-- ===== src/Tools/WorkerPool.antt =====
-- internal/tools/workerpool/workerpool.go, for a queue of size one or more. What the goroutines do at
-- once is a sequence of steps: Add has a step for its test of the state, one for its count in wgTasks
-- and one for the send.
pub mod Drain
pub mod Done
use sufirmart.Base.{
  ℕ, suc, ◌-◌, Bool, true, false, ◌&&◌, Option, none, some, List, [], ◌∷◌, ◌++◌, Result, ok, err,
  queue_full, pool_stopped, ltb, ◌==◌, if◌then◌else◌,
}

pub data PoolState : Type 0 where
  init started stopped : PoolState

abbrev pub count_tasks {ℓ} : {A : Type ℓ} → List A → ℕ
count_tasks [] = 0
count_tasks (t ∷ ts) = suc (count_tasks ts)

-- The pool: `checked` counts the calls of Add after their test, `adding` those before their send,
-- `running` holds what the workers have taken. `accepted` and `finished` are what Add has returned nil
-- for, and what a worker is through with; the code keeps neither.
pub record Pool (A : Type 0) : Type 0 where
  pub worker_count : ℕ
  pub queue_size : ℕ
  pub tasks : List A
  pub closed : Bool
  pub wg_workers : ℕ
  pub wg_tasks : ℕ
  pub state : PoolState
  pub checked : ℕ
  pub adding : ℕ
  pub running : List A
  pub accepted : List A
  pub finished : List A

module _ {A : Type 0} where
  -- New
  abbrev pub new_pool : ℕ → ℕ → Pool A
  new_pool worker_count queue_size = record {
    worker_count = worker_count;
    queue_size = queue_size;
    tasks = [];
    closed = false;
    wg_workers = 0;
    wg_tasks = 0;
    state = init;
    checked = 0;
    adding = 0;
    running = [];
    accepted = [];
    finished = [];
  }

  -- Start, by the state found
  unfoldable pub start_from : PoolState → Pool A → Pool A
  start_from init p = record p { state = started; wg_workers = p.worker_count }
  start_from started p = p
  start_from stopped p = p

  abbrev pub start : Pool A → Pool A
  start p = start_from p.state p

  -- The test of Add: `none` is that it returns the error for a stopped pool.
  unfoldable pub begin_from : PoolState → Pool A → Option (Pool A)
  begin_from stopped p = none
  begin_from init p = some (record p { checked = suc p.checked })
  begin_from started p = some (record p { checked = suc p.checked })

  abbrev pub begin_add : Pool A → Option (Pool A)
  begin_add p = begin_from p.state p

  -- wgTasks.Add(1)
  abbrev pub count_call : Pool A → Pool A
  count_call p = record p {
    checked = p.checked - 1;
    wg_tasks = suc p.wg_tasks;
    adding = suc p.adding;
  }

  -- The send, by whether the channel is closed and whether it has room: on a closed one it panics,
  -- which is recovered.
  unfoldable pub send_when : Bool → Bool → A → Pool A → Result (Unit {0}) × Pool A
  send_when true room task p =
      (err pool_stopped, record p { wg_tasks = p.wg_tasks - 1; adding = p.adding - 1 })
  send_when false true task p = (
    ok tt,
    record p { tasks = p.tasks ++ task ∷ []; adding = p.adding - 1; accepted = task ∷ p.accepted },
  )
  send_when false false task p =
      (err queue_full, record p { wg_tasks = p.wg_tasks - 1; adding = p.adding - 1 })

  abbrev pub send : A → Pool A → Result (Unit {0}) × Pool A
  send task p = send_when p.closed (ltb (count_tasks p.tasks) p.queue_size) task p

  -- Stop up to its waits, by the state found
  unfoldable pub stop_from : PoolState → Pool A → Pool A
  stop_from started p = record p { state = stopped; closed = true }
  stop_from init p = p
  stop_from stopped p = p

  abbrev pub begin_stop : Pool A → Pool A
  begin_stop p = stop_from p.state p

  -- A worker takes the first task.
  abbrev pub taken : A → List A → Pool A → Pool A
  taken task rest p = record p { tasks = rest; running = task ∷ p.running }

  -- A task among those that run is over.
  abbrev pub over : List A → A → List A → Pool A → Pool A
  over before task after p = record p {
    running = before ++ after;
    wg_tasks = p.wg_tasks - 1;
    finished = task ∷ p.finished;
  }

  -- A worker ends its loop.
  abbrev pub left : Pool A → Pool A
  left p = record p { wg_workers = p.wg_workers - 1 }

  -- wgTasks.Wait and wgWorkers.Wait are over.
  abbrev pub drained : Pool A → Bool
  drained p = p.closed && ((p.wg_tasks == 0) && (p.wg_workers == 0))
