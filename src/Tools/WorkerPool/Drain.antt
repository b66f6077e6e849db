-- ===== src/Tools/WorkerPool/Drain.antt =====
-- What the counters of internal/tools/workerpool/workerpool.go say of the tasks.
use sufirmart.Base.{
  ap, ◌∙◌, ℕ, suc, ◌+◌, ◌-◌, ◌≤◌, ◌<◌, ◌≡◌, refl, Bool, true, false, some, List, [], ◌∷◌, ◌++◌, ltb,
  arith,
}
use sufirmart.Tools.WorkerPool.{
  Pool, PoolState, count_tasks, new_pool, start_from, begin_from, stop_from, start, begin_add,
  count_call, send_when, send, begin_stop, taken, over, left, drained,
}

-- One step of a caller or of a worker.
pub data Step {A : Type 0} : Pool A → Pool A → Type 0 where
  starts : (p : Pool A) → Step p (start p)
  begins : (p q : Pool A) → begin_add p ≡ some q → Step p q
  counts : (p : Pool A) → 1 ≤ p.checked → Step p (count_call p)
  sends : (p : Pool A) (task : A) → 1 ≤ p.adding → Step p (send task p).1
  takes :
      (p : Pool A) (task : A) (rest : List A)
      → p.tasks ≡ task ∷ rest
      → count_tasks p.running < p.wg_workers
      → Step p (taken task rest p)
  ends :
      (p : Pool A) (before : List A) (task : A) (after : List A)
      → p.running ≡ before ++ task ∷ after
      → Step p (over before task after p)
  leaves :
      (p : Pool A)
      → p.closed ≡ true
      → p.tasks ≡ []
      → count_tasks p.running < p.wg_workers
      → Step p (left p)
  stops : (p : Pool A) → Step p (begin_stop p)

-- Every step but those of Start and Stop.
abbrev pub is_own : {A : Type 0} {p q : Pool A} → Step p q → Bool
is_own (starts p) = false
is_own (stops p) = false
is_own _ = true

pub data Reach {A : Type 0} (workers size : ℕ) : Pool A → Type 0 where
  fresh : Reach workers size (new_pool workers size)
  step : {p q : Pool A} → Reach workers size p → Step p q → Reach workers size q

-- Each call of Add before its send, and each task that waits or runs, is counted; the queue is in its
-- bounds; and no task is lost.
pub record IsPool {A : Type 0} (p : Pool A) : Type 0 where
  pub counted : p.wg_tasks ≡ p.adding + count_tasks p.tasks + count_tasks p.running
  pub bounded : count_tasks p.tasks ≤ p.queue_size
  pub kept :
      count_tasks p.accepted ≡ count_tasks p.finished + count_tasks p.tasks + count_tasks p.running

pub count-append :
    {A : Type 0} (xs ys : List A) → count_tasks (xs ++ ys) ≡ count_tasks xs + count_tasks ys
count-append [] ys = omega arith
count-append (x ∷ xs) ys = omega (arith, count-append xs ys)

start_from-IsPool : {A : Type 0} (s : PoolState) (p : Pool A) → IsPool p → IsPool (start_from s p)
unfolding start_from
start_from-IsPool PoolState.init p h = record {
  counted = h.counted;
  bounded = h.bounded;
  kept = h.kept;
}
start_from-IsPool PoolState.started p h = h
start_from-IsPool PoolState.stopped p h = h

stop_from-IsPool : {A : Type 0} (s : PoolState) (p : Pool A) → IsPool p → IsPool (stop_from s p)
unfolding stop_from
stop_from-IsPool PoolState.init p h = h
stop_from-IsPool PoolState.started p h = record {
  counted = h.counted;
  bounded = h.bounded;
  kept = h.kept;
}
stop_from-IsPool PoolState.stopped p h = h

-- A call of Add that passed its test, and one that is counted.
checked_call : {A : Type 0} (p : Pool A) → IsPool p → IsPool (record p { checked = suc p.checked })
checked_call p h = record { counted = h.counted; bounded = h.bounded; kept = h.kept }

count_call-IsPool : {A : Type 0} (p : Pool A) → IsPool p → IsPool (count_call p)
count_call-IsPool p h = record {
  counted = omega (arith, h.counted);
  bounded = h.bounded;
  kept = h.kept;
}

begin_from-IsPool :
    {A : Type 0} (s : PoolState) (p q : Pool A) → IsPool p → begin_from s p ≡ some q → IsPool q
unfolding begin_from
begin_from-IsPool PoolState.init p q h e =
    let same : record p { checked = suc p.checked } ≡ q = cc in rw same at (checked_call p h)
begin_from-IsPool PoolState.started p q h e =
    let same : record p { checked = suc p.checked } ≡ q = cc in rw same at (checked_call p h)
begin_from-IsPool PoolState.stopped p q h e = cc

-- A call of Add that ends without its task.
refused_call :
    {A : Type 0} (p : Pool A)
    → 1 ≤ p.adding
    → IsPool p
    → IsPool (record p { wg_tasks = p.wg_tasks - 1; adding = p.adding - 1 })
refused_call p one h = record {
  counted = omega (arith, h.counted, one);
  bounded = h.bounded;
  kept = h.kept;
}

send_when-IsPool :
    {A : Type 0} (shut room : Bool) (p : Pool A) (task : A)
    → ltb (count_tasks p.tasks) p.queue_size ≡ room
    → 1 ≤ p.adding
    → IsPool p
    → IsPool (send_when shut room task p).1
unfolding send_when
send_when-IsPool true room p task e one h = refused_call p one h
send_when-IsPool false true p task e one h =
    let more = count-append p.tasks (task ∷ []) in
    record {
      counted = omega (arith, h.counted, one, more);
      bounded = ground (arith, e, more);
      kept = omega (arith, h.kept, more);
    }
send_when-IsPool false false p task e one h = refused_call p one h

Step-IsPool : {A : Type 0} {p q : Pool A} → Step p q → IsPool p → IsPool q
Step-IsPool (starts p) h = start_from-IsPool p.state p h
Step-IsPool (begins p q e) h = begin_from-IsPool p.state p q h e
Step-IsPool (counts p one) h = count_call-IsPool p h
Step-IsPool (sends p task one) h = send_when-IsPool p.closed _ p task refl one h
Step-IsPool (takes p task rest e idle) h =
    let same : count_tasks p.tasks ≡ suc (count_tasks rest) = ap count_tasks e in
    record {
      counted = omega (arith, h.counted, same);
      bounded = omega (arith, h.bounded, same);
      kept = omega (arith, h.kept, same);
    }
Step-IsPool (ends p before task after e) h =
    let same : count_tasks p.running ≡ count_tasks before + suc (count_tasks after) =
      ap count_tasks e ∙ count-append before (task ∷ after) in
    let fewer = count-append before after in
    record {
      counted = omega (arith, h.counted, same, fewer);
      bounded = h.bounded;
      kept = omega (arith, h.kept, same, fewer);
    }
Step-IsPool (leaves p shut none_left idle) h = record {
  counted = h.counted;
  bounded = h.bounded;
  kept = h.kept;
}
Step-IsPool (stops p) h = stop_from-IsPool p.state p h

Reach-IsPool : {A : Type 0} {n size : ℕ} {p : Pool A} → Reach n size p → IsPool p
Reach-IsPool fresh = record { counted = refl; bounded = omega arith; kept = refl }
Reach-IsPool (step r s) = Step-IsPool s (Reach-IsPool r)

-- However the calls and the workers take turns: once the pool is closed and both counters that Stop
-- waits for are at zero, no call of Add is before its send, no task waits or runs, and as many tasks
-- have been run as Add has accepted.
pub stop_drains :
    {A : Type 0} (n size : ℕ) (p : Pool A)
    → Reach n size p
    → drained p ≡ true
    → (p.adding ≡ 0)
      × (count_tasks p.tasks ≡ 0)
      × (count_tasks p.running ≡ 0)
      × (count_tasks p.finished ≡ count_tasks p.accepted)
stop_drains n size p r d =
    let h = Reach-IsPool r in
    let zero_left : p.wg_tasks ≡ 0 = ground arith in
    (
      omega (arith, h.counted, zero_left),
      omega (arith, h.counted, zero_left),
      omega (arith, h.counted, zero_left),
      omega (arith, h.counted, h.kept, zero_left),
    )

-- The queue never holds more than its size, and the counter of tasks is at least what waits and runs,
-- so it is never taken below zero.
pub queue_bounds :
    {A : Type 0} (n size : ℕ) (p : Pool A)
    → Reach n size p
    → (count_tasks p.tasks ≤ p.queue_size)
      × (count_tasks p.tasks + count_tasks p.running ≤ p.wg_tasks)
queue_bounds n size p r = let h = Reach-IsPool r in (h.bounded, omega (arith, h.counted))
