-- ===== src/Tools/WorkerPool/Done.antt =====
-- A pool of internal/tools/workerpool/workerpool.go that has been stopped.
use Prim.{absurd}
use sufirmart.Base.{ℕ, Bool, ◌≡◌, refl, ◌∙◌, sym, ap, suc, ◌+◌, true, some, ◌∷◌, arith}
use sufirmart.Tools.WorkerPool.{
  Pool, PoolState, count_tasks, start_from, begin_from, stop_from, send_when,
}
use sufirmart.Tools.WorkerPool.Drain.{
  Step, starts, begins, counts, sends, takes, ends, leaves, stops, count-append,
}

-- The pool is closed, no task waits or is with a worker, and as many are over as were accepted.
pub record IsDone {A : Type 0} (p : Pool A) : Type 0 where
  pub shut : p.closed ≡ true
  pub none_waits : count_tasks p.tasks ≡ 0
  pub none_runs : count_tasks p.running ≡ 0
  pub all_run : count_tasks p.finished ≡ count_tasks p.accepted

-- What the condition is about.
abbrev view : {A : Type 0} → Pool A → Bool × ℕ × ℕ × ℕ × ℕ
view p = (
  p.closed,
  count_tasks p.tasks,
  count_tasks p.running,
  count_tasks p.finished,
  count_tasks p.accepted,
)

IsDone-same : {A : Type 0} {p q : Pool A} → view q ≡ view p → IsDone p → IsDone q
IsDone-same same h = record {
  shut = ap (λ v. v.0) same ∙ h.shut;
  none_waits = ap (λ v. v.1) same ∙ h.none_waits;
  none_runs = ap (λ v. v.2) same ∙ h.none_runs;
  all_run = ap (λ v. v.3) same ∙ h.all_run ∙ sym (ap (λ v. v.4) same);
}

start_from-IsDone : {A : Type 0} (s : PoolState) (p : Pool A) → IsDone p → IsDone (start_from s p)
unfolding start_from
start_from-IsDone PoolState.init p h = IsDone-same refl h
start_from-IsDone PoolState.started p h = h
start_from-IsDone PoolState.stopped p h = h

begin_from-IsDone :
    {A : Type 0} (s : PoolState) (p q : Pool A) → begin_from s p ≡ some q → IsDone p → IsDone q
unfolding begin_from
begin_from-IsDone PoolState.init p q e h =
    let same : record p { checked = suc p.checked } ≡ q = cc in rw (← same) (IsDone-same refl h)
begin_from-IsDone PoolState.started p q e h =
    let same : record p { checked = suc p.checked } ≡ q = cc in rw (← same) (IsDone-same refl h)
begin_from-IsDone PoolState.stopped p q e h = cc

stop_from-IsDone : {A : Type 0} (s : PoolState) (p : Pool A) → IsDone p → IsDone (stop_from s p)
unfolding stop_from
stop_from-IsDone PoolState.started p h = record {
  shut = refl;
  none_waits = h.none_waits;
  none_runs = h.none_runs;
  all_run = h.all_run;
}
stop_from-IsDone PoolState.init p h = h
stop_from-IsDone PoolState.stopped p h = h

-- A pool that is done stays so, whatever calls of Add come late.
pub Step-IsDone : {A : Type 0} {p q : Pool A} → Step p q → IsDone p → IsDone q
unfolding send_when
Step-IsDone (starts p) h = start_from-IsDone p.state p h
Step-IsDone (begins p q e) h = begin_from-IsDone p.state p q e h
Step-IsDone (counts p one) h = IsDone-same refl h
Step-IsDone (sends p task one) h = rw h.shut (record {
  shut = refl;
  none_waits = h.none_waits;
  none_runs = h.none_runs;
  all_run = h.all_run;
})
Step-IsDone (takes p task rest e idle) h =
    let no : suc (count_tasks rest) ≡ 0 = sym (ap count_tasks e) ∙ h.none_waits in cc
Step-IsDone (ends p before task after e) h =
    let no : count_tasks before + suc (count_tasks after) ≡ 0 =
      sym (ap count_tasks e ∙ count-append before (task ∷ after)) ∙ h.none_runs in
    absurd (omega (arith, no))
Step-IsDone (leaves p shut none_left idle) h = IsDone-same refl h
Step-IsDone (stops p) h = stop_from-IsDone p.state p h
