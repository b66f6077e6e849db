-- ===== src/Processor/Queue/Recovery.antt =====
-- What RecoverPending of internal/order/processor.go queues.
use mathlib.Core.List.{Perm, append-nil, append_assoc}
use sufirmart.Base.{
  inl, inr, ◌≡◌, refl, ◌∙◌, ap, ℕ, zero, suc, ◌-◌, Bool, true, false, Bool-cases, none, List, [],
  ◌∷◌, ◌++◌, map, ltb, ok, arith, Str,
}
use sufirmart.Domain.Order.{Order, OrderStatus, int16, is_processed}
use sufirmart.Domain.UserId.{new_user_id}
use sufirmart.Store.{OrderRow}
use sufirmart.Store.Table.{All, select, All-select}
use sufirmart.Store.Sort.{oldest, sort-perm, Rises, oldest-Rises, All-sort}
use sufirmart.Store.Statement.{Env, World, IsUp, statement_up}
use sufirmart.Orders.{list_by_statuses, has_status, build_orders}
use sufirmart.Orders.Listing.{all_listed, order_of, build_orders-listed}
use sufirmart.Tools.WorkerPool.{Pool, PoolState, count_tasks, begin_from, send_when}
use sufirmart.Processor.Queue.{Queued, enqueue, enqueue_all, recovered, recover_pending}

abbrev pub take {ℓ} : {A : Type ℓ} → ℕ → List A → List A
take zero ts = []
take (suc n) [] = []
take (suc n) (t ∷ ts) = t ∷ take n ts

take_nil : {A : Type 0} (n : ℕ) → take {A = A} n [] ≡ []
take_nil zero = refl
take_nil (suc n) = refl

count_tasks-one :
    {A : Type 0} (ts : List A) (a : A) → count_tasks (ts ++ a ∷ []) ≡ suc (count_tasks ts)
count_tasks-one [] a = refl
count_tasks-one (b ∷ ts) a = ap suc (count_tasks-one ts a)

-- An order as RecoverPending queues it.
abbrev pub pending_task : OrderRow → Queued
pending_task o = (o.order_num, true)

order_task : Order → Queued
order_task o = (o.number, true)

-- A pool that takes tasks.
abbrev pub IsOpenPool : Pool Queued → Type 0
IsOpenPool p = (p.state ≡ PoolState.started) × (p.closed ≡ false)

-- The places that are left in the queue.
abbrev places : Pool Queued → ℕ
places p = p.queue_size - count_tasks p.tasks

enqueue-room :
    (number : Str) (p : Pool Queued)
    → IsOpenPool p
    → ltb (count_tasks p.tasks) p.queue_size ≡ true
    → IsOpenPool (enqueue number true p)
      × ((enqueue number true p).tasks ≡ p.tasks ++ (number, true) ∷ [])
      × ((enqueue number true p).queue_size ≡ p.queue_size)
unfolding enqueue begin_from send_when
enqueue-room number p (started, open_yet) room =
    rw (enqueue, started, open_yet, room) ((refl, refl), refl, refl)

enqueue-full :
    (number : Str) (p : Pool Queued)
    → IsOpenPool p
    → ltb (count_tasks p.tasks) p.queue_size ≡ false
    → IsOpenPool (enqueue number true p)
      × ((enqueue number true p).tasks ≡ p.tasks)
      × ((enqueue number true p).queue_size ≡ p.queue_size)
unfolding enqueue begin_from send_when
enqueue-full number p (started, open_yet) full =
    rw (enqueue, started, open_yet, full) ((refl, refl), refl, refl)

enqueue_all-tasks :
    (orders : List Order) (p : Pool Queued)
    → IsOpenPool p
    → (enqueue_all orders p).tasks ≡ p.tasks ++ take (places p) (map order_task orders)
unfolding enqueue_all order_task
enqueue_all-tasks [] p o = rw (take_nil {A = Queued} (places p), append-nil p.tasks) refl
enqueue_all-tasks (x ∷ orders) p o = elim (Bool-cases (ltb (count_tasks p.tasks) p.queue_size)) [
  | inl room ↦
      let (still, queued, size) = enqueue-room x.number p o room in
      let left : places p ≡ suc (p.queue_size - suc (count_tasks p.tasks)) = ground arith in
      rw
        (
          enqueue_all-tasks orders (enqueue x.number true p) still,
          queued,
          size,
          count_tasks-one p.tasks (x.number, true),
          left,
        )
        (append_assoc p.tasks ((x.number, true) ∷ []) _)
  | inr full ↦
      let (still, queued, size) = enqueue-full x.number p o full in
      let left : places p ≡ 0 = ground arith in
      rw (enqueue_all-tasks orders (enqueue x.number true p) still, queued, size, left) refl
]

-- What RecoverPending asks for.
abbrev pub is_pending : OrderRow → Bool
is_pending = has_status (OrderStatus.new ∷ OrderStatus.processing ∷ [])

status-open :
    (s : OrderStatus) (o : OrderRow) → o.status ≡ s → is_pending o ≡ true → is_processed s ≡ false
unfolding has_status int16
status-open OrderStatus.new o e h = refl
status-open OrderStatus.processing o e h = refl
status-open OrderStatus.invalid o e h = refl
status-open OrderStatus.processed o e h = let no : false ≡ true = rw e at h in cc
status-open (OrderStatus.unnamed n) o e h = refl

All-of_select :
    {R : Type 0} (P : R → Type 0) (p : R → Bool) (rs : List R) → All P rs → All P (select p rs)
unfolding select
All-of_select P p [] h = tt
All-of_select P p (r ∷ rs) h = elim (Bool-cases (p r)) [
  | inl here ↦ rw (here, select) (h.0, All-of_select P p rs h.1)
  | inr gone ↦ rw (gone, select) (All-of_select P p rs h.1)
]

open-listed :
    (rows : List OrderRow)
    → All (λ o. is_pending o ≡ true) rows
    → all_listed (λ _. none) rows ≡ true
open-listed [] h = refl
open-listed (o ∷ rows) h = rw (status-open o.status o refl h.0, open-listed rows h.1) refl

map-order_task :
    (rows : List OrderRow)
    → map order_task (map (order_of (λ _. none)) rows) ≡ map pending_task rows
unfolding order_task
map-order_task [] = refl
map-order_task (o ∷ rows) = ap (λ r. pending_task o ∷ r) (map-order_task rows)

-- With a database that does not fail and orders whose users have valid ids, RecoverPending of a pool
-- that takes tasks puts the orders that are new or in processing at the end of the queue, the oldest
-- first, as many as there are places for; each may be taken while it is in processing. The others are
-- left for the next recovery, and the database is only read.
pub recover_pending_outcome :
    (env : Env) (w : World) (p : Pool Queued)
    → IsUp env
    → IsOpenPool p
    → All (λ o. new_user_id o.user_id ≡ ok o.user_id) w.orders
    → (rows : List OrderRow) × ((recover_pending env w p).0 ≡ ok tt)
      × ((recover_pending env w p).1 ≡ record w { calls = suc w.calls })
      × ((recover_pending env w p).2.tasks
          ≡ p.tasks ++ take (p.queue_size - count_tasks p.tasks) (map pending_task rows))
      × Perm rows (select is_pending w.orders)
      × Rises (map (λ (o : OrderRow). o.uploaded_at) rows)
unfolding recover_pending list_by_statuses recovered
recover_pending_outcome env w p up takes valid =
    let pending = select is_pending w.orders in
    let rows = oldest (λ (o : OrderRow). o.uploaded_at) pending in
    let fits_all =
      All-sort _ (λ (o : OrderRow). is_pending o ≡ true) pending (All-select is_pending w.orders) in
    let owned =
      All-sort _ (λ (o : OrderRow). new_user_id o.user_id ≡ ok o.user_id) pending
        (All-of_select _ is_pending w.orders valid) in
    let built : build_orders (λ _. none) rows ≡ ok (map (order_of (λ _. none)) rows) =
      rw (build_orders-listed (λ _. none) rows owned, open-listed rows fits_all) refl in
    (
      rows,
      rw (statement_up env up, built) refl,
      rw (statement_up env up, built) refl,
      rw (statement_up env up, built)
          (enqueue_all-tasks (map (order_of (λ _. none)) rows) p takes
            ∙ ap (λ ts. p.tasks ++ take (places p) ts) (map-order_task rows)),
      sort-perm _ pending,
      oldest-Rises (λ (o : OrderRow). o.uploaded_at) pending,
    )
