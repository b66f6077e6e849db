-- ===== src/Processor.antt =====
-- internal/order: processing an order through the accrual service.
pub mod Strategy
pub mod Triple
pub mod Round
pub mod Start
pub mod Taking
pub mod Awaits
pub mod Safety
pub mod Calls
pub mod Late
pub mod Credit
pub mod Prepared
pub mod Queue
pub mod Once
pub mod Progress
pub mod Backoff
pub mod Ends
use sufirmart.Base.{
  ℕ, Bool, true, false, not, ◌&&◌, ◌||◌, Option, none, some, List, [], ◌∷◌, Str, bytes, Result, ok,
  err, Error, no_rows, still_processing, Exec, pure, raise, lift, attempt, continue, ◌>>=◌, ◌>>◌, ℤ,
  pos, if◌then◌else◌, map,
}
use sufirmart.Domain.Amount.{Float64}
use sufirmart.Domain.Order.{Order, OrderStatus, is_new, is_processing, change_status}
use sufirmart.Domain.Status.{AccrualStatus}
use sufirmart.Store.Statement.{Env, World}
use sufirmart.Account.{
  register_transaction, cancel_transaction, cancel_planned_transactions_by_order,
  approve_transaction,
}
use sufirmart.Orders.{get_by_number, save, list_by_statuses}
use sufirmart.Tools.Transaction.{tx_call, wrap_transaction}
use sufirmart.Tools.Repeater.{Outcome, repeat}
use sufirmart.Accrual.{Accrual, Reader, get}
use Strategy.{AdaptiveStrategy, adaptive, new_adaptive_strategy, second}

-- A running task: the world, and the order that the task holds a pointer to.
pub record Task : Type 0 where
  pub world : World
  pub order : Order

-- A call of a repository, from a task.
abbrev pub on_world : {A : Type 0} → Exec World A → Exec Task A
on_world m s = let (r, w) = m s.world in (r, record s { world = w })

-- order.ChangeStatus
abbrev pub on_order : OrderStatus → Exec Task (Unit {0})
on_order status s = let (r, o) = change_status status s.order in (r, record s { order = o })

-- orders.Save(order)
abbrev pub save_current : Env → Exec Task (Unit {0})
save_current env s = on_world (save env s.order) s

-- Whether touchOrder may take an order in this status.
unfoldable pub refuses : Bool → OrderStatus → Bool
refuses allow_processing status =
    not (is_new status) && (not allow_processing || not (is_processing status))

module _ (env : Env) where
  -- The function that touchOrder gives to WrapTransaction.
  touch_body : Str → Bool → Exec World Order
  unfolding refuses
  touch_body number allow_processing = do
    order ← get_by_number env number true
    if refuses allow_processing order.status then raise no_rows else do
      let (changed, order') = change_status OrderStatus.processing order
      lift changed
      save env order'
      pure order'

  -- touchOrder: an error is the nil order.
  unfoldable pub touch_order : Str → Bool → Exec World Order
  unfolding touch_body wrap_transaction
  touch_order number allow_processing =
      wrap_transaction (tx_call env) (touch_body number allow_processing)

  -- failOrder
  unfoldable pub fail_order : Str → Str → Exec Task (Unit {0})
  unfolding wrap_transaction
  fail_order id reason =
      wrap_transaction (on_world (tx_call env)) do
        on_order OrderStatus.invalid
        save_current env
        on_world (cancel_transaction env id reason)

  -- successOrder
  unfoldable pub success_order : Str → Float64 → Exec Task (Unit {0})
  unfolding wrap_transaction
  success_order id accrual_value = wrap_transaction (on_world (tx_call env)) do
    on_order OrderStatus.processed
    save_current env
    on_world (approve_transaction env id accrual_value)

  -- The switch on the status in the action of processOrder. What failOrder returns is dropped.
  unfoldable pub settle : Str → Accrual → Exec Task (Unit {0})
  settle id info = elim info.status [
    | AccrualStatus.registered ↦ raise still_processing
    | AccrualStatus.processing ↦ raise still_processing
    | AccrualStatus.invalid ↦ do
      attempt (fail_order id (bytes "accrual marked order as invalid"))
      pure tt
    | AccrualStatus.processed ↦ success_order id info.value
    | AccrualStatus.unspecified ↦ do
      attempt (fail_order id (bytes "unknown accrual status"))
      pure tt
  ]

  -- The action that processOrder repeats.
  unfoldable pub ask : Reader → Str → Str → Exec Task (Unit {0})
  unfolding settle
  ask reader number id = do info ← on_world (get reader number); settle id info

  -- What processOrder does with the end of Repeat.
  unfoldable pub conclude_order : Str → Result (Unit {0}) → Task → World
  conclude_order id (ok _) s = s.world
  conclude_order id (err e) s = (fail_order id (bytes "accrual request failed") s).1.world

  -- processOrder from the planned transaction on. `done` says after which attempt the context is
  -- done; `none` is that the fuel for the attempts, which have no limit, ran out.
  unfoldable pub poll : Reader → (ℕ → Bool) → ℕ → Str → Str → Task → Option World
  unfolding ask conclude_order
  poll reader done fuel number id s =
      elim (repeat adaptive done (ask reader number id) fuel (new_adaptive_strategy second 0) s) [
        | none ↦ none
        | some o ↦ some (conclude_order id o.result o.state)
      ]

  -- processOrder up to the planned transaction: the order and the transaction's id.
  unfoldable pub prepare : Str → Bool → Exec World (Order × Str)
  unfolding touch_order
  prepare number allow_processing = do
    order ← touch_order number allow_processing
    cancel_planned_transactions_by_order env order.user_id order.number
        (bytes "recovered duplicate")
    id ← register_transaction env order.user_id order.number (pos 0) (bytes "Order accrual")
    pure (order, id)

  unfoldable pub after_prepare :
      Reader → (ℕ → Bool) → ℕ → Str → Result (Order × Str) × World → Option World
  unfolding poll
  after_prepare reader done fuel number (err e, w) = some w
  after_prepare reader done fuel number (ok (order, id), w) =
      poll reader done fuel number id (record { world = w; order = order })

  -- processOrder
  unfoldable pub process_order : Reader → (ℕ → Bool) → ℕ → Str → Bool → World → Option World
  unfolding after_prepare prepare
  process_order reader done fuel number allow_processing w =
      after_prepare reader done fuel number (prepare number allow_processing w)
