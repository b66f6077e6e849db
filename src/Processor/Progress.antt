-- ===== src/Processor/Progress.antt =====
-- What a task of internal/order/processor.go makes of the orders: their statuses only move on.
use sufirmart.Base.{◌≡◌, ◌∙◌, ap, Bool, true, false, List, Str, pos, arith}
use sufirmart.Domain.Amount.{Float64}
use sufirmart.Domain.Order.{Order, OrderStatus, change_status}
use sufirmart.Store.{Db, OrderRow}
use sufirmart.Store.Statement.{Env}
use sufirmart.Store.Triple.{Triple, Triple-statement, Triple-weaken, Triple-both}
use sufirmart.Account.Writes.{approve_transaction-Triple}
use sufirmart.Account.Additions.{register_transaction-Triple}
use sufirmart.Account.{
  approve_transaction, cancel_transaction, cancel_planned_transactions_by_order,
}
use sufirmart.Orders.{save, find_order}
use sufirmart.Orders.Once.{may_begin, is_pending}
use sufirmart.Orders.Once.Saved.{save-marks}
use sufirmart.Orders.Once.Tells.{get_by_number-pending}
use sufirmart.Orders.Progress.{
  Progress, Allows, MayBecome, pending-processing, pending-final, save-Progress,
}
use sufirmart.Processor.{refuses}
use sufirmart.Processor.Round.{Final, IsRound}
use sufirmart.Processor.Taking.{IsTaken, touched, prepare-Before}

-- An order that touchOrder does not refuse is new or in processing, and is in processing then.
touched-status :
    (allow : Bool) (o : Order)
    → refuses allow o.status ≡ false
    → (is_pending o.status ≡ true)
      × ((touched o).status ≡ OrderStatus.processing)
      × ((touched o).number ≡ o.number)
unfolding refuses change_status
touched-status allow o e = (ground arith, ground arith, ground arith)

module _ (env : Env) (before : List OrderRow) where
  abbrev pub Since : Db → Type 0
  Since d = Progress before d.orders

  -- The order may be processed, or is not there.
  abbrev Pending : Str → Db → Type 0
  Pending number d = may_begin (find_order number d.orders) ≡ true

  Pending-Allows :
      (number : Str) (status : OrderStatus) (d : Db)
      → Pending number d
      → ((s : OrderStatus) → is_pending s ≡ true → MayBecome s status)
      → Allows number status d
  Pending-Allows number status d h moves row e =
      let going : is_pending row.status ≡ true = rw e at h in moves row.status going

  save-Pending :
      (allow : Bool) (o : Order)
      → refuses allow o.status ≡ false
      → Triple
          (λ d. Since d × (may_begin (find_order o.number d.orders) ≡ is_pending o.status))
          (save env (touched o))
          (λ _ d. Since d × Pending (touched o).number d)
          Since
  save-Pending allow o e =
      let (going, status, number) = touched-status allow o e in
      Triple-weaken _
        (λ d p.
          let known : Pending (touched o).number d = rw (number) (p.1 ∙ going) in
          (
            (
              p.0,
              rw (status) (
                  Pending-Allows (touched o).number OrderStatus.processing d known
                    pending-processing),
            ),
            tt,
          ))
        (λ a d q. (q.0, q.1 ∙ ap is_pending status)) (λ d q. q.0)
        (Triple-both _ (save-Progress env before (touched o)) (save-marks env (touched o)))

  Since-IsTaken :
      IsTaken env Since
        (λ o d. may_begin (find_order o.number d.orders) ≡ is_pending o.status)
        Pending
        (λ id. Pending)
  unfolding cancel_planned_transactions_by_order
  Since-IsTaken = record {
    looks_up = λ number. get_by_number-pending env Since number true;
    saves = save-Pending;
    cancels = λ user order_num reason number. Triple-statement env _ (λ d p. p.0) (λ now d p. p);
    registers = λ user order_num comment.
        Triple-weaken _ (λ d p. p) (λ a d q. q) (λ d q. q.0)
          (register_transaction-Triple (λ d. Since d × Pending order_num d)
            (λ _ d. Since d × Pending order_num d) user order_num
            (λ t d missing named zero unsettled h. h) env (pos 0) comment (omega arith));
  }

  pub approve-Since :
      (id : Str) (accrual : Float64)
      → Triple Since (approve_transaction env id accrual) (λ _. Since) Since
  approve-Since id accrual =
      approve_transaction-Triple Since (λ d rows h. h) Since env id accrual (λ d h. h)
        (λ now d h. h) (λ now reason d h. h) (λ positive now a d h. h)

  save-Final :
      (id : Str) (o : Order)
      → Final o
      → Triple (λ d. Since d × Pending o.number d) (save env o) (λ _. Since) Since
  save-Final id o f =
      Triple-weaken _
        (λ d p. (p.0, Pending-Allows o.number o.status d p.1 (λ s e. pending-final s o.status e f)))
        (λ a d q. q) (λ d q. q) (save-Progress env before o)

  pub Since-IsRound : IsRound env Since (λ id. Pending) (λ id number. Since)
  unfolding cancel_transaction
  Since-IsRound = record {
    prepares = prepare-Before env Since _ _ _ Since-IsTaken;
    saves = save-Final;
    approves = λ id number accrual. approve-Since id accrual;
    cancels = λ id number reason. Triple-statement env _ (λ _ p. p) (λ now d p. p);
  }
