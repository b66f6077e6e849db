-- ===== src/Processor/Once.antt =====
-- A task of internal/order/processor.go credits its order at most once.
use sufirmart.Base.{pos, inl, inr, ◌≡◌, ◌∙◌, Bool, true, false, ◌||◌, Str, arith}
use sufirmart.Domain.Order.{Order, OrderStatus, is_invalid, is_processed, change_status}
use sufirmart.Store.Statement.{Env}
use sufirmart.Store.Triple.{Triple, Triple-weaken}
use sufirmart.Account.Credits.{credits}
use sufirmart.Orders.{save, find_order}
use sufirmart.Orders.Once.{IsOnce, Uncredited, Uncredited-pending, may_begin, is_pending}
use sufirmart.Orders.Once.Saved.{save-Once}
use sufirmart.Orders.Once.Tells.{get_by_number-pending}
use sufirmart.Orders.Once.Credited.{
  Before, Saved, approve-Saved, cancel-IsOnce, cancel_planned-Uncredited, register-Before,
}
use sufirmart.Processor.Round.{Final, IsRound}
use sufirmart.Processor.Taking.{IsTaken, touched, prepare-Before}
use sufirmart.Processor.{refuses}

settled :
    (status : OrderStatus)
    → is_invalid status || is_processed status ≡ true
    → is_pending status ≡ false
settled status e = ground arith

not_refused :
    (allow : Bool) (status : OrderStatus) → refuses allow status ≡ false → is_pending status ≡ true
unfolding refuses
not_refused allow status e = ground arith

change_status-number :
    (status : OrderStatus) (o : Order) → (change_status status o).1.number ≡ o.number
unfolding change_status
change_status-number status o = ground arith

module _ (env : Env) where
  -- An order that may be taken is not credited, and stays so while it is saved.
  save-Taken :
      (allow : Bool) (o : Order)
      → refuses allow o.status ≡ false
      → Triple
          (λ d. IsOnce d × (may_begin (find_order o.number d.orders) ≡ is_pending o.status))
          (save env (touched o))
          (λ _ d. IsOnce d × Uncredited (touched o).number d)
          IsOnce
  save-Taken allow o e =
      Triple-weaken _
        (λ d p.
          let none_yet : Uncredited (touched o).number d =
            rw (change_status-number OrderStatus.processing o)
              (Uncredited-pending o.number d p.0 (p.1 ∙ not_refused allow o.status e)) in
          (p.0, inr none_yet, none_yet))
        (λ a d q. (q.0, q.1)) (λ d q. q)
        (save-Once env (touched o) (λ ts. credits (touched o).number ts ≡ 0))

  IsOnce-IsTaken :
      IsTaken env IsOnce
        (λ o d. may_begin (find_order o.number d.orders) ≡ is_pending o.status)
        Uncredited
        (λ id number d. Before id number d.transactions)
  IsOnce-IsTaken = record {
    looks_up = λ number. get_by_number-pending env IsOnce number true;
    saves = save-Taken;
    cancels =
        λ user order_num reason number. cancel_planned-Uncredited env user order_num reason number;
    registers = λ user order_num comment.
        Triple-weaken _ (λ d p. p) (λ a d q. q) (λ d q. q.0)
          (register-Before env user order_num (pos 0) comment (omega arith));
  }

  save-Saved :
      (id : Str) (o : Order)
      → Final o
      → Triple
          (λ d. IsOnce d × Before id o.number d.transactions)
          (save env o)
          (λ _. Saved id o.number)
          IsOnce
  save-Saved id o f =
      Triple-weaken _ (λ d p. (p.0, inl (settled o.status f), p.1))
        (λ a d q. (q.0, q.1, q.2 ∙ settled o.status f)) (λ d q. q)
        (save-Once env o (Before id o.number))

  pub IsOnce-IsRound : IsRound env IsOnce (λ id number d. Before id number d.transactions) Saved
  IsOnce-IsRound = record {
    prepares = prepare-Before env IsOnce _ _ _ IsOnce-IsTaken;
    saves = save-Saved;
    approves = approve-Saved env;
    cancels = λ id number reason.
        Triple-weaken _ (λ d p. p.0) (λ a d q. q) (λ d q. q) (cancel-IsOnce env id reason);
  }
