-- ===== src/Processor/Taking.antt =====
-- How processOrder of internal/order/processor.go comes to a task, for a condition that is known of the
-- order once it is taken.
use sufirmart.Base.{
  ◌≡◌, refl, Bool, true, false, Str, lift, pure, raise, ◌>>◌, no_rows, pos, if◌then◌else◌,
}
use sufirmart.Domain.Order.{Order, OrderStatus, change_status}
use sufirmart.Store.{Db}
use sufirmart.Store.Statement.{Env}
use sufirmart.Store.Triple.{
  Triple, Triple-statement, Triple-bind, Triple-pure, Triple-lift, Triple-weaken,
}
use sufirmart.Account.{register_transaction, cancel_planned_transactions_by_order}
use sufirmart.Orders.{get_by_number, save}
use sufirmart.Tools.Transaction.{tx_call, wrap_transaction}
use sufirmart.Processor.{touch_body, touch_order, prepare, refuses}

-- The order that touchOrder saves.
abbrev pub touched : Order → Order
touched o = (change_status OrderStatus.processing o).1

-- What has to be shown of a condition `I`: `Known` is known of an order that was read, `Taken` of its
-- number once it is saved, and `Before` also of the planned transaction.
pub record IsTaken (env : Env) (I : Db → Type 0) (Known : Order → Db → Type 0)
    (Taken : Str → Db → Type 0) (Before : Str → Str → Db → Type 0) : Type 0 where
  pub looks_up :
      (number : Str) → Triple I (get_by_number env number true) (λ o d. I d × Known o d) I
  pub saves :
      (allow : Bool) (o : Order)
      → refuses allow o.status ≡ false
      → Triple
          (λ d. I d × Known o d)
          (save env (touched o))
          (λ _ d. I d × Taken (touched o).number d)
          I
  pub cancels :
      (user order_num reason number : Str)
      → Triple
          (λ d. I d × Taken number d)
          (cancel_planned_transactions_by_order env user order_num reason)
          (λ _ d. I d × Taken number d)
          I
  pub registers :
      (user order_num comment : Str)
      → Triple
          (λ d. I d × Taken order_num d)
          (register_transaction env user order_num (pos 0) comment)
          (λ id d. I d × Before id order_num d)
          I

module _ (env : Env) (I : Db → Type 0) (Known : Order → Db → Type 0) (Taken : Str → Db → Type 0)
    (Before : Str → Str → Db → Type 0) (rule : IsTaken env I Known Taken Before) where
  call : (P : Db → Type 0) → ((d : Db) → P d → I d) → Triple P (tx_call env) (λ _. P) I
  unfolding tx_call
  call P stays = Triple-statement env _ (λ d p. stays d p) (λ now d p. p)

  unless_refused :
      (allow : Bool) (o : Order) (refused : Bool)
      → refuses allow o.status ≡ refused
      → Triple
          (λ d. I d × Known o d)
          (if refused
            then raise no_rows
            else (lift (change_status OrderStatus.processing o).0
                >> (save env (touched o) >> pure (touched o))))
          (λ o d. I d × Taken o.number d)
          I
  unless_refused allow o true e = record { at = λ w p. p.0 }
  unless_refused allow o false e =
      Triple-bind (λ _ d. I d × Known o d) _ _
        (Triple-weaken _ (λ d p. p) (λ a d p. p) (λ d p. p.0)
          (Triple-lift (change_status OrderStatus.processing o).0))
        λ _.
          Triple-bind (λ _ d. I d × Taken (touched o).number d) _ _ (rule.saves allow o e)
            λ _. Triple-pure (touched o) (λ d q. q)

  touch_order-Taken :
      (number : Str) (allow : Bool)
      → Triple I (touch_order env number allow) (λ o d. I d × Taken o.number d) I
  unfolding touch_order touch_body wrap_transaction
  touch_order-Taken number allow =
      Triple-bind (λ _. I) _ _ (call I (λ d p. p))
        λ _.
          Triple-bind (λ o d. I d × Taken o.number d) _ _
            (Triple-bind (λ o d. I d × Known o d) _ _ (rule.looks_up number)
              λ o. unless_refused allow o (refuses allow o.status) refl)
            λ o.
              Triple-bind (λ _ d. I d × Taken o.number d) _ _
                (call (λ d. I d × Taken o.number d) (λ d p. p.0)) λ _. Triple-pure o (λ d q. q)

  pub prepare-Before :
      (number : Str) (allow : Bool)
      → Triple I (prepare env number allow) (λ r d. I d × Before r.1 r.0.number d) I
  unfolding prepare
  prepare-Before number allow =
      Triple-bind (λ o d. I d × Taken o.number d) _ _ (touch_order-Taken number allow)
        λ o.
          Triple-bind (λ _ d. I d × Taken o.number d) _ _ (rule.cancels _ _ _ o.number)
            λ _.
              Triple-bind (λ id d. I d × Before id o.number d) _ _ (rule.registers _ _ _)
                λ id. Triple-pure (o, id) (λ d q. q)
