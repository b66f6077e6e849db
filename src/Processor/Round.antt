-- ===== src/Processor/Round.antt =====
-- What a round of a task of internal/order/processor.go keeps, for a condition on the database that
-- holds between its rounds.
use sufirmart.Base.{
  Bool, inl, inr, ◌⊎◌, ◌≡◌, refl, true, false, ◌||◌, Bool-cases, still_processing, Str, Result, ok,
  err, Exec, attempt, raise, pure, ◌>>=◌, ◌>>◌,
}
use sufirmart.Domain.Amount.{Float64}
use sufirmart.Domain.Order.{Order, OrderStatus, is_invalid, is_processed, change_status}
use sufirmart.Domain.Status.{AccrualStatus}
use sufirmart.Store.{Db}
use sufirmart.Store.Statement.{Env, World}
use sufirmart.Store.Triple.{Triple, Post, Triple-statement, Triple-after}
use sufirmart.Account.{approve_transaction, cancel_transaction}
use sufirmart.Orders.{save}
use sufirmart.Tools.Transaction.{tx_call, wrap_transaction}
use sufirmart.Accrual.{Accrual, Reader, get}
use sufirmart.Processor.Triple.{
  TaskTriple, TaskTriple-pure, TaskTriple-on_world, TaskTriple-on_order, TaskTriple-attempt,
  TaskTriple-bind,
}
use sufirmart.Processor.{
  on_world, on_order, save_current, fail_order, success_order, settle, ask, prepare,
}

-- The order's status no longer changes.
abbrev pub Final : Order → Type 0
Final o = is_invalid o.status || is_processed o.status ≡ true

-- What has to be shown of a condition `I`. `Before` is known of the task's transaction and number until
-- the order is saved with its last status, and `Saved` from there on.
pub record IsRound (env : Env) (I : Db → Type 0) (Before Saved : Str → Str → Db → Type 0)
    : Type 0 where
  pub prepares :
      (number : Str) (allow_processing : Bool)
      → Triple I (prepare env number allow_processing) (λ r d. I d × Before r.1 r.0.number d) I
  pub saves :
      (id : Str) (o : Order)
      → Final o
      → Triple (λ d. I d × Before id o.number d) (save env o) (λ _. Saved id o.number) I
  pub approves :
      (id number : Str) (accrual : Float64)
      → Triple (Saved id number) (approve_transaction env id accrual) (λ _. I) I
  pub cancels :
      (id number reason : Str)
      → Triple (Saved id number) (cancel_transaction env id reason) (λ _. I) I

module _ (env : Env) (I : Db → Type 0) (Before Saved : Str → Str → Db → Type 0)
    (round : IsRound env I Before Saved) (id : Str) where
  -- Between the rounds: the task has either ended its order or not yet approved its transaction.
  abbrev pub Safe : Order → Db → Type 0
  Safe o d = I d × (Final o ⊎ Before id o.number d)

  -- While a round ends the order.
  abbrev Ending : Order → Db → Type 0
  Ending o d = (I d × Before id o.number d) × Final o

  abbrev Closing : Order → Db → Type 0
  Closing o d = Saved id o.number d × Final o

  change_status-Ending :
      (status : OrderStatus) (o : Order) (d : Db)
      → is_invalid status || is_processed status ≡ true
      → Safe o d
      → Post
          (λ _. Ending (change_status status o).1)
          (Safe (change_status status o).1)
          (change_status status o).0
          d
  unfolding change_status
  change_status-Ending status o d f h =
      elim (Bool-cases (is_invalid o.status || is_processed o.status)) [
        | inl final ↦ rw (final, change_status) h
        | inr going ↦ rw (going, change_status) ((h.0, unapproved going h.1), f)
      ]
    where
      unapproved :
          is_invalid o.status || is_processed o.status ≡ false
          → Final o ⊎ Before id o.number d
          → Before id o.number d
      unapproved going (inl final) = cc
      unapproved going (inr n) = n

  call-Safe : TaskTriple Safe (on_world (tx_call env)) (λ _. Safe) Safe
  unfolding tx_call
  call-Safe = TaskTriple-on_world _ λ o. Triple-statement env _ (λ _ p. p) (λ now d p. p)

  save-Closing : TaskTriple Ending (save_current env) (λ _. Closing) Safe
  save-Closing = record {
    at = λ s p.
        either s.order (save env s.order s.world).0 (save env s.order s.world).1.db p.1
          ((round.saves id s.order p.1).at s.world p.0);
  }
    where
      either :
          (o : Order) (r : Result (Unit {0})) (d : Db)
          → Final o
          → Post (λ _. Saved id o.number) I r d
          → Post (λ _. Closing o) (Safe o) r d
      either o (ok _) d f h = (h, f)
      either o (err _) d f h = (h, inl f)

  closed :
      (m : Exec World (Unit {0})) (o : Order)
      → Triple (Saved id o.number) m (λ _. I) I
      → Triple (Closing o) m (λ _. Safe o) (Safe o)
  closed m o h = record { at = λ w p. either (m w).0 (m w).1.db p.1 (h.at w p.0) }
    where
      either :
          (r : Result (Unit {0})) (d : Db)
          → Final o
          → Post (λ _. I) I r d
          → Post (λ _. Safe o) (Safe o) r d
      either (ok _) d f i = (i, inl f)
      either (err _) d f i = (i, inl f)

  -- A step that changes the status to a last one, saves the order and then changes the ledger.
  end_round :
      (status : OrderStatus) (m : Exec World (Unit {0}))
      → is_invalid status || is_processed status ≡ true
      → ((number : Str) → Triple (Saved id number) m (λ _. I) I)
      → TaskTriple Safe
          (wrap_transaction
            (on_world (tx_call env))
            (on_order status >> (save_current env >> on_world m)))
          (λ _. Safe)
          Safe
  unfolding wrap_transaction
  end_round status m f keeps =
      TaskTriple-bind (λ _. Safe) _ _ call-Safe
        λ _.
          TaskTriple-bind (λ _. Safe) _ _ steps
            λ r. TaskTriple-bind (λ _. Safe) _ _ call-Safe λ _. TaskTriple-pure r (λ o d q. q)
    where
      steps : TaskTriple Safe (on_order status >> (save_current env >> on_world m)) (λ _. Safe) Safe
      steps =
          TaskTriple-bind (λ _. Ending) _ _
            (TaskTriple-on_order status Safe Ending Safe
              (λ o d h. change_status-Ending status o d f h))
            λ _.
              TaskTriple-bind (λ _. Closing) _ _ save-Closing
                λ _. TaskTriple-on_world m λ o. closed m o (keeps o.number)

  pub fail_order-Safe : (reason : Str) → TaskTriple Safe (fail_order env id reason) (λ _. Safe) Safe
  unfolding fail_order
  fail_order-Safe reason =
      end_round OrderStatus.invalid (cancel_transaction env id reason) refl
        λ number. round.cancels id number reason

  success_order-Safe :
      (accrual : Float64) → TaskTriple Safe (success_order env id accrual) (λ _. Safe) Safe
  unfolding success_order
  success_order-Safe accrual =
      end_round OrderStatus.processed (approve_transaction env id accrual) refl
        λ number. round.approves id number accrual

  failed-Safe :
      (reason : Str)
      → TaskTriple Safe
          (attempt (fail_order env id reason) >>= λ _. pure tt)
          (λ (_ : Unit {0}). Safe)
          Safe
  failed-Safe reason =
      TaskTriple-bind (λ _. Safe) _ _ (TaskTriple-attempt Safe Safe Safe _ (fail_order-Safe reason))
        λ _. TaskTriple-pure tt (λ o d q. q)

  waiting-Safe : TaskTriple Safe (raise still_processing) (λ (_ : Unit {0}). Safe) Safe
  waiting-Safe = record { at = λ s p. p }

  settle-Safe : (info : Accrual) → TaskTriple Safe (settle env id info) (λ _. Safe) Safe
  unfolding settle
  settle-Safe info = by_status info.status
    where
      by_status :
          (status : AccrualStatus)
          → TaskTriple Safe (settle env id (record info { status = status })) (λ _. Safe) Safe
      by_status AccrualStatus.registered = waiting-Safe
      by_status AccrualStatus.processing = waiting-Safe
      by_status AccrualStatus.invalid = failed-Safe _
      by_status AccrualStatus.processed = success_order-Safe info.value
      by_status AccrualStatus.unspecified = failed-Safe _

  get-Safe :
      (reader : Reader) (number : Str)
      → TaskTriple Safe (on_world (get reader number)) (λ _. Safe) Safe
  unfolding get
  get-Safe reader number = TaskTriple-on_world _ λ o. Triple-after (Safe o) (Safe o) _ (λ w p. p)

  pub ask-Safe :
      (reader : Reader) (number : Str) → TaskTriple Safe (ask env reader number id) (λ _. Safe) Safe
  unfolding ask
  ask-Safe reader number = TaskTriple-bind (λ _. Safe) _ _ (get-Safe reader number) settle-Safe
