-- ===== src/Processor/Start.antt =====
-- How processOrder of internal/order/processor.go takes an order and plans its transaction.
use sufirmart.Base.{
  inl, inr, ◌≡◌, ℕ, Bool, true, false, Option-cases, Result-cases, none, some, [], ◌∷◌, ◌++◌, Str,
  sym, ◌∙◌, arith,
}
use sufirmart.Domain.Amount.{Float64, Numeric, to_numeric}
use sufirmart.Store.{Db, UserRow, TransactionRow}
use sufirmart.Store.Table.{find}
use sufirmart.Store.Statement.{Env}
use sufirmart.Store.Triple.{
  Triple, BodyPost, Triple-statement, Triple-bind, Triple-pure, Triple-new_uuid, Triple-lift,
  Triple-if, Triple-also,
}
use sufirmart.Account.Ledger.{IsLedger, NotProcessed}
use sufirmart.Account.Rows.{is_processed, find_transaction, insert_transaction}
use sufirmart.Account.Register.{find-planned_row, planned_row}
use sufirmart.Account.Calls.{cancel_planned-Keeps, register_transaction-Keeps}
use sufirmart.Account.{register_transaction}
use sufirmart.Tools.Transaction.{tx_call, wrap_transaction}
use sufirmart.Orders.Keeps.{Ignores, IsLedger-Ignores, get_by_number-Keeps, save-Keeps}
use sufirmart.Processor.{touch_body, touch_order, prepare, refuses}

-- A planned transaction that is found was not processed.
insert_transaction-NotProcessed :
    (id user order_num : Str) (accrual withdraw : Float64) (comment : Str) (now : ℕ) (db : Db)
    → BodyPost
        (λ (_ : Unit {0}). NotProcessed id)
        (λ _. Unit {0})
        db
        (insert_transaction id user order_num accrual withdraw comment now db)
unfolding insert_transaction
insert_transaction-NotProcessed id user order_num accrual withdraw comment now db =
    elim (Option-cases (find_transaction id db.transactions)) [
      | inr (t, e) ↦ rw (e, insert_transaction) tt
      | inl e ↦ elim (Option-cases (find (λ (u : UserRow). u.id) user db.users)) [
        | inl no_user ↦ rw (e, insert_transaction, no_user) tt
        | inr (u, known) ↦ elim (Result-cases (to_numeric accrual)) [
          | inr (bad, wide) ↦ rw (e, insert_transaction, known, wide) tt
          | inl (a, stored) ↦ elim (Result-cases (to_numeric withdraw)) [
            | inr (bad, wide) ↦ rw (e, insert_transaction, known, stored, wide) tt
            | inl (c, kept) ↦
                rw (e, insert_transaction, known, stored, kept) (λ t f. planned a c t e f)
          ]
        ]
      ]
    ]
  where
    planned :
        (a c : Numeric) (t : TransactionRow)
        → find_transaction id db.transactions ≡ none
        → find_transaction id
            (db.transactions ++ planned_row id user order_num a c comment now ∷ [])
          ≡ some t
        → is_processed t.status ≡ false
    planned a c t e f =
        let same : some (planned_row id user order_num a c comment now) ≡ some t =
          sym (find-planned_row (planned_row id user order_num a c comment now) db.transactions e)
          ∙ f in
        ground arith

module _ (env : Env) where
  pub register_transaction-NotProcessed :
      (user order_num : Str) (sum : Float64) (comment : Str)
      → Triple
          (λ _. Unit {0})
          (register_transaction env user order_num sum comment)
          NotProcessed
          (λ _. Unit {0})
  unfolding register_transaction
  register_transaction-NotProcessed user order_num sum comment =
      Triple-bind (λ _ _. Unit {0}) _ _ (Triple-new_uuid (λ _. Unit {0}) (λ _. Unit {0}) env)
        λ id.
          Triple-bind (λ _. NotProcessed id) _ _
            (Triple-statement env _ (λ _ p. p)
              (λ now d p. insert_transaction-NotProcessed id user order_num _ _ comment now d))
            λ _. Triple-pure id (λ d q. q)

  -- Taking an order keeps every condition that does not read the orders.
  module _ (I : Db → Type 0) (ignores : Ignores I) where
    call-Keeps : Triple I (tx_call env) (λ _. I) I
    unfolding tx_call
    call-Keeps = Triple-statement env _ (λ _ p. p) (λ now d p. p)

    pub touch_order-Keeps :
        (number : Str) (allow_processing : Bool)
        → Triple I (touch_order env number allow_processing) (λ _. I) I
    unfolding touch_order touch_body wrap_transaction
    touch_order-Keeps number allow_processing =
        Triple-bind (λ _. I) _ _ call-Keeps
          λ _.
            Triple-bind (λ _. I) _ _ body
              λ o. Triple-bind (λ _. I) _ _ call-Keeps λ _. Triple-pure o (λ d q. q)
      where
        body : Triple I (touch_body env number allow_processing) (λ _. I) I
        body =
            Triple-bind (λ _. I) _ _ (get_by_number-Keeps env I number true)
              λ o. Triple-if (refuses allow_processing o.status) (Triple-lift _) (
                Triple-bind (λ _. I) _ _ (Triple-lift _)
                  λ _.
                    Triple-bind (λ _. I) _ _ (save-Keeps env I ignores _)
                      λ _. Triple-pure _ (λ d q. q))

  pub prepare-Keeps :
      (number : Str) (allow_processing : Bool)
      → Triple IsLedger
          (prepare env number allow_processing)
          (λ r d. IsLedger d × NotProcessed r.1 d)
          IsLedger
  unfolding prepare
  prepare-Keeps number allow_processing =
      Triple-bind (λ _. IsLedger) _ _
        (touch_order-Keeps IsLedger IsLedger-Ignores number allow_processing)
        λ o.
          Triple-bind (λ _. IsLedger) _ _ (cancel_planned-Keeps env _ _ _)
            λ _.
              Triple-bind (λ id d. IsLedger d × NotProcessed id d) _ _
                (Triple-also _ (register_transaction-Keeps env _ _ _ _ (omega arith))
                  (register_transaction-NotProcessed _ _ _ _))
                λ id. Triple-pure (o, id) (λ d q. q)
