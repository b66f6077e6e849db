-- ===== src/Account/Additions.antt =====
-- What RegisterTransaction of internal/repository/account.go adds to the tables.
use sufirmart.Base.{
  false, ◌≤ℤ◌, arith, refl, inl, inr, Option-cases, Result-cases, ◌≡◌, ℕ, none, [], ◌∷◌, ◌++◌, Str,
  pos,
}
use sufirmart.Domain.Amount.{Float64, to_numeric, to_numeric-zero}
use sufirmart.Store.{Db, UserRow, TransactionRow}
use sufirmart.Store.Table.{find}
use sufirmart.Store.Statement.{Env}
use sufirmart.Store.Triple.{
  Triple, BodyPost, Triple-statement, Triple-bind, Triple-pure, Triple-new_uuid,
}
use sufirmart.Account.Rows.{is_processed, find_transaction, insert_transaction}
use sufirmart.Account.{register_transaction, accrual_part, withdraw_part}

registered_accrual : (sum : Float64) → sum ≤ℤ pos 0 → accrual_part sum ≡ pos 0
unfolding accrual_part
registered_accrual sum h = ground arith

-- RegisterTransaction of a sum that is not positive adds a row without an accrual, or nothing.
module _ (P : Db → Type 0) (Q : Str → Db → Type 0) (user order_num : Str)
    (adds : (t : TransactionRow) (d : Db)
      → find_transaction t.id d.transactions ≡ none
      → t.order_num ≡ order_num
      → t.accrual ≡ pos 0
      → is_processed t.status ≡ false
      → P d
      → Q t.id (record d { transactions = d.transactions ++ t ∷ [] })) where
  insert_transaction-Added :
      (id : Str) (withdraw : Float64) (comment : Str) (now : ℕ) (d : Db)
      → P d
      → BodyPost
          (λ (_ : Unit {0}). Q id)
          P
          d
          (insert_transaction id user order_num (pos 0) withdraw comment now d)
  unfolding insert_transaction
  insert_transaction-Added id withdraw comment now d h =
      elim (Option-cases (find_transaction id d.transactions)) [
        | inr (t, e) ↦ rw (e, insert_transaction) h
        | inl e ↦ elim (Option-cases (find (λ (u : UserRow). u.id) user d.users)) [
          | inl no_user ↦ rw (e, insert_transaction, no_user) h
          | inr (u, known) ↦ elim (Result-cases (to_numeric withdraw)) [
            | inr (bad, wide) ↦ rw (e, insert_transaction, known, to_numeric-zero, wide) h
            | inl (c, stored) ↦
                rw (e, insert_transaction, known, to_numeric-zero, stored)
                  (adds _ d e refl refl refl h)
          ]
        ]
      ]

  pub register_transaction-Triple :
      (env : Env) (sum : Float64) (comment : Str)
      → sum ≤ℤ pos 0
      → Triple P (register_transaction env user order_num sum comment) Q P
  unfolding register_transaction
  register_transaction-Triple env sum comment low =
      Triple-bind (λ _. P) _ _ (Triple-new_uuid P P env)
        λ id.
          Triple-bind (λ _. Q id) _ _
            (Triple-statement env _ (λ _ p. p)
              λ now d p.
                rw (registered_accrual sum low)
                  (insert_transaction-Added id (withdraw_part sum) comment now d p))
            λ _. Triple-pure id (λ d q. q)
