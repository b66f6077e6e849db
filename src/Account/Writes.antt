-- ===== src/Account/Writes.antt =====
-- What ApproveTransaction of internal/repository/account.go keeps, for a condition that the change of
-- a transaction is known to keep.
use sufirmart.Base.{
  refl, inl, inr, Bool-cases, Option-cases, Result-cases, ◌≡◌, ℕ, Bool, true, false, List, Str, pos,
  ltb_ℤ, leb_ℤ, Result, ok, err, ◌-ℤ◌, ◌+ℤ◌, if◌then◌else◌,
}
use sufirmart.Domain.Amount.{Float64, Numeric, fits, of_numeric, to_numeric}
use sufirmart.Store.{Db, UserRow, TransactionRow, AccountRow}
use sufirmart.Store.Table.{find}
use sufirmart.Store.Statement.{Env}
use sufirmart.Store.Triple.{
  Triple, Post, BodyPost, Triple-statement, Triple-bind, Triple-pure, Triple-if, Triple-transaction,
}
use sufirmart.Account.Rows.{
  read, find_account, update_transaction, insert_account, debit_account, credit_account,
  accrue_transaction, settle_row, cancel_row, accrue_row,
}
use sufirmart.Account.{
  approve_transaction, approve_body, approve_withdraw, approve_accrual, approve_nothing,
  conclude_withdraw,
}

abbrev Anything : Db → Type 0
Anything _ = Unit {0}

read-Any :
    {A : Type 0} (P : Db → Type 0) (r : Result A) (d : Db)
    → P d
    → BodyPost (λ _. P) Anything d (read r d)
read-Any P (ok a) d p = p
read-Any P (err e) d p = tt

-- A transaction's row is changed.
abbrev pub changed : Str → (TransactionRow → TransactionRow) → Db → Db
changed id f d = record d { transactions = update_transaction id f d.transactions }

module _ (P : Db → Type 0)
    (ignores : (d : Db) (rows : List AccountRow) → P d → P (record d { accounts = rows })) where
  insert_account-Any :
      (user : Str) (d : Db)
      → P d
      → BodyPost (λ (_ : Unit {0}). P) Anything d (insert_account user d)
  unfolding insert_account
  insert_account-Any user d h = elim (Option-cases (find_account user d.accounts)) [
    | inr (a, e) ↦ rw (e, insert_account) (ignores d _ h)
    | inl e ↦ elim (Option-cases (find (λ (u : UserRow). u.id) user d.users)) [
      | inl no_user ↦ rw (e, insert_account, no_user) tt
      | inr (u, known) ↦ rw (e, insert_account, known) (ignores d _ h)
    ]
  ]

  debit_account-Any :
      (user : Str) (amount : Float64) (d : Db)
      → P d
      → BodyPost (λ (_ : Bool). P) Anything d (debit_account user amount d)
  unfolding debit_account
  debit_account-Any user amount d h = elim (Option-cases (find_account user d.accounts)) [
    | inl e ↦ rw (e, debit_account) h
    | inr (a, e) ↦ elim (Bool-cases (leb_ℤ amount (of_numeric a.current_balance))) [
      | inr short ↦ rw (e, debit_account, short) h
      | inl enough ↦ elim (Result-cases (to_numeric (of_numeric a.current_balance -ℤ amount))) [
        | inr (bad, wide) ↦ rw (e, debit_account, enough, wide) tt
        | inl (b, stored) ↦ rw (e, debit_account, enough, stored) (ignores d _ h)
      ]
    ]
  ]

  credit_account-Any :
      (user : Str) (amount : Float64) (d : Db)
      → P d
      → BodyPost (λ (_ : Unit {0}). P) Anything d (credit_account user amount d)
  unfolding credit_account
  credit_account-Any user amount d h = elim (Result-cases (to_numeric amount)) [
    | inr (bad, wide) ↦ rw (wide, credit_account) tt
    | inl (c, stored) ↦ elim (Option-cases (find_account user d.accounts)) [
      | inr (a, e) ↦ elim (Bool-cases (fits (a.current_balance +ℤ c))) [
        | inl fit ↦ rw (stored, credit_account, e, fit) (ignores d _ h)
        | inr wide ↦ rw (stored, credit_account, e, wide) tt
      ]
      | inl e ↦ elim (Option-cases (find (λ (u : UserRow). u.id) user d.users)) [
        | inl no_user ↦ rw (stored, credit_account, e, no_user) tt
        | inr (u, known) ↦ rw (stored, credit_account, e, known) (ignores d _ h)
      ]
    ]
  ]

  -- ApproveTransaction settles, cancels or accrues the transaction, the last only for a positive
  -- accrual, or changes none.
  module _ (Q : Db → Type 0) (env : Env) (id : Str) (accrual : Float64)
      (stays : (d : Db) → P d → Q d)
      (settles : (now : ℕ) (d : Db) → P d → Q (changed id (settle_row now) d))
      (cancels : (now : ℕ) (reason : Str) (d : Db) → P d → Q (changed id (cancel_row now reason) d))
      (accrues : ltb_ℤ (pos 0) accrual ≡ true
        → (now : ℕ) (a : Numeric) (d : Db) → P d
        → Q (changed id (accrue_row now a) d)) where
    Done : {A : Type 0} → Result A → Db → Type 0
    Done = Post (λ _. Q) Q

    accrue_transaction-Any :
        (now : ℕ) (d : Db)
        → ltb_ℤ (pos 0) accrual ≡ true
        → P d
        → BodyPost (λ (_ : Unit {0}). Q) Anything d (accrue_transaction id accrual now d)
    unfolding accrue_transaction
    accrue_transaction-Any now d positive h = elim (Result-cases (to_numeric accrual)) [
      | inr (bad, wide) ↦ rw (wide, accrue_transaction) tt
      | inl (a, stored) ↦ rw (stored, accrue_transaction) (accrues positive now a d h)
    ]

    conclude-Done :
        (now : ℕ) (affected : Bool) → Triple P (conclude_withdraw env id now affected) Done Anything
    unfolding conclude_withdraw Done
    conclude-Done now true =
        Triple-bind (λ _. Q) _ _ (Triple-statement env _ (λ _ _. tt) λ _ d p. settles now d p)
          λ _. Triple-pure _ (λ d q. q)
    conclude-Done now false =
        Triple-bind (λ _. Q) _ _ (Triple-statement env _ (λ _ _. tt) λ _ d p. cancels now _ d p)
          λ _. Triple-pure _ (λ d q. q)

    withdraw-Done :
        (user : Str) (planned : Float64) (now : ℕ)
        → Triple P (approve_withdraw env id user planned now) Done Anything
    unfolding approve_withdraw
    withdraw-Done user planned now =
        Triple-bind (λ _. P) _ _ (Triple-statement env _ (λ _ _. tt) λ _ d p. read-Any P _ d p)
          λ _.
            Triple-bind (λ _. P) _ _
              (Triple-statement env _ (λ _ _. tt) λ _ d p. debit_account-Any user planned d p)
              (conclude-Done now)

    accrual-Done :
        (user : Str) (now : ℕ)
        → ltb_ℤ (pos 0) accrual ≡ true
        → Triple P (approve_accrual env id user accrual now) Done Anything
    unfolding approve_accrual Done
    accrual-Done user now positive =
        Triple-bind (λ _. P) _ _
          (Triple-statement env _ (λ _ _. tt) λ _ d p. credit_account-Any user accrual d p)
          λ _.
            Triple-bind (λ _. Q) _ _
              (Triple-statement env _ (λ _ _. tt) λ _ d p. accrue_transaction-Any now d positive p)
              λ _. Triple-pure _ (λ d q. q)

    nothing-Done : (now : ℕ) → Triple P (approve_nothing env id now) Done Anything
    unfolding approve_nothing Done
    nothing-Done now =
        Triple-bind (λ _. Q) _ _ (Triple-statement env _ (λ _ _. tt) λ _ d p. settles now d p)
          λ _. Triple-pure _ (λ d q. q)

    accrued-Done :
        (user : Str) (now : ℕ) (positive : Bool)
        → ltb_ℤ (pos 0) accrual ≡ positive
        → Triple P
            (if positive
              then approve_accrual env id user accrual now
              else approve_nothing env id now)
            Done
            Anything
    accrued-Done user now true e = accrual-Done user now e
    accrued-Done user now false e = nothing-Done now

    body-Done : (now : ℕ) → Triple P (approve_body env id accrual now) Done Anything
    unfolding approve_body
    body-Done now =
        Triple-bind (λ _. P) _ _ (Triple-statement env _ (λ _ _. tt) λ _ d p. read-Any P _ d p)
          λ t.
            Triple-bind (λ _. P) _ _
              (Triple-statement env _ (λ _ _. tt) λ _ d p. insert_account-Any t.user_id d p)
              λ _.
                Triple-if (ltb_ℤ (pos 0) (of_numeric t.withdraw))
                  (withdraw-Done t.user_id (of_numeric t.withdraw) now)
                  (accrued-Done t.user_id now _ refl)

    pub approve_transaction-Triple : Triple P (approve_transaction env id accrual) (λ _. Q) Q
    unfolding approve_transaction Done
    approve_transaction-Triple = Triple-transaction env _ stays body-Done
