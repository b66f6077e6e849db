-- ===== src/Account/Approve.antt =====
-- ApproveTransaction keeps the ledger: its three branches, statement by statement.
use sufirmart.Base.{
  inl, inr, Bool-cases, Option-cases, Result-cases, ◌≡◌, Bool, true, false, Option, List, Str, pos,
  ◌-ℤ◌, ltb_ℤ, if◌then◌else◌, ℕ, Result, ok, err, bytes, pure, ◌>>◌, insufficient_funds,
}
use sufirmart.Domain.Amount.{
  Numeric, Float64, of_numeric, to_numeric, to_numeric_nonneg, numeric_zero,
}
use sufirmart.Store.{Db, TransactionRow}
use sufirmart.Store.Statement.{Env, World, statement}
use sufirmart.Store.Triple.{
  Triple, Post, BodyPost, Triple-bind, Triple-statement, Triple-transaction, Triple-pure,
  Triple-given,
}
use sufirmart.Account.Rows.{
  find_transaction, find_account, credit_account, accrue_transaction, set_transactions, one_row,
  read,
}
use sufirmart.Account.Ledger.{IsLedger, IsOpen-find, NotProcessed, cancel-IsLedger}
use sufirmart.Account.{
  approve_transaction, approve_body, approve_withdraw, approve_accrual, approve_nothing,
  conclude_withdraw,
}
use sufirmart.Account.Debts.{
  Waits, Owes, Anything, Debited, insert_account-Waits, debit-Debited, credit-Owes,
}
use sufirmart.Account.Debts.Settled.{settle-Ledger, accrue-Ledger, Waits-Owes}

-- Either way the ledger holds.
abbrev Whole : Result (Unit {0}) → Db → Type 0
Whole = Post (λ _ d. IsLedger d) IsLedger

module _ (env : Env) (id : Str) (t : TransactionRow) (now : ℕ) where
  read-Waits :
      {A : Type 0} (f : Db → Option A)
      → Triple
          (Waits id t)
          (statement env λ _ db. read (one_row (f db)) db)
          (λ _. Waits id t)
          Anything
  read-Waits f =
      Triple-statement env _ (λ _ _. tt)
        λ _ d w. elim (Option-cases (f d)) [ inl e ↦ rw e tt | inr (a, e) ↦ rw e w ]

  -- A last statement on the transactions, and the result.
  last-Whole :
      (P : Db → Type 0) (f : Db → List TransactionRow) (r : Result (Unit {0}))
      → ((d : Db) → P d → IsLedger (record d { transactions = f d }))
      → Triple P (statement env (λ _ db. set_transactions (f db) db) >> pure r) Whole Anything
  last-Whole P f r h =
      Triple-bind (λ _ d. IsLedger d) _ _ (Triple-statement env _ (λ _ _. tt) λ _ d p. h d p)
        λ _. Triple-pure r λ d q. both r d q
    where
      both : (s : Result (Unit {0})) (d : Db) → IsLedger d → Whole s d
      both (ok _) d q = q
      both (err _) d q = q

  conclude_withdraw-Whole :
      (b : Bool) → Triple (Debited id t b) (conclude_withdraw env id now b) Whole Anything
  unfolding conclude_withdraw
  conclude_withdraw-Whole true =
      last-Whole (Owes id t t.withdraw) _ (ok tt) λ d o. settle-Ledger id t now d o
  conclude_withdraw-Whole false =
      last-Whole (Waits id t) _ (err insufficient_funds)
        λ d w. cancel-IsLedger id now (bytes "insufficient funds") d t w.opened w.ledger

  approve_withdraw-Whole :
      Triple
        (Waits id t)
        (approve_withdraw env id t.user_id (of_numeric t.withdraw) now)
        Whole
        Anything
  unfolding approve_withdraw
  approve_withdraw-Whole =
      Triple-bind (λ _. Waits id t) _ _ (read-Waits (λ db. find_account t.user_id db.accounts))
        λ _.
          Triple-bind (Debited id t) _ _
            (Triple-statement env _ (λ _ _. tt) λ _. debit-Debited id t) conclude_withdraw-Whole

  accrue_transaction-Post :
      (accrual : Float64) (c : Numeric)
      → to_numeric accrual ≡ ok c
      → t.withdraw ≡ pos 0
      → (d : Db) → Owes id t (pos 0 -ℤ c) d
      → BodyPost (λ (_ : Unit {0}) d'. IsLedger d') Anything d (accrue_transaction id accrual now d)
  unfolding accrue_transaction
  accrue_transaction-Post accrual c stored zero d o =
      rw (stored, accrue_transaction) (accrue-Ledger id t now c d o zero)

  approve_accrual-Whole :
      (accrual : Float64)
      → ltb_ℤ (pos 0) accrual ≡ true
      → t.withdraw ≡ pos 0
      → Triple (Waits id t) (approve_accrual env id t.user_id accrual now) Whole Anything
  unfolding approve_accrual
  approve_accrual-Whole accrual positive zero = elim (Result-cases (to_numeric accrual)) [
    | inr (e, wide) ↦
        Triple-bind (λ _ _. ⊥) _ _
          (Triple-statement env _ (λ _ _. tt) λ _ d w. rw (wide, credit_account) tt)
          λ _. record { at = λ w p. absurd p }
    | inl (c, stored) ↦
        Triple-bind (λ _. Owes id t (pos 0 -ℤ c)) _ _
          (Triple-statement env _ (λ _ _. tt)
            λ _ d w.
              credit-Owes id t accrual c d stored (to_numeric_nonneg accrual c positive stored) w)
          λ _.
            Triple-bind (λ _ d. IsLedger d) _ _
              (Triple-statement env _ (λ _ _. tt)
                (λ _. accrue_transaction-Post accrual c stored zero))
              λ _. Triple-pure (ok tt) (λ d q. q)
  ]

  approve_nothing-Whole :
      t.withdraw ≡ pos 0 → Triple (Waits id t) (approve_nothing env id now) Whole Anything
  unfolding approve_nothing
  approve_nothing-Whole zero =
      last-Whole (Waits id t) _ (ok tt) λ d w. settle-Ledger id t now d (Waits-Owes id t d zero w)

module _ (env : Env) (id : Str) (accrual : Float64) where
  -- Before the call: the ledger holds, and the transaction is not processed.
  abbrev Ready : Db → Type 0
  Ready d = IsLedger d × NotProcessed id d

  branches-Whole :
      (t : TransactionRow) (now : ℕ)
      → Triple
          (Waits id t)
          (if ltb_ℤ (pos 0) (of_numeric t.withdraw)
            then approve_withdraw env id t.user_id (of_numeric t.withdraw) now
            else if ltb_ℤ (pos 0) accrual
            then approve_accrual env id t.user_id accrual now
            else approve_nothing env id now)
          Whole
          Anything
  branches-Whole t now = Triple-given λ d w.
      elim (Bool-cases (ltb_ℤ (pos 0) (of_numeric t.withdraw))) [
        | inl planned ↦ rw planned (approve_withdraw-Whole env id t now)
        | inr unplanned ↦
            let zero = numeric_zero t.withdraw w.opened.row.0 unplanned in
            elim (Bool-cases (ltb_ℤ (pos 0) accrual)) [
              | inl positive ↦
                  rw (unplanned, positive)
                    (approve_accrual-Whole env id t now accrual positive zero)
              | inr nothing ↦ rw (unplanned, nothing) (approve_nothing-Whole env id t now zero)
            ]
      ]

  approve_body-Whole : (now : ℕ) → Triple Ready (approve_body env id accrual now) Whole Anything
  unfolding approve_body
  approve_body-Whole now =
      Triple-bind (Waits id) _ _
        (Triple-statement env _ (λ _ _. tt)
          λ _ d p. elim (Option-cases (find_transaction id d.transactions)) [
            | inl e ↦ rw e tt
            | inr (t, e) ↦ rw e (record { ledger = p.0; opened = IsOpen-find id t d p.0 p.1 e })
          ])
        λ t.
          Triple-bind (λ _. Waits id t) _ _
            (Triple-statement env _ (λ _ _. tt) (λ _. insert_account-Waits id t))
            λ _. branches-Whole t now

  approve-Post : Triple Ready (approve_transaction env id accrual) (λ _ d. IsLedger d) IsLedger
  unfolding approve_transaction
  approve-Post = Triple-transaction env _ (λ _ p. p.0) approve_body-Whole

Whole-IsLedger : (r : Result (Unit {0})) (d : Db) → Whole r d → IsLedger d
Whole-IsLedger (ok _) d h = h
Whole-IsLedger (err _) d h = h

-- ApproveTransaction of a transaction that is not processed yet keeps the ledger, whatever the
-- accrual, whichever statement fails, and whether it ends in a result or in an error.
pub approve_transaction-IsLedger :
    (env : Env) (id : Str) (accrual : Float64) (w : World)
    → IsLedger w.db
    → NotProcessed id w.db
    → IsLedger (approve_transaction env id accrual w).1.db
approve_transaction-IsLedger env id accrual w h n =
    Whole-IsLedger (approve_transaction env id accrual w).0 _
      ((approve-Post env id accrual).at w (h, n))
