-- ===== src/Account/Debts/Settled.antt =====
-- How the last statement of each branch of ApproveTransaction in internal/repository/account.go makes
-- the ledger whole.
use sufirmart.Base.{
  inl, inr, Bool-cases, ◌≡◌, Str, str_eq, pos, ◌+ℤ◌, ◌-ℤ◌, int_laws, if◌then◌else◌, arith, ℕ,
}
use sufirmart.Domain.Amount.{Numeric}
use sufirmart.Store.{Db, TransactionRow}
use sufirmart.Account.Rows.{update_transaction, settle_row, accrue_row}
use sufirmart.Account.Sums.{contribution}
use sufirmart.Account.Ledger.{IsLedger, settle-IsLedger}
use sufirmart.Account.Debts.{Waits, Owes}

module _ (id : Str) (t : TransactionRow) where
  pub settle-Ledger :
      (now : ℕ) (db : Db)
      → Owes id t t.withdraw db
      → IsLedger
          (record db { transactions = update_transaction id (settle_row now) db.transactions })
  settle-Ledger now db o =
      settle-IsLedger id (settle_row now) t.withdraw db t o.opened o.owing (o.opened.row.0, λ h. cc)
        counts
    where
      zero : t.accrual ≡ pos 0
      zero = o.opened.row.1 o.opened.unsettled

      counts :
          (v : Str)
          → contribution v (settle_row now t) +ℤ (if str_eq t.user_id v then t.withdraw else pos 0)
            ≡ pos 0
      counts v = elim (Bool-cases (str_eq t.user_id v)) [
        | inl same ↦ rw (same, zero) (omega int_laws)
        | inr other ↦ rw other (omega int_laws)
      ]

  pub accrue-Ledger :
      (now : ℕ) (c : Numeric) (db : Db)
      → Owes id t (pos 0 -ℤ c) db
      → t.withdraw ≡ pos 0
      → IsLedger
          (record db { transactions = update_transaction id (accrue_row now c) db.transactions })
  accrue-Ledger now c db o zero =
      settle-IsLedger id (accrue_row now c) (pos 0 -ℤ c) db t o.opened o.owing
        (rw zero (omega arith), λ h. cc) counts
    where
      counts :
          (v : Str)
          → contribution v (accrue_row now c t)
              +ℤ (if str_eq t.user_id v then pos 0 -ℤ c else pos 0)
            ≡ pos 0
      counts v = elim (Bool-cases (str_eq t.user_id v)) [
        | inl same ↦ rw (same, zero) (omega int_laws)
        | inr other ↦ rw other (omega int_laws)
      ]

  pub Waits-Owes : (db : Db) → t.withdraw ≡ pos 0 → Waits id t db → Owes id t t.withdraw db
  Waits-Owes db zero w = record {
    owing = record {
      rows = w.ledger.rows;
      balanced = λ v. elim (Bool-cases (str_eq t.user_id v)) [
        | inl same ↦ rw (same, zero, ← w.ledger.balanced v) (omega int_laws)
        | inr other ↦ rw (other, ← w.ledger.balanced v) (omega int_laws)
      ];
      solvent = w.ledger.solvent;
    };
    opened = w.opened;
  }
