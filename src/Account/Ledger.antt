-- ===== src/Account/Ledger.antt =====
-- The ledger invariant of internal/repository/account.go: what relates the balance column of
-- "account" to the rows of "transaction".
use sufirmart.Base.{
  sym, ◌∙◌, inl, inr, Bool-cases, ◌≡◌, refl, Bool, true, false, some, List, Str, str_eq, str_eq_iff,
  pos, ◌+ℤ◌, ◌-ℤ◌, ◌≤ℤ◌, int_laws, parts_of_eq, if◌then◌else◌, arith, ℕ,
}
use sufirmart.Domain.Amount.{Numeric}
use sufirmart.Store.{Db, TransactionRow, AccountRow}
use sufirmart.Store.Table.{All, All-find, All-update, All-update_where, update_where}
use sufirmart.Account.Rows.{find_transaction, update_transaction, is_processed, cancel_row}
use sufirmart.Account.Sums.{contribution, net, net-update, net-update_where, balance_of}

-- A withdrawal is not negative, and what is not processed has no accrual yet.
abbrev pub IsRow : TransactionRow → Type 0
IsRow t = (pos 0 ≤ℤ t.withdraw) × (is_processed t.status ≡ false → t.accrual ≡ pos 0)

-- `owed` for `u` is in the transactions and not yet in the balance.
pub record IsOwing (u : Str) (owed : Numeric) (db : Db) : Type 0 where
  pub rows : All IsRow db.transactions
  pub balanced :
      (v : Str)
      → balance_of v db.accounts +ℤ (if str_eq u v then owed else pos 0) ≡ net v db.transactions
  pub solvent : (v : Str) → pos 0 ≤ℤ balance_of v db.accounts

-- Every balance is the sum of the accruals less the withdrawals among the user's processed
-- transactions, and is not negative.
pub record IsLedger (db : Db) : Type 0 where
  pub rows : All IsRow db.transactions
  pub balanced : (v : Str) → balance_of v db.accounts ≡ net v db.transactions
  pub solvent : (v : Str) → pos 0 ≤ℤ balance_of v db.accounts

-- The transaction is there, and is not processed.
pub record IsOpen (id : Str) (t : TransactionRow) (db : Db) : Type 0 where
  pub found : find_transaction id db.transactions ≡ some t
  pub unsettled : is_processed t.status ≡ false
  pub row : IsRow t

abbrev pub NotProcessed : Str → Db → Type 0
NotProcessed id db =
    (t : TransactionRow)
    → find_transaction id db.transactions ≡ some t
    → is_processed t.status ≡ false

cancel_row-IsRow :
    (now : ℕ) (c : Str) (t : TransactionRow)
    → is_processed t.status ≡ false
    → IsRow t
    → IsRow (cancel_row now c t)
cancel_row-IsRow now c t n h = (h.0, λ _. h.1 n)

contribution-open :
    (v : Str) (t : TransactionRow) → is_processed t.status ≡ false → contribution v t ≡ pos 0
contribution-open v t h = ground arith

-- Cancelling a transaction that is not processed keeps the ledger.
pub cancel-IsLedger :
    (id : Str) (now : ℕ) (c : Str) (db : Db) (t : TransactionRow)
    → IsOpen id t db
    → IsLedger db
    → IsLedger
        (record db { transactions = update_transaction id (cancel_row now c) db.transactions })
cancel-IsLedger id now c db t o h = record {
  rows =
      All-update IsRow (λ r. r.id) id (cancel_row now c) db.transactions t o.found
        (cancel_row-IsRow now c t o.unsettled) h.rows;
  balanced = λ v.
      let e = net-update v id (cancel_row now c) db.transactions t o.found in
      rw (h.balanced v) (
        omega (
          int_laws,
          parts_of_eq _ _ e,
          parts_of_eq _ _ (contribution-open v t o.unsettled),
          parts_of_eq _ _ (contribution-open v (cancel_row now c t) refl),
        ));
  solvent = h.solvent;
}

-- Cancelling every planned transaction among some keeps the ledger.
pub cancel_where-IsLedger :
    (p : TransactionRow → Bool) (now : ℕ) (c : Str) (db : Db)
    → ((t : TransactionRow) → p t ≡ true → is_processed t.status ≡ false)
    → IsLedger db
    → IsLedger (record db { transactions = update_where p (cancel_row now c) db.transactions })
cancel_where-IsLedger p now c db n h = record {
  rows =
      All-update_where IsRow p (cancel_row now c) db.transactions
        (λ t e. cancel_row-IsRow now c t (n t e)) h.rows;
  balanced = λ v. rw (h.balanced v) (
      sym (
        net-update_where v p (cancel_row now c) db.transactions λ t e.
          contribution-open v (cancel_row now c t) refl ∙ sym (contribution-open v t (n t e))));
  solvent = h.solvent;
}

contribution-settled :
    (v : Str) (t : TransactionRow)
    → is_processed t.status ≡ true
    → contribution v t ≡ (if str_eq t.user_id v then t.accrual -ℤ t.withdraw else pos 0)
contribution-settled v t h = ground arith

-- Where a transaction comes to count for its user what the balance already has, the ledger is whole.
pub settle-IsLedger :
    (id : Str) (f : TransactionRow → TransactionRow) (owed : Numeric) (db : Db) (t : TransactionRow)
    → IsOpen id t db
    → IsOwing t.user_id owed db
    → IsRow (f t)
    → ((v : Str) → contribution v (f t) +ℤ (if str_eq t.user_id v then owed else pos 0) ≡ pos 0)
    → IsLedger (record db { transactions = update_transaction id f db.transactions })
settle-IsLedger id f owed db t o h r counts = record {
  rows = All-update IsRow (λ s. s.id) id f db.transactions t o.found (λ _. r) h.rows;
  balanced = λ v. omega (
    int_laws,
    parts_of_eq _ _ (h.balanced v),
    parts_of_eq _ _ (net-update v id f db.transactions t o.found),
    parts_of_eq _ _ (contribution-open v t o.unsettled),
    parts_of_eq _ _ (counts v),
  );
  solvent = h.solvent;
}

-- A change of one balance that stays at zero or more leaves the difference owed.
pub move-IsOwing :
    (u : Str) (b owed : Numeric) (accs : List AccountRow) (db : Db)
    → IsLedger db
    → pos 0 ≤ℤ b
    → b +ℤ owed ≡ balance_of u db.accounts
    → ((v : Str) → balance_of v accs ≡ (if str_eq u v then b else balance_of v db.accounts))
    → IsOwing u owed (record db { accounts = accs })
move-IsOwing u b owed accs db h fine split moved = record {
  rows = h.rows;
  balanced = λ v. elim (Bool-cases (str_eq u v)) [
    | inl same ↦
        let e : u ≡ v = (str_eq_iff u v).0 same in rw (moved v, same, split, h.balanced u, e) refl
    | inr other ↦ rw (moved v, other, ← h.balanced v) (omega int_laws)
  ];
  solvent = λ v. elim (Bool-cases (str_eq u v)) [
    | inl same ↦ rw (moved v, same) fine
    | inr other ↦ rw (moved v, other) (h.solvent v)
  ];
}

-- In a ledger, a transaction that is found and not processed is open.
pub IsOpen-find :
    (id : Str) (t : TransactionRow) (db : Db)
    → IsLedger db
    → NotProcessed id db
    → find_transaction id db.transactions ≡ some t
    → IsOpen id t db
IsOpen-find id t db h n e = record {
  found = e;
  unsettled = n t e;
  row = All-find IsRow (λ r. r.id) id db.transactions t h.rows e;
}
