-- ===== src/Account/Debts.antt =====
-- The statements of ApproveTransaction in internal/repository/account.go, and what they leave owed
-- between an account and a transaction.
pub mod Settled
use sufirmart.Base.{
  List, inl, inr, Bool-cases, Option-cases, ◌≡◌, ◌∙◌, Bool, true, false, some, none, [], ◌∷◌, ◌++◌,
  Str, str_eq, str_eq_iff, pos, ◌+ℤ◌, ◌-ℤ◌, ◌≤ℤ◌, leb_ℤ, int_laws, if◌then◌else◌, arith, ℕ, ok,
}
use sufirmart.Domain.Amount.{
  Numeric, Float64, fits, of_numeric, to_numeric, to_numeric-sub, leb-of_numeric,
}
use sufirmart.Store.{Db, UserRow, TransactionRow, AccountRow}
use sufirmart.Store.Table.{find, update}
use sufirmart.Store.Triple.{BodyPost}
use sufirmart.Account.Rows.{
  update_transaction, find_account, settle_row, accrue_row, insert_account, debit_account,
  credit_account,
}
use sufirmart.Account.Sums.{contribution, balance_of, balance_of-update, balance_of-snoc}
use sufirmart.Account.Ledger.{IsLedger, IsOwing, IsOpen, settle-IsLedger, move-IsOwing}

leb_ℤ-sub : (w b : Numeric) → leb_ℤ w b ≡ true → pos 0 ≤ℤ b -ℤ w
unfolding ◌-ℤ◌
leb_ℤ-sub w b h = ground arith

-- The ledger holds and the transaction waits; or `owed` is to be settled by it.
pub record Waits (id : Str) (t : TransactionRow) (db : Db) : Type 0 where
  pub ledger : IsLedger db
  pub opened : IsOpen id t db

pub record Owes (id : Str) (t : TransactionRow) (owed : Numeric) (db : Db) : Type 0 where
  pub owing : IsOwing t.user_id owed db
  pub opened : IsOpen id t db

abbrev pub Anything : Db → Type 0
Anything _ = Unit {0}

pub insert_account-IsLedger :
    (u : Str) (db : Db)
    → IsLedger db
    → find_account u db.accounts ≡ none
    → IsLedger (record db {
      accounts = db.accounts ++ record { user_id = u; current_balance = pos 0 } ∷ [];
    })
insert_account-IsLedger u db h e = record {
  rows = h.rows;
  balanced = λ v. same v ∙ h.balanced v;
  solvent = λ v. rw (same v) (h.solvent v);
}
  where
    same :
        (v : Str)
        → balance_of v (db.accounts ++ record { user_id = u; current_balance = pos 0 } ∷ [])
          ≡ balance_of v db.accounts
    same v = rw (balance_of-snoc u v (pos 0) db.accounts e) (ground (arith, str_eq_iff u v))

module _ (id : Str) (t : TransactionRow) where
  -- Which transactions are open does not depend on the accounts.
  IsOpen-accounts :
      {db : Db} {accounts : List AccountRow}
      → IsOpen id t db
      → IsOpen id t (record db { accounts = accounts })
  IsOpen-accounts o = record { found = o.found; unsettled = o.unsettled; row = o.row }

  pub insert_account-Waits :
      (db : Db)
      → Waits id t db
      → BodyPost (λ (_ : Unit {0}) d. Waits id t d) Anything db (insert_account t.user_id db)
  unfolding insert_account
  insert_account-Waits db w = elim (Option-cases (find_account t.user_id db.accounts)) [
    | inr (a, e) ↦ rw (e, insert_account) w
    | inl e ↦ elim (Option-cases (find (λ (u : UserRow). u.id) t.user_id db.users)) [
      | inl no_user ↦ rw (e, insert_account, no_user) tt
      | inr (u, known) ↦
          rw (e, insert_account, known)
            (record {
              ledger = insert_account-IsLedger t.user_id db w.ledger e;
              opened = IsOpen-accounts w.opened;
            })
    ]
  ]

  -- What the debit leaves, by whether it affected the account.
  abbrev pub Debited : Bool → Db → Type 0
  Debited true d = Owes id t t.withdraw d
  Debited false d = Waits id t d

  debit-Owes :
      (db : Db) (a : AccountRow)
      → Waits id t db
      → find_account t.user_id db.accounts ≡ some a
      → leb_ℤ t.withdraw a.current_balance ≡ true
      → Owes id t t.withdraw (record db {
        accounts =
            update
              (λ (r : AccountRow). r.user_id)
              t.user_id
              (λ r. record r { current_balance = a.current_balance -ℤ t.withdraw })
              db.accounts;
      })
  debit-Owes db a w e enough =
      let b = a.current_balance -ℤ t.withdraw in
      record {
        owing =
            move-IsOwing t.user_id b t.withdraw _ db w.ledger
              (leb_ℤ-sub t.withdraw a.current_balance enough) (rw e (omega int_laws))
              (λ v. balance_of-update t.user_id v b db.accounts a e);
        opened = IsOpen-accounts w.opened;
      }

  pub debit-Debited :
      (db : Db)
      → Waits id t db
      → BodyPost Debited Anything db (debit_account t.user_id (of_numeric t.withdraw) db)
  unfolding debit_account
  debit-Debited db w = elim (Option-cases (find_account t.user_id db.accounts)) [
    | inl e ↦ rw (e, debit_account) w
    | inr (a, e) ↦ elim (Bool-cases (leb_ℤ t.withdraw a.current_balance)) [
      | inr short ↦ rw (e, debit_account, leb-of_numeric t.withdraw a.current_balance, short) w
      | inl enough ↦ elim (Bool-cases (fits (a.current_balance -ℤ t.withdraw))) [
        | inl fit ↦
            rw
              (
                e,
                debit_account,
                leb-of_numeric t.withdraw a.current_balance,
                enough,
                to_numeric-sub a.current_balance t.withdraw,
                fit,
              )
              (debit-Owes db a w e enough)
        | inr wide ↦
            rw
              (
                e,
                debit_account,
                leb-of_numeric t.withdraw a.current_balance,
                enough,
                to_numeric-sub a.current_balance t.withdraw,
                wide,
              )
              tt
      ]
    ]
  ]

  pub credit-Owes :
      (amount : Float64) (c : Numeric) (db : Db)
      → to_numeric amount ≡ ok c
      → pos 0 ≤ℤ c
      → Waits id t db
      → BodyPost
          (λ (_ : Unit {0}) d. Owes id t (pos 0 -ℤ c) d)
          Anything
          db
          (credit_account t.user_id amount db)
  unfolding credit_account
  credit-Owes amount c db stored nonneg w =
      elim (Option-cases (find_account t.user_id db.accounts)) [
        | inr (a, e) ↦ elim (Bool-cases (fits (a.current_balance +ℤ c))) [
          | inr wide ↦ rw (stored, credit_account, e, wide) tt
          | inl fit ↦
              let old : pos 0 ≤ℤ a.current_balance = rw e at (w.ledger.solvent t.user_id) in
              rw (stored, credit_account, e, fit)
                (record {
                  owing =
                      move-IsOwing t.user_id (a.current_balance +ℤ c) (pos 0 -ℤ c) _ db w.ledger
                        (omega int_laws) (rw e (omega int_laws))
                        (λ v.
                          balance_of-update t.user_id v (a.current_balance +ℤ c) db.accounts a e);
                  opened = IsOpen-accounts w.opened;
                })
        ]
        | inl e ↦ elim (Option-cases (find (λ (u : UserRow). u.id) t.user_id db.users)) [
          | inl no_user ↦ rw (stored, credit_account, e, no_user) tt
          | inr (u, known) ↦
              rw (stored, credit_account, e, known)
                (record {
                  owing =
                      move-IsOwing t.user_id c (pos 0 -ℤ c) _ db w.ledger nonneg
                        (rw e (omega int_laws)) (λ v. balance_of-snoc t.user_id v c db.accounts e);
                  opened = IsOpen-accounts w.opened;
                })
        ]
      ]
