-- ===== src/Account/Reading.antt =====
-- GetBalance of internal/repository/account.go reads what the ledger says.
use sufirmart.Base.{inl, inr, Bool-cases, Option-cases, ◌≡◌, refl, Str, pos, ◌+ℤ◌, ltb_ℤ, ok}
use sufirmart.Domain.Amount.{Numeric, of_numeric}
use sufirmart.Domain.Balance.{Balance, new_balance}
use sufirmart.Store.{Db}
use sufirmart.Store.Table.{select}
use sufirmart.Store.Statement.{Env, World, IsUp, statement_up}
use sufirmart.Account.Rows.{find_account, withdrawal_of, sum_withdraw}
use sufirmart.Account.Sums.{balance_of}
use sufirmart.Account.Ledger.{IsLedger}
use sufirmart.Account.{get_balance, current_of}

-- The withdrawals of a user that went through.
abbrev pub withdrawn_sum : Str → Db → Numeric
withdrawn_sum user db = sum_withdraw (select (withdrawal_of user) db.transactions)

-- The answer that the ledger calls for.
abbrev pub expected_balance : Str → Db → Balance
expected_balance user db =
    new_balance user
      (of_numeric (balance_of user db.accounts) +ℤ of_numeric (withdrawn_sum user db))
      (of_numeric (withdrawn_sum user db))

-- With a database that does not fail and a ledger that holds, GetBalance answers with the balance
-- column plus what was withdrawn as accrued, and with the sum of the processed withdrawals as
-- withdrawn, for every user, with an account or without one; and it changes nothing. So the way
-- through the history, taken without an account and at a zero balance, agrees with the other.
pub get_balance_outcome :
    (env : Env) (user : Str) (w : World)
    → IsUp env
    → IsLedger w.db
    → ((get_balance env user w).0 ≡ ok (expected_balance user w.db))
      × ((get_balance env user w).1.db ≡ w.db)
unfolding get_balance
get_balance_outcome env user w up h = elim (Option-cases (find_account user w.accounts)) [
  | inl e ↦
      rw (statement_up env up, e, statement_up env up, statement_up env up, ← h.balanced user, e)
        (refl, refl)
  | inr (a, e) ↦ elim (Bool-cases (ltb_ℤ (pos 0) a.current_balance)) [
    | inl plus ↦ rw (statement_up env up, e, current_of, plus, statement_up env up) (refl, refl)
    | inr not_plus ↦ elim (Bool-cases (ltb_ℤ a.current_balance (pos 0))) [
      | inl minus ↦
          rw (statement_up env up, e, current_of, not_plus, minus, statement_up env up) (refl, refl)
      | inr not_minus ↦
          rw
            (
              statement_up env up,
              e,
              current_of,
              not_plus,
              not_minus,
              statement_up env up,
              statement_up env up,
              ← h.balanced user,
              e,
            )
            (refl, refl)
    ]
  ]
]
