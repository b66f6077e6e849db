-- ===== src/Account/Register.antt =====
-- What RegisterTransaction of internal/repository/account.go stores, with a database that does not
-- fail.
use sufirmart.Base.{
  ◌≡◌, refl, ℕ, ◌++◌, some, none, List, [], ◌∷◌, suc, true, Str, str_eq_refl, pos, ltb_ℤ, ok,
}
use sufirmart.Domain.Amount.{Float64, Numeric, abs, to_numeric, to_numeric-zero}
use sufirmart.Domain.Status.{TransactionStatus}
use sufirmart.Store.{UserRow, TransactionRow}
use sufirmart.Store.Table.{find, find-snoc}
use sufirmart.Store.Statement.{Env, World, IsUp, statement_up, new_uuid}
use sufirmart.Account.Rows.{find_transaction, insert_transaction}
use sufirmart.Account.{register_transaction, withdraw_part, accrual_part}

-- A planned transaction as it is stored.
abbrev pub planned_row : Str → Str → Str → Numeric → Numeric → Str → ℕ → TransactionRow
planned_row id user order_num accrual withdraw comment now = record {
  id = id;
  user_id = user;
  order_num = order_num;
  accrual = accrual;
  withdraw = withdraw;
  status = TransactionStatus.planned;
  comment = comment;
  processed_at = now;
}

-- It is found, where its id is new.
pub find-planned_row :
    (t : TransactionRow) (ts : List TransactionRow)
    → find_transaction t.id ts ≡ none
    → find_transaction t.id (ts ++ t ∷ []) ≡ some t
find-planned_row t ts e =
    rw (find-snoc (λ (r : TransactionRow). r.id) t.id ts t, e, str_eq_refl t.id) refl

withdraw_part-negative : (sum : Float64) → ltb_ℤ sum (pos 0) ≡ true → withdraw_part sum ≡ abs sum
unfolding withdraw_part
withdraw_part-negative sum h = rw h refl

accrual_part-negative : (sum : Float64) → ltb_ℤ sum (pos 0) ≡ true → accrual_part sum ≡ pos 0
unfolding accrual_part
accrual_part-negative sum h = rw h refl

withdraw_part-zero : withdraw_part (pos 0) ≡ pos 0
unfolding withdraw_part
withdraw_part-zero = refl

accrual_part-zero : accrual_part (pos 0) ≡ pos 0
unfolding accrual_part
accrual_part-zero = refl

module _ (env : Env) (up : IsUp env) (user order_num : Str) (comment : Str) (w : World)
    (u : UserRow) (fresh : find_transaction (env.uuid w.calls) w.transactions ≡ none)
    (known : find (λ (v : UserRow). v.id) user w.users ≡ some u) where
  -- The world after a registration.
  abbrev pub registered : Numeric → Numeric → World
  registered accrual withdraw = record w {
    db = record w.db {
      transactions =
          w.transactions
          ++ planned_row (env.uuid w.calls) user order_num accrual withdraw comment
              (env.now (suc w.calls))
            ∷ [];
    };
    calls = suc (suc w.calls);
  }

  inserted :
      (sum : Float64) (a c : Numeric)
      → to_numeric (accrual_part sum) ≡ ok a
      → to_numeric (withdraw_part sum) ≡ ok c
      → register_transaction env user order_num sum comment w
        ≡ (ok (env.uuid w.calls), registered a c)
  unfolding register_transaction new_uuid
  inserted sum a c ea ec = rw (statement_up env up, insert_transaction, fresh, known, ea, ec) refl

  pub register_withdraw :
      (sum : Float64) (c : Numeric)
      → ltb_ℤ sum (pos 0) ≡ true
      → to_numeric (abs sum) ≡ ok c
      → register_transaction env user order_num sum comment w
        ≡ (ok (env.uuid w.calls), registered (pos 0) c)
  register_withdraw sum c negative stored =
      inserted sum (pos 0) c (rw (accrual_part-negative sum negative) to_numeric-zero)
        (rw (withdraw_part-negative sum negative) stored)

  pub register_accrual :
      register_transaction env user order_num (pos 0) comment w
      ≡ (ok (env.uuid w.calls), registered (pos 0) (pos 0))
  register_accrual =
      inserted (pos 0) (pos 0) (pos 0) (rw accrual_part-zero to_numeric-zero)
        (rw withdraw_part-zero to_numeric-zero)
