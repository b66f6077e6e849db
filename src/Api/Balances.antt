-- ===== src/Api/Balances.antt =====
-- What internal/api/handler/get_user_balance.go answers.
use sufirmart.Base.{◌≡◌, ap, ℕ, some, ◌∷◌, Str, ok, ◌+ℤ◌}
use sufirmart.Domain.Amount.{of_numeric}
use sufirmart.Domain.Balance.{current}
use sufirmart.Store.{Db}
use sufirmart.Store.Statement.{Env, World, IsUp}
use sufirmart.Account.Ledger.{IsLedger}
use sufirmart.Account.Sums.{balance_of}
use sufirmart.Account.Reading.{withdrawn_sum, get_balance_outcome}
use sufirmart.Api.Reply.{Response, respond, balance_body}
use sufirmart.Api.{get_user_balance, user_of, balance_reply}

-- What the response says of a user by the tables: as the current balance, the balance column plus what
-- was withdrawn, less what was withdrawn.
abbrev pub balance_response : Str → Db → Response
balance_response user db = respond 200 (
    balance_body
      (record {
        minuend = of_numeric (balance_of user db.accounts) +ℤ of_numeric (withdrawn_sum user db);
        subtrahend = of_numeric (withdrawn_sum user db);
      })
      (of_numeric (withdrawn_sum user db)))

pub get_user_balance_up :
    (env : Env) (w : World) (k : ℕ) (id : Str)
    → IsUp env
    → IsLedger w.db
    → ((get_user_balance env (some (k ∷ id)) w).0 ≡ ok (balance_response (k ∷ id) w.db))
      × ((get_user_balance env (some (k ∷ id)) w).1.db ≡ w.db)
unfolding get_user_balance user_of balance_reply current
get_user_balance_up env w k id up h =
    let (answered, same) = get_balance_outcome env (k ∷ id) w up h in
    (ap (λ r. ok (balance_reply env r)) answered, same)
