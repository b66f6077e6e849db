-- ===== src/Account/Reads.antt =====
-- The reads of internal/repository/account.go change nothing.
use sufirmart.Base.{ℕ, Option, none, some, Str, Result, ok, err}
use sufirmart.Domain.Amount.{Float64}
use sufirmart.Store.{Db}
use sufirmart.Store.Statement.{Env, statement}
use sufirmart.Store.Triple.{
  Triple, BodyPost, Triple-statement, Triple-bind, Triple-lift, Triple-attempt, Triple-pure,
}
use sufirmart.Account.Rows.{read}
use sufirmart.Account.{
  get_balance, balance_from, net_of_history, withdrawn_of, list_withdrawals, current_of,
}

read-Keeps :
    {A : Type 0} (P : Db → Type 0) (r : Result A) (d : Db) → P d → BodyPost (λ _. P) P d (read r d)
read-Keeps P (ok a) d p = p
read-Keeps P (err e) d p = p

-- A query.
pub Triple-read :
    {A : Type 0} (P : Db → Type 0) (env : Env) (query : ℕ → Db → Result A)
    → Triple P (statement env λ now db. read (query now db) db) (λ _. P) P
Triple-read P env query =
    Triple-statement env _ (λ _ p. p) λ now d p. read-Keeps P (query now d) d p

module _ (P : Db → Type 0) (env : Env) where
  net_of_history-Keeps : (user : Str) → Triple P (net_of_history env user) (λ _. P) P
  unfolding net_of_history
  net_of_history-Keeps user = Triple-statement env _ (λ _ p. p) λ now d p. p

  withdrawn_of-Keeps : (user : Str) → Triple P (withdrawn_of env user) (λ _. P) P
  unfolding withdrawn_of
  withdrawn_of-Keeps user = Triple-statement env _ (λ _ p. p) λ now d p. p

  pub list_withdrawals-Keeps : (user : Str) → Triple P (list_withdrawals env user) (λ _. P) P
  unfolding list_withdrawals
  list_withdrawals-Keeps user = Triple-statement env _ (λ _ p. p) λ now d p. p

  balance_from-Keeps :
      (user : Str) (current : Option Float64) → Triple P (balance_from env user current) (λ _. P) P
  unfolding balance_from
  balance_from-Keeps user none =
      Triple-bind (λ _. P) _ _ (net_of_history-Keeps user)
        λ _. Triple-bind (λ _. P) _ _ (withdrawn_of-Keeps user) λ _. Triple-pure _ (λ d p. p)
  balance_from-Keeps user (some current) =
      Triple-bind (λ _. P) _ _ (withdrawn_of-Keeps user) λ _. Triple-pure _ (λ d p. p)

  pub get_balance-Keeps : (user : Str) → Triple P (get_balance env user) (λ _. P) P
  unfolding get_balance
  get_balance-Keeps user =
      Triple-bind (λ _. P) _ _ (Triple-attempt (Triple-read P env _))
        λ row. Triple-bind (λ _. P) _ _ (Triple-lift (current_of env row)) (balance_from-Keeps user)
