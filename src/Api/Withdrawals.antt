-- ===== src/Api/Withdrawals.antt =====
-- What a request for a withdrawal is answered with: internal/api/handler/post_user_balance_withdraw.go.
use sufirmart.Base.{
  inl, inr, ◌≡◌, refl, ap, suc, Bool, true, false, Bool-cases, Option, none, some, List, Str, bytes,
  Result, ok, err, insufficient_funds, if◌then◌else◌, arith, pos, ◌-ℤ◌, ltb_ℤ, leb_ℤ,
}
use sufirmart.Luhn.{order_num_validation}
use sufirmart.Domain.Amount.{Float64, Numeric, abs, fits, to_numeric}
use sufirmart.Store.{Db, UserRow, AccountRow, TransactionRow}
use sufirmart.Store.Table.{find, update}
use sufirmart.Store.Statement.{Env, World, IsUp}
use sufirmart.Account.Rows.{find_transaction, find_account}
use sufirmart.Account.Outcome.{approve_withdraw_outcome, debited, refused}
use sufirmart.Account.Register.{planned_row, find-planned_row, registered, register_withdraw}
use sufirmart.Account.{approve_transaction}
use sufirmart.Api.Reply.{respond, http_error, empty_body}
use sufirmart.Api.{
  WithdrawRequest, user_of, post_withdraw, withdraw_as, withdraw_unless, withdraw_refusal,
  withdraw_reply, approve_registered,
}

negative_sum : (sum : Float64) → leb_ℤ sum (pos 0) ≡ false → ltb_ℤ (pos 0 -ℤ sum) (pos 0) ≡ true
unfolding ◌-ℤ◌
negative_sum sum h = ground arith

module _ (env : Env) (up : IsUp env) (user : Option Str) (id : Str) (req : WithdrawRequest)
    (c : Numeric) (w : World) (u : UserRow) (a : AccountRow) (authorized : user_of user ≡ some id)
    (valid : order_num_validation req.order ≡ true) (positive : leb_ℤ req.sum (pos 0) ≡ false)
    (stored : to_numeric (abs (pos 0 -ℤ req.sum)) ≡ ok c) (cents : ltb_ℤ (pos 0) c ≡ true)
    (fresh : find_transaction (env.uuid w.calls) w.transactions ≡ none)
    (known : find (λ (v : UserRow). v.id) id w.users ≡ some u)
    (account : find_account id w.accounts ≡ some a) (range : fits a.current_balance ≡ true) where
  abbrev row : TransactionRow
  row =
      planned_row (env.uuid w.calls) id req.order (pos 0) c (bytes "User withdraw")
        (env.now (suc w.calls))

  abbrev mid : World
  mid = registered env up id req.order (bytes "User withdraw") w u fresh known (pos 0) c

  -- What is debited.
  abbrev pub debit_of_request : List AccountRow
  debit_of_request =
      update (λ (r : AccountRow). r.user_id) id
        (λ r. record r { current_balance = a.current_balance -ℤ c }) w.accounts

  approves :
      (r : Result (Unit {0}))
      → (approve_transaction env (env.uuid w.calls) (pos 0) mid).0 ≡ r
      → post_withdraw env user (some req) w
        ≡ (ok (withdraw_reply r), (approve_transaction env (env.uuid w.calls) (pos 0) mid).1)
  unfolding post_withdraw
  approves r e =
      rw
        (
          post_withdraw,
          authorized,
          withdraw_as,
          withdraw_unless,
          withdraw_refusal,
          valid,
          positive,
          register_withdraw env up id req.order (bytes "User withdraw") w u fresh known
              (pos 0 -ℤ req.sum) c (negative_sum req.sum positive) stored,
          approve_registered,
          e,
        )
        refl

  abbrev after_approve : Bool → Db
  after_approve enough =
      if enough
      then debited env up (env.uuid w.calls) (pos 0) mid row a
          (find-planned_row row w.transactions fresh) account cents
      else refused env up (env.uuid w.calls) (pos 0) mid row a
          (find-planned_row row w.transactions fresh) account cents

  outcome :
      (enough : Bool)
      → leb_ℤ c a.current_balance ≡ enough
      → ((approve_transaction env (env.uuid w.calls) (pos 0) mid).0
          ≡ (if enough then ok tt else err insufficient_funds))
        × ((approve_transaction env (env.uuid w.calls) (pos 0) mid).1.db ≡ after_approve enough)
  outcome enough e = rw (← e) (
      approve_withdraw_outcome env up (env.uuid w.calls) (pos 0) mid row a
        (find-planned_row row w.transactions fresh) account cents range)

  -- With a database that does not fail, a request of a signed-in user with a valid order number and a
  -- positive sum, worth at least a hundredth, is answered with 200 when the balance of the account
  -- covers the sum, and the balance of that account alone falls by it. Otherwise it is answered with
  -- 402 and no account changes.
  pub withdraw_outcome :
      ((post_withdraw env user (some req) w).0
        ≡ ok (if leb_ℤ c a.current_balance then respond 200 empty_body else http_error 402))
      × ((post_withdraw env user (some req) w).1.accounts
          ≡ (if leb_ℤ c a.current_balance then debit_of_request else w.accounts))
  unfolding withdraw_reply
  withdraw_outcome = elim (Bool-cases (leb_ℤ c a.current_balance)) [
    | inl e ↦
        rw (e, approves (ok tt) (outcome true e).0)
          (refl, ap (λ (d : Db). d.accounts) (outcome true e).1)
    | inr e ↦
        rw (e, approves (err insufficient_funds) (outcome false e).0)
          (refl, ap (λ (d : Db). d.accounts) (outcome false e).1)
  ]
