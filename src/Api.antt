-- ===== src/Api.antt =====
-- internal/api/handler: the handlers of the HTTP interface, behind the middlewares.
pub mod Space
pub mod Reply
pub mod Uploads
pub mod Withdrawals
pub mod Keeps
pub mod Balances
use sufirmart.Base.{
  ℕ, Bool, true, false, not, ◌&&◌, Option, none, some, List, [], ◌∷◌, map, Str, str_eq, bytes,
  has_prefix, Result, ok, err, Error, order_not_found, insufficient_funds, Exec, pure, lift,
  attempt, continue, ◌>>=◌, ◌>>◌, ℤ, pos, ◌-ℤ◌, ltb_ℤ, leb_ℤ, if◌then◌else◌,
}
use sufirmart.Luhn.{order_num_validation, new_order_number}
use sufirmart.Domain.Amount.{Float64}
use sufirmart.Domain.Balance.{Balance, Withdrawal, current}
use sufirmart.Domain.Order.{Order, OrderStatus}
use sufirmart.Store.Statement.{Env, World}
use sufirmart.Account.{register_transaction, approve_transaction, get_balance, list_withdrawals}
use sufirmart.Orders.{get_by_number, save, list_by_user}
use Space.{trim_space}
use Reply.{
  Response, Body, ApiStatus, ApiOrder, respond, http_error, empty_body, balance_body, orders_body,
  withdrawals_body,
}

-- UserIDFromContext, and the test that follows it: `none` is answered with 401.
unfoldable pub user_of : Option Str → Option Str
user_of none = none
user_of (some []) = none
user_of (some (c ∷ s)) = some (c ∷ s)

-- A request for a withdrawal, decoded.
pub record WithdrawRequest : Type 0 where
  pub order : Str
  pub sum : Float64

-- s == ""
abbrev pub is_empty : Str → Bool
is_empty [] = true
is_empty (c ∷ s) = false

-- How the end of ApproveTransaction is answered.
unfoldable pub withdraw_reply : Result (Unit {0}) → Response
withdraw_reply (ok _) = respond 200 empty_body
withdraw_reply (err insufficient_funds) = http_error 402
withdraw_reply (err e) = http_error 500

-- What is answered before the database is asked: `none` is to go on.
unfoldable pub withdraw_refusal : WithdrawRequest → Option Response
withdraw_refusal req =
    if not (order_num_validation req.order)
    then some (http_error 422)
    else if leb_ℤ req.sum (pos 0)
    then some (http_error 400)
    else none

module _ (env : Env) where
  approve_registered : Result Str → Exec World Response
  unfolding withdraw_reply
  approve_registered (err e) = pure (http_error 500)
  approve_registered (ok id) = do
    approved ← attempt (approve_transaction env id (pos 0))
    pure (withdraw_reply approved)

  -- What is left to do once it is known whether the request is refused.
  withdraw_unless : Str → WithdrawRequest → Option Response → Exec World Response
  unfolding approve_registered
  withdraw_unless user req (some reply) = pure reply
  withdraw_unless user req none = do
    registered ←
        attempt (register_transaction env user req.order (pos 0 -ℤ req.sum) (bytes "User withdraw"))
    approve_registered registered

  withdraw_as : Option Str → Option WithdrawRequest → Exec World Response
  unfolding withdraw_refusal withdraw_unless
  withdraw_as none decoded = pure (http_error 401)
  withdraw_as (some user) none = pure (http_error 400)
  withdraw_as (some user) (some req) = withdraw_unless user req (withdraw_refusal req)

  -- NewPostApiUserBalanceWithdrawHandler; `decoded` is what the JSON decoder gives for the body.
  unfoldable pub post_withdraw : Option Str → Option WithdrawRequest → Exec World Response
  unfolding user_of withdraw_as
  post_withdraw user decoded = withdraw_as (user_of user) decoded

  -- How the answer of GetByNumber to an uploaded number is answered: `none` is to save the order.
  unfoldable pub existing_reply : Str → Result Order → Option Response
  existing_reply user (ok existing) =
      if str_eq existing.user_id user then some (respond 200 empty_body) else some (http_error 409)
  existing_reply user (err order_not_found) = none
  existing_reply user (err e) = some (http_error 500)

  -- Beside the response stands the number that is handed to the processor.
  saved_reply : Str → Result (Unit {0}) → Response × Option Str
  saved_reply number (err e) = (http_error 500, none)
  saved_reply number (ok _) = (respond 202 empty_body, some number)

  -- What is left to do once it is known how an existing order is answered.
  store_new : Str → Str → ℕ → Option Response → Exec World (Response × Option Str)
  unfolding saved_reply
  store_new user number now (some reply) = pure (reply, none)
  store_new user number now none = do
    saved ← attempt (
        save env (record {
          user_id = user;
          number = number;
          status = OrderStatus.new;
          uploaded_at = now;
          accrual = none;
        }))
    pure (saved_reply number saved)

  save_new : Str → Str → ℕ → Exec World (Response × Option Str)
  unfolding existing_reply store_new
  save_new user number now = do
    existing ← attempt (get_by_number env number false)
    store_new user number now (existing_reply user existing)

  -- NewPostApiUserOrdersHandler, at the time `now`; no body is that reading it failed.
  unfoldable pub post_orders :
      Str → Option Str → Option Str → ℕ → Exec World (Response × Option Str)
  unfolding user_of save_new
  post_orders content_type body user now =
      if not (has_prefix content_type (bytes "text/plain"))
      then pure (http_error 400, none)
      else elim body [
        | none ↦ pure (http_error 400, none)
        | some raw ↦
            if is_empty (trim_space raw)
            then pure (http_error 422, none)
            else if not (order_num_validation (trim_space raw))
            then pure (http_error 422, none)
            else elim (user_of user) [
              | none ↦ pure (http_error 401, none)
              | some id ↦ elim (new_order_number (trim_space raw)) [
                | err e ↦ pure (http_error 422, none)
                | ok number ↦ save_new id number now
              ]
            ]
      ]

  balance_reply : Result Balance → Response
  balance_reply (err e) = http_error 500
  balance_reply (ok b) = respond 200 (balance_body (current b) b.withdrawn)

  -- NewGetApiUserBalanceHandler
  unfoldable pub get_user_balance : Option Str → Exec World Response
  unfolding user_of balance_reply
  get_user_balance user = elim (user_of user) [
    | none ↦ pure (http_error 401)
    | some id ↦ do balance ← attempt (get_balance env id); pure (balance_reply balance)
  ]

  -- The switch on the status of an order.
  unfoldable pub api_status : OrderStatus → Option ApiStatus
  api_status OrderStatus.new = some ApiStatus.new
  api_status OrderStatus.processing = some ApiStatus.processing
  api_status OrderStatus.invalid = some ApiStatus.invalid
  api_status OrderStatus.processed = some ApiStatus.processed
  api_status (OrderStatus.unnamed n) = none

  -- The loop over the orders; an order of no named status ends it.
  unfoldable pub api_orders : List Order → Option (List ApiOrder)
  unfolding api_status
  api_orders [] = some []
  api_orders (o ∷ orders) = elim (api_status o.status) [
    | none ↦ none
    | some st ↦ elim (api_orders orders) [
      | none ↦ none
      | some rest ↦ some (
          record {
            number = o.number;
            status = st;
            uploaded_at = o.uploaded_at;
            accrual = o.accrual;
          }
          ∷ rest)
    ]
  ]

  unfoldable pub orders_reply : Result (List Order) → Response
  unfolding api_orders
  orders_reply (err e) = http_error 500
  orders_reply (ok []) = respond 204 empty_body
  orders_reply (ok (o ∷ orders)) = elim (api_orders (o ∷ orders)) [
    | none ↦ http_error 500
    | some list ↦ respond 200 (orders_body list)
  ]

  -- NewGetApiUserOrdersHandler
  unfoldable pub get_user_orders : Option Str → Exec World Response
  unfolding user_of orders_reply
  get_user_orders user = elim (user_of user) [
    | none ↦ pure (http_error 401)
    | some id ↦ do list ← attempt (list_by_user env id); pure (orders_reply list)
  ]

  unfoldable pub withdrawals_reply : Result (List Withdrawal) → Response
  withdrawals_reply (err e) = http_error 500
  withdrawals_reply (ok []) = respond 204 empty_body
  withdrawals_reply (ok (i ∷ items)) = respond 200 (withdrawals_body (i ∷ items))

  -- NewGetApiUserWithdrawalsHandler
  unfoldable pub get_user_withdrawals : Option Str → Exec World Response
  unfolding user_of withdrawals_reply
  get_user_withdrawals user = elim (user_of user) [
    | none ↦ pure (http_error 401)
    | some id ↦ do items ← attempt (list_withdrawals env id); pure (withdrawals_reply items)
  ]
