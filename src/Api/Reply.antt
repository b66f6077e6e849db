-- ===== src/Api/Reply.antt =====
-- The responses of internal/api/handler.
use sufirmart.Base.{ℕ, Option, List, Str}
use sufirmart.Domain.Amount.{Float64}
use sufirmart.Domain.Balance.{Difference, Withdrawal}

-- api.OrderStatus
pub data ApiStatus : Type 0 where
  new processing invalid processed : ApiStatus

-- api.Order
pub record ApiOrder : Type 0 where
  pub number : Str
  pub status : ApiStatus
  pub uploaded_at : ℕ
  pub accrual : Option Float64

pub data Body : Type 0 where
  empty_body status_text : Body
  balance_body : Difference → Float64 → Body
  orders_body : List ApiOrder → Body
  withdrawals_body : List Withdrawal → Body

pub record Response : Type 0 where
  pub status : ℕ
  pub body : Body

-- WriteHeader, and the body that is encoded after it.
abbrev pub respond : ℕ → Body → Response
respond status body = record { status = status; body = body }

-- http.Error with the status's text
abbrev pub http_error : ℕ → Response
http_error status = record { status = status; body = status_text }
