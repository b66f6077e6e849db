-- ===== src/Domain/Balance.antt =====
-- internal/domain/balance.go and internal/domain/withdrawal.go.
use sufirmart.Base.{ℕ, Str}
use sufirmart.Domain.Amount.{Float64}

pub record Balance : Type 0 where
  pub user_id : Str
  pub accrued : Float64
  pub withdrawn : Float64

-- NewBalance
abbrev pub new_balance : Str → Float64 → Float64 → Balance
new_balance user accrued withdrawn = record {
  user_id = user;
  accrued = accrued;
  withdrawn = withdrawn;
}

-- A difference of two float64 values, which is left as it stands: the subtraction rounds, and what it
-- gives need not be an amount.
pub record Difference : Type 0 where
  pub minuend : Float64
  pub subtrahend : Float64

-- Balance.Current
unfoldable pub current : Balance → Difference
current b = record { minuend = b.accrued; subtrahend = b.withdrawn }

pub record Withdrawal : Type 0 where
  pub order_num : Str
  pub sum : Float64
  pub processed_at : ℕ
