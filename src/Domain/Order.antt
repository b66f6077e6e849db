-- ===== src/Domain/Order.antt =====
-- internal/domain/order.go.
use sufirmart.Base.{
  ℕ, Bool, true, false, ◌||◌, Option, Str, Result, ok, err, status_cant_be_changed, ℤ, pos,
  if◌then◌else◌,
}
use sufirmart.Domain.Amount.{Float64}

-- OrderStatus is an int16 with four named values, 0 to 3. A smallint column may hold any other, and
-- `unnamed` stands for those.
pub data OrderStatus : Type 0 where
  new processing invalid processed : OrderStatus
  unnamed : ℤ → OrderStatus

-- s == t, at a named t.
abbrev pub is_new : OrderStatus → Bool
is_new new = true
is_new _ = false

abbrev pub is_processing : OrderStatus → Bool
is_processing processing = true
is_processing _ = false

abbrev pub is_invalid : OrderStatus → Bool
is_invalid invalid = true
is_invalid _ = false

abbrev pub is_processed : OrderStatus → Bool
is_processed processed = true
is_processed _ = false

pub record Order : Type 0 where
  pub user_id : Str
  pub number : Str
  pub status : OrderStatus
  pub uploaded_at : ℕ
  pub accrual : Option Float64

-- CanBeProcessed
unfoldable pub can_be_processed : Order → Bool
can_be_processed o = is_new o.status

-- ChangeStatus: the error, and the order behind the pointer.
unfoldable pub change_status : OrderStatus → Order → Result (Unit {0}) × Order
change_status new_status o =
    if is_invalid o.status || is_processed o.status
    then (err status_cant_be_changed, o)
    else (ok tt, record o { status = new_status })

-- int16(s)
unfoldable pub int16 : OrderStatus → ℤ
int16 new = pos 0
int16 processing = pos 1
int16 invalid = pos 2
int16 processed = pos 3
int16 (unnamed n) = n
