-- ===== src/Accrual.antt =====
-- internal/domain/accrual.go and internal/accrual: what the accrual service answers.
pub mod Contract
pub mod Http
pub mod Stub
use sufirmart.Base.{
  ℕ, Str, str_eq, bytes, Result, ok, err, unknown_accrual_status, Exec, suc, if◌then◌else◌,
}
use sufirmart.Domain.Amount.{Float64}
use sufirmart.Domain.Status.{AccrualStatus}
use sufirmart.Store.Statement.{World}

pub record Accrual : Type 0 where
  pub order_num : Str
  pub status : AccrualStatus
  pub value : Float64

-- The interface Reader: its answer may differ from one call to the next, so it is a function of the
-- number of outside calls made so far.
abbrev pub Reader : Type 0
Reader = ℕ → Str → Result Accrual

-- Reader.Get
unfoldable pub get : Reader → Str → Exec World Accrual
get reader number w = (reader w.calls number, record w { calls = suc w.calls })

-- AccrualStatusFromString
unfoldable pub accrual_status_from_string : Str → Result AccrualStatus
accrual_status_from_string status =
    if str_eq status (bytes "REGISTERED")
    then ok AccrualStatus.registered
    else if str_eq status (bytes "PROCESSING")
    then ok AccrualStatus.processing
    else if str_eq status (bytes "INVALID")
    then ok AccrualStatus.invalid
    else if str_eq status (bytes "PROCESSED")
    then ok AccrualStatus.processed
    else err unknown_accrual_status
