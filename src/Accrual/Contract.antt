-- ===== src/Accrual/Contract.antt =====
-- internal/accrual/contract.go: the errors of a reader. An error of a library stands as its text.
use sufirmart.Base.{
  ℕ, zero, suc, ◌+◌, ◌/◌, ◌%◌, true, false, Option, none, some, [], ◌∷◌, ◌++◌, Str, bytes, Error,
  not_found, order_in_processing, too_many_requests, build_url, request_failed, decode_failed,
  service_error, unexpected_status, ℤ, ◌==◌,
}

pub data AccrualError : Type 0 where
  err_not_found order_in_process : Str → AccrualError
  too_many_requests_error : ℤ → AccrualError
  build_url_error request_error decode_error : Str → AccrualError
  accrual_service_error : ℕ → Str → AccrualError
  unexpected_status_error : ℕ → AccrualError

-- fmt's %d: the fuel bounds the number of digits.
unfoldable pub decimal_loop : ℕ → ℕ → Str → Str
decimal_loop zero n digits = digits
decimal_loop (suc fuel) n digits = elim (n / 10 == 0) [
  | true ↦ (48 + n % 10) ∷ digits
  | false ↦ decimal_loop fuel (n / 10) ((48 + n % 10) ∷ digits)
]

unfoldable pub decimal : ℕ → Str
unfolding decimal_loop
decimal n = decimal_loop (suc n) n []

-- Error
unfoldable pub error_text : AccrualError → Str
unfolding decimal
error_text (err_not_found order_num) = bytes "order " ++ (order_num ++ bytes " not found")
error_text (order_in_process order_num) = bytes "order " ++ (order_num ++ bytes " in processing")
error_text (too_many_requests_error retry_after) = bytes "too many requests"
error_text (build_url_error e) = bytes "build endpoint: " ++ e
error_text (request_error e) = bytes "request accrual: " ++ e
error_text (decode_error e) = bytes "decode accrual response: " ++ e
error_text (accrual_service_error status_code status) = bytes "accrual service error: " ++ status
error_text (unexpected_status_error status_code) =
    bytes "unexpected status code from accrual service: " ++ decimal status_code

-- Unwrap, where the type has it.
unfoldable pub unwrap : AccrualError → Option Str
unwrap (build_url_error e) = some e
unwrap (request_error e) = some e
unwrap (decode_error e) = some e
unwrap _ = none

-- What the callers of a reader can tell of its errors.
unfoldable pub as_error : AccrualError → Error
as_error (err_not_found order_num) = not_found
as_error (order_in_process order_num) = order_in_processing
as_error (too_many_requests_error retry_after) = too_many_requests retry_after
as_error (build_url_error e) = build_url
as_error (request_error e) = request_failed
as_error (decode_error e) = decode_failed
as_error (accrual_service_error status_code status) = service_error status_code
as_error (unexpected_status_error status_code) = unexpected_status status_code
