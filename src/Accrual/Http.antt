-- ===== src/Accrual/Http.antt =====
-- internal/accrual/http.go: the reader that asks the accrual service over HTTP.
use sufirmart.Base.{
  inl, inr, ◌⊎◌, ℕ, ◌+◌, ◌-◌, ◌*◌, ◌%◌, ◌^◌, Bool, true, false, ◌&&◌, Option, none, some, List, [],
  ◌∷◌, Str, bytes, Result, ok, err, ℤ, pos, negsuc, pos_part, neg_part, sub_ℕ, ltb, leb, ◌==◌,
  if◌then◌else◌,
}
use sufirmart.Luhn.{new_order_number}
use sufirmart.Domain.Amount.{Float64}
use sufirmart.Domain.Status.{AccrualStatus}
use sufirmart.Accrual.{Accrual, Reader, accrual_status_from_string}
use sufirmart.Accrual.Contract.{
  err_not_found, too_many_requests_error, build_url_error, request_error, decode_error,
  accrual_service_error, unexpected_status_error, as_error,
}

-- What the reader uses of a response; `retry_after` is the header, empty where it is missing.
pub record HttpResponse : Type 0 where
  pub status_code : ℕ
  pub status : Str
  pub body : Str
  pub retry_after : Str

-- The struct that the body is decoded into.
pub record AccrualDto : Type 0 where
  pub order : Str
  pub status : Str
  pub accrual : Option Float64

-- url.JoinPath, the client's GET by the number of outside calls made so far, and json.Unmarshal; on
-- the left is the text of an error.
pub record HttpClient : Type 0 where
  pub join_path : Str → List Str → Str ⊎ Str
  pub send : ℕ → Str → Str ⊎ HttpResponse
  pub unmarshal : Str → Str ⊎ AccrualDto

-- The value of decimal digits, after those that are worth `value`.
unfoldable pub digits_value : ℕ → Str → Option ℕ
digits_value value [] = some value
digits_value value (c ∷ s) = elim (leb b'0' c && leb c b'9') [
  | true ↦ digits_value (value * 10 + (c - b'0')) s
  | false ↦ none
]

unfoldable pub unsigned : Str → Option ℕ
unfolding digits_value
unsigned [] = none
unsigned (c ∷ s) = digits_value 0 (c ∷ s)

-- A number that an int holds.
unfoldable pub in_int64 : Bool → Option ℕ → Option ℤ
in_int64 negative none = none
in_int64 false (some n) = if ltb n (2 ^ 63) then some (pos n) else none
in_int64 true (some n) = if leb n (2 ^ 63) then some (sub_ℕ 0 n) else none

-- strconv.Atoi
unfoldable pub atoi : Str → Option ℤ
unfolding unsigned in_int64
atoi [] = none
atoi (c ∷ s) =
    if c == b'-'
    then in_int64 true (unsigned s)
    else if c == b'+'
    then in_int64 false (unsigned s)
    else in_int64 false (unsigned (c ∷ s))

-- The int64 that is left of a number.
unfoldable pub wrap_int64 : ℤ → ℤ
wrap_int64 z =
    let m = (pos_part z % 2 ^ 64 + (2 ^ 64 - neg_part z % 2 ^ 64)) % 2 ^ 64 in
    if ltb m (2 ^ 63) then pos m else negsuc (2 ^ 64 - m - 1)

-- time.Duration(secs) * time.Second
unfoldable pub seconds : ℤ → ℤ
unfolding wrap_int64
seconds secs = wrap_int64 (sub_ℕ (pos_part secs * 1_000_000_000) (neg_part secs * 1_000_000_000))

-- The duration for the header Retry-After; one that is no number counts as 0.
unfoldable pub retry_after_duration : Str → ℤ
unfolding atoi seconds
retry_after_duration header = elim (atoi header) [ none ↦ pos 0 | some secs ↦ seconds secs ]

abbrev pub value_of : Option Float64 → Float64
value_of none = pos 0
value_of (some value) = value

unfoldable pub of_status : Str → Result AccrualStatus → AccrualDto → Result Accrual
of_status order_num (err e) dto = err e
of_status order_num (ok status) dto =
    ok (record { order_num = order_num; status = status; value = value_of dto.accrual })

unfoldable pub of_number : Result Str → AccrualDto → Result Accrual
unfolding of_status
of_number (err e) dto = err e
of_number (ok order_num) dto = of_status order_num (accrual_status_from_string dto.status) dto

unfoldable pub decoded : Str ⊎ AccrualDto → Result Accrual
unfolding of_number as_error
decoded (inl e) = err (as_error (decode_error e))
decoded (inr dto) = of_number (new_order_number dto.order) dto

-- The switch on the status code
unfoldable pub of_response : HttpClient → Str → HttpResponse → Result Accrual
unfolding decoded as_error retry_after_duration
of_response client order_number resp =
    if resp.status_code == 200
    then decoded (client.unmarshal resp.body)
    else if resp.status_code == 204
    then err (as_error (err_not_found order_number))
    else if resp.status_code == 429
    then err (as_error (too_many_requests_error (retry_after_duration resp.retry_after)))
    else if leb 500 resp.status_code
    then err (as_error (accrual_service_error resp.status_code resp.status))
    else err (as_error (unexpected_status_error resp.status_code))

unfoldable pub of_request : HttpClient → Str → Str ⊎ HttpResponse → Result Accrual
unfolding of_response as_error
of_request client order_number (inl e) = err (as_error (request_error e))
of_request client order_number (inr resp) = of_response client order_number resp

unfoldable pub of_endpoint : HttpClient → ℕ → Str → Str ⊎ Str → Result Accrual
unfolding of_request as_error
of_endpoint client calls order_number (inl e) = err (as_error (build_url_error e))
of_endpoint client calls order_number (inr endpoint) =
    of_request client order_number (client.send calls endpoint)

-- HttpReader.Get, with the client and the base URL that NewHttpReader sets
unfoldable pub http_reader : HttpClient → Str → Reader
unfolding of_endpoint
http_reader client base_url calls order_number =
    of_endpoint client calls order_number
      (client.join_path base_url (bytes "api" ∷ bytes "orders" ∷ order_number ∷ []))
