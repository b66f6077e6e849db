-- ===== src/Processor/Backoff.antt =====
-- How internal/order/repeat_strategy.go takes the errors of internal/accrual/http.go: which answers
-- of the accrual service are asked for again, and after what time.
use sufirmart.Base.{
  inl, inr, ◌⊎◌, ◌↔◌, ◌≡◌, refl, ap, ◌∙◌, ℕ, zero, suc, ◌+◌, ◌-◌, ◌*◌, ◌/◌, ◌%◌, ◌^◌, ◌≤◌, ◌<◌,
  ◌&&◌, true, false, Result-cases, Bool-cases, some, [], ◌∷◌, Str, bytes, ok, err, Error, build_url,
  request_failed, ℤ, pos, ◌≤ℤ◌, ◌==◌, leb, ltb, if◌then◌else◌, arith,
}
use sufirmart.Luhn.{new_order_number}
use sufirmart.Accrual.{accrual_status_from_string}
use sufirmart.Accrual.Contract.{too_many_requests_error, as_error, decimal, decimal_loop}
use sufirmart.Accrual.Http.{
  HttpClient, HttpResponse, AccrualDto, http_reader, of_endpoint, of_request, of_response, decoded,
  of_number, of_status, retry_after_duration, atoi, unsigned, in_int64, digits_value, seconds,
  wrap_int64,
}
use sufirmart.Processor.Strategy.{
  new_adaptive_strategy, second, is_retriable_error, retriable, next_delay, bounded_delay, delay,
}

-- The service has answered a request for the number, with 204 or 429.
pub record AskLater (client : HttpClient) (base_url : Str) (calls : ℕ) (number : Str) : Type 0 where
  pub endpoint : Str
  pub joined : client.join_path base_url (bytes "api" ∷ bytes "orders" ∷ number ∷ []) ≡ inr endpoint
  pub resp : HttpResponse
  pub sent : client.send calls endpoint ≡ inr resp
  pub later : (resp.status_code ≡ 204) ⊎ (resp.status_code ≡ 429)

new_order_number-final :
    (s : Str) (e : Error) → new_order_number s ≡ err e → is_retriable_error e ≡ false
unfolding new_order_number is_retriable_error
new_order_number-final s e h = ground arith

accrual_status-final :
    (s : Str) (e : Error) → accrual_status_from_string s ≡ err e → is_retriable_error e ≡ false
unfolding accrual_status_from_string is_retriable_error
accrual_status-final s e h = ground arith

decoded-final :
    (r : Str ⊎ AccrualDto) (e : Error) → decoded r ≡ err e → is_retriable_error e ≡ false
unfolding decoded of_number of_status as_error is_retriable_error
decoded-final (inl t) e h = ground arith
decoded-final (inr dto) e h = elim (Result-cases (new_order_number dto.order)) [
  | inr (e', bad) ↦
      let same : err e' ≡ err e = rw (bad, decoded) at h in
      new_order_number-final dto.order e (bad ∙ cc)
  | inl (n, good) ↦ elim (Result-cases (accrual_status_from_string dto.status)) [
    | inr (e', bad) ↦
        let same : err e' ≡ err e = rw (good, of_number, bad) at h in
        accrual_status-final dto.status e (bad ∙ cc)
    | inl (st, named) ↦ let same : ok _ ≡ err e = rw (good, of_number, named) at h in cc
  ]
]

of_response-later :
    (client : HttpClient) (number : Str) (resp : HttpResponse) (e : Error)
    → of_response client number resp ≡ err e
    → (is_retriable_error e ≡ true) ↔ ((resp.status_code ≡ 204) ⊎ (resp.status_code ≡ 429))
unfolding of_response as_error is_retriable_error
of_response-later client number resp e h =
    ground (arith, decoded-final (client.unmarshal resp.body) e)

Either-cases : {A B : Type 0} (s : A ⊎ B) → ((a : A) × (s ≡ inl a)) ⊎ ((b : B) × (s ≡ inr b))
Either-cases (inl a) = inl (a, refl)
Either-cases (inr b) = inr (b, refl)

-- An error of the reader is one that the strategy asks again for exactly where the service has
-- answered the request, with 204 or 429. Everything else is final: no URL, no connection, a body
-- that is not decoded, an unknown status and every other status code.
pub reader_retriable_iff :
    (client : HttpClient) (base_url : Str) (calls : ℕ) (number : Str) (e : Error)
    → http_reader client base_url calls number ≡ err e
    → (is_retriable_error e ≡ true) ↔ AskLater client base_url calls number
unfolding http_reader of_endpoint of_request as_error is_retriable_error
reader_retriable_iff client base_url calls number e h =
    elim (Either-cases (client.join_path base_url (bytes "api" ∷ bytes "orders" ∷ number ∷ []))) [
      | inl (t, bad) ↦
          let same : err build_url ≡ err e = rw (bad, http_reader) at h in
          (λ again. cc, λ a. let other = a.joined in cc)
      | inr (endpoint, joined) ↦ elim (Either-cases (client.send calls endpoint)) [
        | inl (t, lost) ↦
            let same : err request_failed ≡ err e = rw (joined, http_reader, lost) at h in
            (λ again. cc, λ a. let one : endpoint ≡ a.endpoint = cc in let got = a.sent in cc)
        | inr (resp, sent) ↦
            let same : of_response client number resp ≡ err e =
              rw (joined, http_reader, sent) at h in
            let iff = of_response-later client number resp e same in
            (
              λ again. record {
                endpoint = endpoint;
                joined = joined;
                resp = resp;
                sent = sent;
                later = iff.0 again;
              },
              λ a.
                  let one : endpoint ≡ a.endpoint = cc in
                  let got = a.sent in let whole : resp ≡ a.resp = cc in iff.1 (rw whole a.later),
            )
      ]
    ]

digits_value-digit :
    (m d : ℕ) (s : Str) → d < 10 → digits_value m ((b'0' + d) ∷ s) ≡ digits_value (m * 10 + d) s
unfolding digits_value
digits_value-digit m d s h =
    let digit : leb b'0' (b'0' + d) && leb (b'0' + d) b'9' ≡ true = ground arith in
    let same : b'0' + d - b'0' ≡ d = omega arith in rw (digits_value, digit, same) refl

digits_value-decimal_loop :
    (fuel n : ℕ) (s : Str) → n < fuel → digits_value 0 (decimal_loop fuel n s) ≡ digits_value n s
unfolding decimal_loop
digits_value-decimal_loop zero n s h = ground arith
digits_value-decimal_loop (suc fuel) n s h = elim (Bool-cases (n / 10 == 0)) [
  | inl last ↦
      let same : 0 * 10 + n % 10 ≡ n = ground arith in
      rw (last, decimal_loop)
        (digits_value-digit 0 (n % 10) s (omega arith) ∙ ap (λ m. digits_value m s) same)
  | inr more ↦
      let same : n / 10 * 10 + n % 10 ≡ n = omega arith in
      rw (more, decimal_loop)
        (digits_value-decimal_loop fuel (n / 10) ((b'0' + n % 10) ∷ s) (ground arith)
          ∙ digits_value-digit (n / 10) (n % 10) s (omega arith)
          ∙ ap (λ m. digits_value m s) same)
]

decimal_loop-nonempty :
    (fuel n c : ℕ) (s : Str) → (d : ℕ) × (t : Str) × (decimal_loop fuel n (c ∷ s) ≡ d ∷ t)
unfolding decimal_loop
decimal_loop-nonempty zero n c s = (c, s, refl)
decimal_loop-nonempty (suc fuel) n c s = elim (Bool-cases (n / 10 == 0)) [
  | inl last ↦ rw (last, decimal_loop) (b'0' + n % 10, c ∷ s, refl)
  | inr more ↦ rw (more, decimal_loop) (decimal_loop-nonempty fuel (n / 10) (b'0' + n % 10) (c ∷ s))
]

atoi_of_digits :
    (c : ℕ) (s : Str) (n : ℕ)
    → digits_value 0 (c ∷ s) ≡ some n
    → n < 2 ^ 63
    → atoi (c ∷ s) ≡ some (pos n)
unfolding atoi unsigned in_int64 digits_value
atoi_of_digits c s n h small = ground arith

decimal-nonempty : (n : ℕ) → (d : ℕ) × (t : Str) × (decimal n ≡ d ∷ t)
unfolding decimal decimal_loop
decimal-nonempty n = elim (Bool-cases (n / 10 == 0)) [
  | inl last ↦ rw (last, decimal_loop) (b'0' + n % 10, [], refl)
  | inr more ↦ rw (more, decimal_loop) (decimal_loop-nonempty n (n / 10) (b'0' + n % 10) [])
]

digits_value-decimal : (n : ℕ) → digits_value 0 (decimal n) ≡ some n
unfolding decimal digits_value
digits_value-decimal n = digits_value-decimal_loop (suc n) n [] (omega arith)

atoi-decimal : (n : ℕ) → n < 2 ^ 63 → atoi (decimal n) ≡ some (pos n)
atoi-decimal n small =
    let (d, t, e) = decimal-nonempty n in
    rw e (atoi_of_digits d t n (rw e at (digits_value-decimal n)) small)

seconds-small : (n : ℕ) → n ≤ 9_223_372_036 → seconds (pos n) ≡ pos (n * 1_000_000_000)
unfolding seconds wrap_int64
seconds-small n h = ground arith

-- Whatever the header Retry-After holds, and though the product with a second may wrap around, the
-- processor waits more than nothing and at most 30 seconds after an answer of 429.
pub retry_after_bounds :
    (header : Str) (attempt : ℕ) (last : ℤ)
    → (pos 1
        ≤ℤ delay attempt
            (retriable
              (as_error (too_many_requests_error (retry_after_duration header)))
              (record (new_adaptive_strategy second 0) { last_delay = last })).1)
      × (delay attempt
            (retriable
              (as_error (too_many_requests_error (retry_after_duration header)))
              (record (new_adaptive_strategy second 0) { last_delay = last })).1
          ≤ℤ pos 30_000_000_000)
unfolding as_error retriable is_retriable_error next_delay bounded_delay delay
retry_after_bounds header attempt last = ground arith

retry_after-decimal :
    (n : ℕ) → n ≤ 9_223_372_036 → retry_after_duration (decimal n) ≡ pos (n * 1_000_000_000)
unfolding retry_after_duration
retry_after-decimal n h =
    rw (retry_after_duration, atoi-decimal n (omega arith)) (seconds-small n h)

-- The seconds that the processor waits after an answer of 429 for so many seconds.
abbrev pub waited : ℕ → ℕ
waited n = if n == 0 then 1 else if ltb 30 n then 30 else n

-- After an answer of 429 whose header Retry-After is the decimal text of n, for an n up to 9223372036,
-- the processor waits n seconds, but a second for 0 and no more than 30 seconds.
pub retry_after_delay :
    (n attempt : ℕ) (last : ℤ)
    → n ≤ 9_223_372_036
    → delay attempt
        (retriable
          (as_error (too_many_requests_error (retry_after_duration (decimal n))))
          (record (new_adaptive_strategy second 0) { last_delay = last })).1
      ≡ pos (waited n * 1_000_000_000)
unfolding as_error retriable is_retriable_error next_delay bounded_delay delay
retry_after_delay n attempt last h = let read = retry_after-decimal n h in ground arith
