-- ===== src/Tests/Readers.antt =====
-- The accrual service's answers: internal/accrual.
use sufirmart.Base.{
  inl, inr, ◌↔◌, ◌≡◌, refl, true, none, some, [], ◌∷◌, bytes, err, service_error, pos, ◌≤ℤ◌, arith,
  str_eq, lookup, insert, delete,
}
use sufirmart.Domain.Status.{AccrualStatus}
use sufirmart.Accrual.{Accrual}
use sufirmart.Accrual.Contract.{too_many_requests_error, as_error, decimal}
use sufirmart.Accrual.Http.{
  HttpClient, HttpResponse, http_reader, of_endpoint, of_request, of_response, retry_after_duration,
}
use sufirmart.Accrual.Stub.{
  StubCall, StubReader, new_stub_reader, stub_get, found, run, run_from, perform,
}
use sufirmart.Accrual.Stub.Answers.{value_after_all, stub_get_outcome}
use sufirmart.Processor.Strategy.{
  is_retriable_error, retriable, delay, new_adaptive_strategy, second,
}
use sufirmart.Processor.Backoff.{
  AskLater, reader_retriable_iff, retry_after_bounds, retry_after_delay,
}

-- A service that is down.
abbrev down : HttpResponse
down = record {
  status_code = 503;
  status = bytes "503 Service Unavailable";
  body = [];
  retry_after = [];
}

abbrev pub client : HttpClient
client = record {
  join_path = λ base parts. inr base;
  send = λ n endpoint. inr down;
  unmarshal = λ body. inl (bytes "unexpected end of JSON input");
}

reader-down :
    http_reader client (bytes "http://accrual") 0 (bytes "79927398713") ≡ err (service_error 503)
unfolding http_reader of_endpoint of_request of_response as_error
reader-down = refl

reader_retriable_iff_example :
    (is_retriable_error (service_error 503) ≡ true)
    ↔ AskLater client (bytes "http://accrual") 0 (bytes "79927398713")
reader_retriable_iff_example =
    reader_retriable_iff client (bytes "http://accrual") 0 (bytes "79927398713") (service_error 503)
      reader-down

retry_after_bounds_example :
    (pos 1
      ≤ℤ delay 1
          (retriable
            (as_error (too_many_requests_error (retry_after_duration (bytes "9223372037"))))
            (record (new_adaptive_strategy second 0) { last_delay = pos 0 })).1)
    × (delay 1
          (retriable
            (as_error (too_many_requests_error (retry_after_duration (bytes "9223372037"))))
            (record (new_adaptive_strategy second 0) { last_delay = pos 0 })).1
        ≤ℤ pos 30_000_000_000)
retry_after_bounds_example = retry_after_bounds (bytes "9223372037") 1 (pos 0)

retry_after_delay_example :
    delay 1
      (retriable
        (as_error (too_many_requests_error (retry_after_duration (decimal 12))))
        (record (new_adaptive_strategy second 0) { last_delay = pos 0 })).1
    ≡ pos 12_000_000_000
retry_after_delay_example = retry_after_delay 12 1 (pos 0) (omega arith)

abbrev worth : Accrual
worth = record { order_num = bytes "18"; status = AccrualStatus.processed; value = pos 500 }

abbrev after_set : StubReader
after_set = record { data_of = (bytes "18", some worth) ∷ []; force_err = none }

stub-ran :
    run (StubCall.set (some worth) ∷ StubCall.remove (bytes "26") ∷ []) (new_stub_reader none)
    ≡ some after_set
unfolding run run_from perform new_stub_reader insert delete str_eq
stub-ran = refl

stub_get_outcome_example :
    stub_get (bytes "18") after_set
    ≡ found (bytes "18") (
        value_after_all
          (StubCall.set (some worth) ∷ StubCall.remove (bytes "26") ∷ [])
          (bytes "18")
          (lookup (bytes "18") (new_stub_reader none).data_of))
stub_get_outcome_example =
    stub_get_outcome none (StubCall.set (some worth) ∷ StubCall.remove (bytes "26") ∷ []) after_set
      (bytes "18") stub-ran
