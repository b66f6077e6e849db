-- ===== src/Processor/Strategy.antt =====
-- internal/order/repeat_strategy.go. A time.Duration is a number of nanoseconds.
use sufirmart.Base.{
  ℕ, Bool, true, false, not, Error, not_found, order_in_processing, too_many_requests,
  still_processing, ℤ, pos, ltb_ℤ, leb_ℤ, if◌then◌else◌,
}
use sufirmart.Tools.Repeater.{Strategy}

abbrev pub second : ℤ
second = pos 1_000_000_000

pub record AdaptiveStrategy : Type 0 where
  pub base_delay : ℤ
  pub max_delay : ℤ
  pub attempts : ℕ
  pub last_delay : ℤ

-- NewAdaptiveStrategy
abbrev pub new_adaptive_strategy : ℤ → ℕ → AdaptiveStrategy
new_adaptive_strategy base_delay attempts = record {
  base_delay = base_delay;
  max_delay = pos 30_000_000_000;
  attempts = attempts;
  last_delay = pos 0;
}

-- isRetriableError
unfoldable pub is_retriable_error : Error → Bool
is_retriable_error not_found = true
is_retriable_error order_in_processing = true
is_retriable_error (too_many_requests d) = true
is_retriable_error still_processing = true
is_retriable_error _ = false

-- The delay that Retriable takes from a TooManyRequestsError.
unfoldable pub bounded_delay : AdaptiveStrategy → ℤ → ℤ
bounded_delay s retry_after =
    let delay = if leb_ℤ retry_after (pos 0) then s.base_delay else retry_after in
    if ltb_ℤ s.max_delay delay then s.max_delay else delay

-- What Retriable sets lastDelay to, of a retriable error.
unfoldable pub next_delay : AdaptiveStrategy → Error → ℤ
next_delay s (too_many_requests retry_after) = bounded_delay s retry_after
next_delay s _ = pos 0

-- Retriable
unfoldable pub retriable : Error → AdaptiveStrategy → Bool × AdaptiveStrategy
unfolding is_retriable_error next_delay bounded_delay
retriable e s =
    if not (is_retriable_error e)
    then (false, s)
    else (true, record s { last_delay = next_delay s e })

-- Delay
unfoldable pub delay : ℕ → AdaptiveStrategy → ℤ
delay iter s = if ltb_ℤ (pos 0) s.last_delay then s.last_delay else s.base_delay

-- AdaptiveStrategy as a Strategy.
abbrev pub adaptive : Strategy AdaptiveStrategy
adaptive = record { attempts = λ s. s.attempts; retriable = retriable; delay = delay }
