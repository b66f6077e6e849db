-- ===== src/Processor/Ends.antt =====
-- When processOrder of internal/order/processor.go ends.
use sufirmart.Base.{
  inl, inr, ◌⊎◌, ◌≡◌, refl, ◌∙◌, ℕ, ◌≤◌, Bool, true, false, none, some, Str, Result, ok, err, Error,
  still_processing, pos, ltb_ℤ, arith,
}
use sufirmart.Domain.Order.{Order}
use sufirmart.Domain.Status.{AccrualStatus}
use sufirmart.Store.Statement.{Env, World}
use sufirmart.Accrual.{Accrual, Reader, get}
use sufirmart.Tools.Repeater.{repeat, repeat_from}
use sufirmart.Tools.Repeater.Ends.{ends_from, waits_from}
use sufirmart.Processor.Strategy.{
  AdaptiveStrategy, adaptive, new_adaptive_strategy, second, retriable, is_retriable_error, delay,
}
use sufirmart.Processor.{
  Task, ask, settle, conclude_order, poll, prepare, after_prepare, process_order,
}

-- What the service answers has to be asked for again: an order that is still being worked on, or an
-- error that is retriable.
abbrev pub IsPending : Result Accrual → Type 0
IsPending (ok info) =
    (info.status ≡ AccrualStatus.registered) ⊎ (info.status ≡ AccrualStatus.processing)
IsPending (err e) = is_retriable_error e ≡ true

retriable-again :
    (e : Error) (t : AdaptiveStrategy) → is_retriable_error e ≡ true → (retriable e t).0 ≡ true
unfolding retriable
retriable-again e t h = rw (h, retriable) refl

retriable-base : (e : Error) (t : AdaptiveStrategy) → (retriable e t).1.base_delay ≡ t.base_delay
unfolding retriable
retriable-base e t = ground arith

delay-positive :
    (i : ℕ) (t : AdaptiveStrategy) → t.base_delay ≡ second → ltb_ℤ (pos 0) (delay i t) ≡ true
unfolding delay
delay-positive i t h = ground arith

module _ (env : Env) (reader : Reader) (done : ℕ → Bool) (number id : Str) where
  settle-pending :
      (info : Accrual) (s : Task)
      → IsPending (ok info)
      → (settle env id info s).0 ≡ err still_processing
  unfolding settle
  settle-pending info s (inl e) = rw (e, settle) refl
  settle-pending info s (inr e) = rw (e, settle) refl

  ask-pending :
      (s : Task) (r : Result Accrual)
      → reader s.world.calls number ≡ r
      → IsPending r
      → (e : Error) × ((ask env reader number id s).0 ≡ err e) × (is_retriable_error e ≡ true)
  unfolding ask get is_retriable_error
  ask-pending s (ok info) e h = (still_processing, rw (ask, e) (settle-pending info _ h), refl)
  ask-pending s (err x) e h = (x, rw (ask, e) refl, h)

  poll-ends :
      (fuel k : ℕ) (s : Task)
      → done k ≡ true
      → 1 ≤ k
      → k ≤ fuel
      → (w : World) × (poll env reader done fuel number id s ≡ some w)
  unfolding poll repeat
  poll-ends fuel k s over from until =
      let (o, found) =
        ends_from adaptive done (ask env reader number id) (λ t. t.base_delay ≡ second)
          (λ e t h. retriable-base e t ∙ h) delay-positive 0 fuel 1 k
          (new_adaptive_strategy second 0) s refl over from (omega arith) in
      rw (poll, found) (conclude_order env id o.result o.state, refl)

  poll-waits :
      (fuel : ℕ) (s : Task)
      → ((n : ℕ) → IsPending (reader n number))
      → ((i : ℕ) → done i ≡ false)
      → poll env reader done fuel number id s ≡ none
  unfolding poll repeat
  poll-waits fuel s pending never =
      let left : repeat_from adaptive done (ask env reader number id) 0 fuel 1
            (new_adaptive_strategy second 0) s
          ≡ none =
        waits_from adaptive done (ask env reader number id) (λ _. Unit {0})
          (λ s' _.
            let (e, failed, again) =
              ask-pending s' (reader s'.world.calls number) refl (pending s'.world.calls) in
            (e, failed, (λ t. retriable-again e t again), tt))
          never fuel 1 (new_adaptive_strategy second 0) s tt in
      rw (poll, left) refl

module _ (env : Env) (reader : Reader) (done : ℕ → Bool) (number : Str) where
  after_prepare-ends :
      (fuel k : ℕ) (r : Result (Order × Str) × World)
      → done k ≡ true
      → 1 ≤ k
      → k ≤ fuel
      → (w : World) × (after_prepare env reader done fuel number r ≡ some w)
  unfolding after_prepare
  after_prepare-ends fuel k (err e, w) over from until = (w, refl)
  after_prepare-ends fuel k (ok (order, id), w) over from until =
      poll-ends env reader done number id fuel k (record { world = w; order = order }) over from
        until

  -- A task whose context is done in the k-th round ends within k rounds, whatever the accrual
  -- service answers and whichever statements fail.
  pub process_order_ends :
      (allow_processing : Bool) (fuel k : ℕ) (w : World)
      → done k ≡ true
      → 1 ≤ k
      → k ≤ fuel
      → (w' : World) × (process_order env reader done fuel number allow_processing w ≡ some w')
  unfolding process_order
  process_order_ends allow_processing fuel k w over from until =
      after_prepare-ends fuel k (prepare env number allow_processing w) over from until

  after_prepare-waits :
      (fuel : ℕ) (r : Result (Order × Str) × World) (order : Order) (id : Str)
      → r.0 ≡ ok (order, id)
      → ((n : ℕ) → IsPending (reader n number))
      → ((i : ℕ) → done i ≡ false)
      → after_prepare env reader done fuel number r ≡ none
  unfolding after_prepare
  after_prepare-waits fuel (err x, w) order id e pending never = cc
  after_prepare-waits fuel (ok (order', id'), w) order id e pending never =
      poll-waits env reader done number id' fuel (record { world = w; order = order' }) pending
        never

  -- A task that has taken its order and planned its transaction never ends, if its context is never
  -- done and the accrual service always answers that the order is still worked on or with an error
  -- to try again. No number of rounds is enough.
  pub process_order_waits :
      (allow_processing : Bool) (fuel : ℕ) (w : World) (order : Order) (id : Str)
      → (prepare env number allow_processing w).0 ≡ ok (order, id)
      → ((n : ℕ) → IsPending (reader n number))
      → ((i : ℕ) → done i ≡ false)
      → process_order env reader done fuel number allow_processing w ≡ none
  unfolding process_order
  process_order_waits allow_processing fuel w order id prepared pending never =
      after_prepare-waits fuel (prepare env number allow_processing w) order id prepared pending
        never
