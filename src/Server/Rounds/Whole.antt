-- ===== src/Server/Rounds/Whole.antt =====
-- A task of internal/order/processor.go that runs as a whole is one order of its rounds.
use sufirmart.Base.{
  inl, inr, Option-cases, ◌≡◌, ◌∙◌, refl, sym, ℕ, zero, suc, ◌+◌, Bool, Option, none, some, List,
  [], ◌∷◌, ◌++◌, Str, Result, ok, err,
}
use sufirmart.Domain.Order.{Order}
use sufirmart.Store.Statement.{World}
use sufirmart.Accrual.{Reader}
use sufirmart.Tools.WorkerPool.{Pool}
use sufirmart.Tools.Repeater.{Outcome, report, repeat, repeat_from}
use sufirmart.Tools.Repeater.Turns.{Turn, goes, returns, follow, repeat_from-turn}
use sufirmart.Processor.Strategy.{AdaptiveStrategy, adaptive, new_adaptive_strategy, second}
use sufirmart.Processor.Queue.{Queued}
use sufirmart.Processor.{Task, ask, prepare, after_prepare, poll, conclude_order, process_order}
use sufirmart.Server.{Site}
use sufirmart.Server.Init.{Outside}
use sufirmart.Server.System.{SystemStep, SystemRun, serves, moves, runs, recovers, begin, go_on}
use sufirmart.Server.Rounds.{
  Waiting, Busy, RoundRun, whole, declines, begins, rounds, concludes, at_once, then_step,
  with_world, prepared, after_turn, turn_of,
}

-- What Repeat ends with, for a task.
abbrev Ended : Type 0
Ended = Outcome AdaptiveStrategy Task (Unit {0})

module _ (c : Outside) (reader : Reader) where
  run_on : {a b d : Busy} → RoundRun c reader a b → RoundRun c reader b d → RoundRun c reader a d
  run_on r at_once = r
  run_on r (then_step q x) = then_step (run_on r q) x

  -- The service when the task is over.
  abbrev task_over : Waiting → List Waiting → Busy → Ended → Busy
  task_over x others b o = with_world (conclude_order c.env x.id o.result o.state) others b

  -- The rounds of Repeat that are left to a task.
  abbrev left_of : ℕ → Waiting → World → Option Ended
  left_of fuel x w =
      repeat_from adaptive x.done (ask c.env reader x.number x.id)
        (adaptive.attempts (new_adaptive_strategy second 0)) fuel x.attempt x.strategy
        (record { world = w; order = x.order })

  rounds_run :
      (fuel : ℕ) (b : Busy) (x : Waiting) (others : List Waiting) (o : Ended)
      → b.waiting ≡ x ∷ others
      → x.result ≡ none
      → left_of fuel x b.site.world ≡ some o
      → RoundRun c reader b (task_over x others b o)
  unfolding repeat_from
  rounds_run zero b x others o there going e = absurd (none-some e)
    where
      none-some : none ≡ some o → ⊥
      none-some e = cc
  rounds_run (suc fuel) b x others o there going e =
      by_turn (turn_of c reader x b.site.world)
        (then_step at_once (rounds b [] others x there going))
        (sym (
            repeat_from-turn adaptive x.done (ask c.env reader x.number x.id) _ fuel x.attempt
              x.strategy (record { world = b.site.world; order = x.order }))
          ∙ e)
        (rounds_run fuel)
    where
      by_turn :
          (t : Turn AdaptiveStrategy Task (Unit {0}))
          → RoundRun c reader b (after_turn c reader x others b t)
          → follow adaptive x.done
              (ask c.env reader x.number x.id)
              (adaptive.attempts (new_adaptive_strategy second 0))
              fuel
              x.attempt
              t
            ≡ some o
          → ((d : Busy) (y : Waiting) (l : List Waiting) (q : Ended)
              → d.waiting ≡ y ∷ l
              → y.result ≡ none
              → left_of fuel y d.site.world ≡ some q
              → RoundRun c reader d (task_over y l d q))
          → RoundRun c reader b (task_over x others b o)
      by_turn (returns q) r e again =
          let same : q ≡ o = cc in
          rw (← same) (
            then_step r (
              concludes (after_turn c reader x others b (returns q)) [] others _ q.result refl
                refl))
      by_turn (goes f t s) r e again =
          let x' = record x { order = s.order; attempt = x.attempt + 1; strategy = t } in
          elim (Option-cases (left_of fuel x' s.world)) [
            | inl out ↦ absurd (none-some (rw out at e))
            | inr (q, ends) ↦
                let same : report f q ≡ o = some-injective (rw ends at e) in
                rw (← same) (
                  run_on r (
                    again (after_turn c reader x others b (goes f t s)) x' others q refl going
                      ends))
          ]
        where
          none-some : none ≡ some o → ⊥
          none-some e = cc

          some-injective : {q : Ended} → some q ≡ some o → q ≡ o
          some-injective e = cc

  -- From the prepared task to its end.
  poll_run :
      (fuel : ℕ) (b : Busy) (number : Str) (done : ℕ → Bool) (order : Order) (id : Str)
      (others : List Waiting) (w : World)
      → b.waiting ≡ prepared number done order id ∷ others
      → poll c.env reader done fuel number id (record { world = b.site.world; order = order })
        ≡ some w
      → RoundRun c reader b (with_world w others b)
  unfolding poll repeat
  poll_run fuel b number done order id others w there e =
      let x = prepared number done order id in
      elim (Option-cases (left_of fuel x b.site.world)) [
        | inl out ↦ absurd (none-some (rw (out, poll) at e))
        | inr (o, ends) ↦
            let same : conclude_order c.env id o.result o.state ≡ w =
              some-injective (rw (ends, poll) at e) in
            rw (← same) (rounds_run fuel b x others o there refl ends)
      ]
    where
      none-some : none ≡ some w → ⊥
      none-some e = cc

      some-injective : {v : World} → some v ≡ some w → v ≡ w
      some-injective e = cc

  -- A task that a worker has, from its start to its end.
  task_run :
      (b : Busy) (p : Pool Queued) (before after : List Queued) (number : Str) (allow : Bool)
      (done : ℕ → Bool) (fuel : ℕ) (w : World)
      → b.site.pool ≡ some p
      → p.running ≡ before ++ (number, allow) ∷ after
      → process_order c.env reader done fuel number allow b.site.world ≡ some w
      → RoundRun c reader b (with_world w b.waiting b)
  unfolding process_order after_prepare
  task_run b p before after number allow done fuel w there taken e =
      by_result (prepare c.env number allow b.site.world) refl e
    where
      by_result :
          (r : Result (Order × Str) × World)
          → prepare c.env number allow b.site.world ≡ r
          → after_prepare c.env reader done fuel number r ≡ some w
          → RoundRun c reader b (with_world w b.waiting b)
      by_result (err x, v) ready e =
          let same : v ≡ w = cc in
          rw (← same)
            (then_step at_once (declines b p before after number allow x v there taken ready))
      by_result (ok (order, id), v) ready e =
          let started = prepared number done order id ∷ b.waiting in
          run_on
            (then_step at_once
              (begins b p before after number allow done order id v there taken ready))
            (poll_run fuel (with_world v started b) number done order id b.waiting w refl e)

  step_run :
      (waiting : List Waiting) {s t : Site}
      → SystemStep c reader s t
      → RoundRun c reader
          (record { site = s; waiting = waiting })
          (record { site = t; waiting = waiting })
  step_run waiting (serves s req) = then_step at_once (whole _ _ (serves s req) refl)
  step_run waiting (moves s p q there moved) =
      then_step at_once (whole _ _ (moves s p q there moved) refl)
  step_run waiting (recovers s p there) = then_step at_once (whole _ _ (recovers s p there) refl)
  step_run waiting (runs s p before after number allow done fuel w there taken ended) =
      task_run (record { site = s; waiting = waiting }) p before after number allow done fuel w
        there taken ended

-- The service in which each task runs as a whole is one of the orders in which the rounds of the tasks
-- may fall between each other: what it comes to, the service with its rounds comes to as well, with
-- the same tasks waiting as before.
pub SystemRun-RoundRun :
    (c : Outside) (reader : Reader) (waiting : List Waiting) (s t : Site)
    → SystemRun c reader s t
    → RoundRun c reader
        (record { site = s; waiting = waiting })
        (record { site = t; waiting = waiting })
SystemRun-RoundRun c reader waiting s t begin = at_once
SystemRun-RoundRun c reader waiting s t (go_on {t = m} r x) =
    run_on c reader (SystemRun-RoundRun c reader waiting s m r) (step_run c reader waiting x)
