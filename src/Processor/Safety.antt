-- ===== src/Processor/Safety.antt =====
-- What processOrder of internal/order/processor.go keeps: every condition that its rounds keep, and so
-- the ledger.
use sufirmart.Base.{inl, inr, ◌≡◌, ℕ, Bool, Option-cases, none, some, Str, Result, ok, err, bytes}
use sufirmart.Domain.Order.{Order}
use sufirmart.Store.Statement.{Env, World}
use sufirmart.Store.Triple.{Post}
use sufirmart.Account.Ledger.{IsLedger, NotProcessed}
use sufirmart.Accrual.{Reader}
use sufirmart.Tools.Repeater.{repeat}
use sufirmart.Tools.Repeater.Keeps.{repeat-Keep}
use sufirmart.Processor.Strategy.{adaptive, new_adaptive_strategy, second}
use sufirmart.Processor.Round.{IsRound, Safe, ask-Safe, fail_order-Safe}
use sufirmart.Store.{Db}
use sufirmart.Store.Triple.{Triple, BodyPost, Triple-statement, Triple-after}
use sufirmart.Account.{approve_transaction}
use sufirmart.Account.Approve.{approve_transaction-IsLedger}
use sufirmart.Account.Calls.{cancel_transaction-Keeps}
use sufirmart.Orders.{save}
use sufirmart.Orders.Keeps.{IsLedger-Ignores, save_order-Keeps}
use sufirmart.Processor.Start.{prepare-Keeps}
use sufirmart.Processor.{
  Task, ask, conclude_order, poll, prepare, after_prepare, process_order, fail_order,
}

module _ (env : Env) (I : Db → Type 0) (Before Saved : Str → Str → Db → Type 0)
    (round : IsRound env I Before Saved) where
  module _ (id : Str) where
    unfoldable pub SafeTask : Task → Type 0
    SafeTask s = Safe env I Before Saved round id s.order s.world.db

    -- What holds after a result and after an error holds after the call.
    either :
        {A : Type 0} (r : Result A) (s : Task)
        → Post
            (λ _. Safe env I Before Saved round id s.order)
            (Safe env I Before Saved round id s.order)
            r
            s.world.db
        → SafeTask s
    unfolding SafeTask
    either (ok _) s h = h
    either (err _) s h = h

    pub ask-SafeTask :
        (reader : Reader) (number : Str) (s : Task)
        → SafeTask s
        → SafeTask (ask env reader number id s).1
    unfolding SafeTask
    ask-SafeTask reader number s h =
        either (ask env reader number id s).0 (ask env reader number id s).1
          ((ask-Safe env I Before Saved round id reader number).at s h)

    pub conclude-Keeps :
        (r : Result (Unit {0})) (s : Task) → SafeTask s → I (conclude_order env id r s).db
    unfolding conclude_order SafeTask
    conclude-Keeps (ok _) s h = h.0
    conclude-Keeps (err _) s h =
        (either (fail_order env id (bytes "accrual request failed") s).0
          (fail_order env id (bytes "accrual request failed") s).1
          ((fail_order-Safe env I Before Saved round id (bytes "accrual request failed")).at s h)).0

    poll-Keeps :
        (reader : Reader) (done : ℕ → Bool) (fuel : ℕ) (number : Str) (s : Task) (w : World)
        → SafeTask s
        → poll env reader done fuel number id s ≡ some w
        → I w.db
    unfolding poll
    poll-Keeps reader done fuel number s w h e =
        elim (Option-cases (
          repeat adaptive done (ask env reader number id) fuel (new_adaptive_strategy second 0)
            s)) [
              | inl out ↦ let gone : none ≡ some w = rw (out, poll) at e in cc
              | inr (o, ended) ↦
                  let kept : SafeTask o.state =
                    repeat-Keep adaptive done (ask env reader number id) SafeTask
                      (ask-SafeTask reader number) fuel (new_adaptive_strategy second 0) s o h
                      ended in
                  let same : some (conclude_order env id o.result o.state) ≡ some w =
                    rw (ended, poll) at e in
                  let eq : conclude_order env id o.result o.state ≡ w = cc in
                  rw eq at (conclude-Keeps o.result o.state kept)
            ]

  after_prepare-Keeps :
      (reader : Reader) (done : ℕ → Bool) (fuel : ℕ) (number : Str)
      (r : Result (Order × Str) × World) (w : World)
      → Post (λ r d. I d × Before r.1 r.0.number d) I r.0 r.1.db
      → after_prepare env reader done fuel number r ≡ some w
      → I w.db
  unfolding after_prepare SafeTask
  after_prepare-Keeps reader done fuel number (err e, v) w h s =
      let same : some v ≡ some w = s in let eq : v ≡ w = cc in rw eq at h
  after_prepare-Keeps reader done fuel number (ok (order, id), v) w h s =
      poll-Keeps id reader done fuel number (record { world = v; order = order }) w (h.0, inr h.1) s

  -- A task that ends keeps what its rounds keep.
  pub process_order-Keeps :
      (reader : Reader) (number : Str) (allow_processing : Bool) (done : ℕ → Bool) (fuel : ℕ)
      (w w' : World)
      → I w.db
      → process_order env reader done fuel number allow_processing w ≡ some w'
      → I w'.db
  unfolding process_order
  process_order-Keeps reader number allow_processing done fuel w w' h e =
      after_prepare-Keeps reader done fuel number (prepare env number allow_processing w) w'
        ((round.prepares number allow_processing).at w h) e

-- The ledger is kept by the rounds.
abbrev pub Unapproved : Str → Str → Db → Type 0
Unapproved id number d = NotProcessed id d

abbrev pub Unsettled : Str → Str → Db → Type 0
Unsettled id number d = IsLedger d × NotProcessed id d

pub IsLedger-IsRound : (env : Env) → IsRound env IsLedger Unapproved Unsettled
unfolding save
IsLedger-IsRound env = record {
  prepares = prepare-Keeps env;
  saves = λ id o f. save-Unsettled id o;
  approves = λ id number accrual.
      Triple-after _ IsLedger (approve_transaction env id accrual)
        λ w p. approve_transaction-IsLedger env id accrual w p.0 p.1;
  cancels = λ id number reason. cancel_transaction-Keeps env id reason;
}
  where
    weaken :
        (id : Str) (d : Db) (r : Result (Unit {0} × Db))
        → BodyPost (λ (_ : Unit {0}). Unsettled id id) (Unsettled id id) d r
        → BodyPost (λ (_ : Unit {0}). Unsettled id id) IsLedger d r
    weaken id d (ok _) h = h
    weaken id d (err _) h = h.0

    save-Unsettled :
        (id : Str) (o : Order)
        → Triple (Unsettled id o.number) (save env o) (λ _. Unsettled id o.number) IsLedger
    save-Unsettled id o =
        Triple-statement env _ (λ d p. p.0)
          λ now d p. weaken id d _ (
            save_order-Keeps (Unsettled id id) o.user_id o.number o.status now d
              (λ e rows h. (IsLedger-Ignores e rows h.0, h.1)) p)

-- Whatever the accrual service answers, whichever statements fail and whenever the context ends: a
-- task that ends leaves a ledger, if it began with one.
pub process_order-IsLedger :
    (env : Env) (reader : Reader) (done : ℕ → Bool) (fuel : ℕ) (number : Str)
    (allow_processing : Bool) (w w' : World)
    → IsLedger w.db
    → process_order env reader done fuel number allow_processing w ≡ some w'
    → IsLedger w'.db
process_order-IsLedger env reader done fuel number allow_processing w w' h e =
    process_order-Keeps env IsLedger Unapproved Unsettled (IsLedger-IsRound env) reader number
      allow_processing done fuel w w' h e
