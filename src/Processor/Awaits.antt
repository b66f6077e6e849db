-- ===== src/Processor/Awaits.antt =====
-- What the tasks and the requests leave of the transactions that other tasks of
-- internal/order/processor.go wait for.
use sufirmart.Base.{false, pos, Bool, Str, arith}
use sufirmart.Store.{Db}
use sufirmart.Store.Statement.{Env}
use sufirmart.Store.Triple.{
  Triple, Triple-bind, Triple-pure, Triple-given, Triple-weaken, Triple-both, Triple-attempt,
}
use sufirmart.Domain.Amount.{Float64}
use sufirmart.Account.{approve_transaction}
use sufirmart.Account.Awaits.{
  AllPending, IsOwn, approve-AllPending, cancel-AllPending, cancel_planned-AllPending,
  register-AllPending,
}
use sufirmart.Orders.Keeps.{get_by_number-Keeps, save-Keeps}
use sufirmart.Users.Keeps.{IsOpenTo}
use sufirmart.Api.Keeps.{IsHandled}
use sufirmart.Processor.{prepare}
use sufirmart.Processor.Start.{touch_order-Keeps}
use sufirmart.Processor.Round.{IsRound}

-- What is shown of two conditions is shown of both.
pub IsRound-both :
    {env : Env} {I I' : Db → Type 0} {Before Before' Saved Saved' : Str → Str → Db → Type 0}
    → IsRound env I Before Saved
    → IsRound env I' Before' Saved'
    → IsRound env
        (λ d. I d × I' d)
        (λ id number d. Before id number d × Before' id number d)
        (λ id number d. Saved id number d × Saved' id number d)
IsRound-both h k = record {
  prepares = λ number allow.
      Triple-weaken _ (λ d p. p) (λ r d q. ((q.0.0, q.1.0), (q.0.1, q.1.1))) (λ d q. q)
        (Triple-both _ (h.prepares number allow) (k.prepares number allow));
  saves = λ id o f.
      Triple-weaken _ (λ d p. ((p.0.0, p.1.0), (p.0.1, p.1.1))) (λ a d q. q) (λ d q. q)
        (Triple-both _ (h.saves id o f) (k.saves id o f));
  approves = λ id number accrual.
      Triple-both _ (h.approves id number accrual) (k.approves id number accrual);
  cancels =
      λ id number reason. Triple-both _ (h.cancels id number reason) (k.cancels id number reason);
}

module _ (S : Str → Type 0) where
  pub AllPending-IsOpenTo : IsOpenTo (AllPending S)
  AllPending-IsOpenTo = record {
    users = λ d rows h. h;
    auths = λ d rows h. h;
    accounts = λ user d h e. h;
  }

  -- The conditions, with the transaction of the one who acts.
  abbrev pub Acting : Str → Db → Type 0
  Acting id d = AllPending S d × IsOwn S id d

  module _ (env : Env) where
    approve-Acting :
        (id : Str) (accrual : Float64)
        → Triple (Acting id) (approve_transaction env id accrual) (λ _. AllPending S) (AllPending S)
    approve-Acting id accrual = Triple-given λ d p.
        Triple-weaken _ (λ d p. p.0) (λ a d q. q) (λ d q. q)
          (approve-AllPending S env id accrual p.1.1)

    pub AllPending-IsHandled : IsHandled env (AllPending S) Acting (λ _ _. Unit {0})
    AllPending-IsHandled = record {
      registers = register-AllPending S env;
      approves = λ id. approve-Acting id (pos 0);
      looks_up = λ number. record {
        at = λ w p. (
          (Triple-attempt {E = λ _. ⊥} (get_by_number-Keeps env (AllPending S) number false)).at w
              p,
          λ _. tt,
        );
      };
      saves = λ o e.
          Triple-weaken _ (λ d p. p.0) (λ a d q. q) (λ d q. q)
            (save-Keeps env (AllPending S) (λ d rows h. h) o);
    }

    prepare-AllPending :
        (number : Str) (allow_processing : Bool)
        → Triple
            (AllPending S)
            (prepare env number allow_processing)
            (λ r d. AllPending S d × IsOwn S r.1 d)
            (AllPending S)
    unfolding prepare
    prepare-AllPending number allow_processing =
        Triple-bind (λ _. AllPending S) _ _
          (touch_order-Keeps env (AllPending S) (λ d rows h. h) number allow_processing)
          λ o.
            Triple-bind (λ _. AllPending S) _ _ (cancel_planned-AllPending S env _ _ _)
              λ _.
                Triple-bind Acting _ _ (register-AllPending S env _ _ _ _ (omega arith))
                  λ id. Triple-pure (o, id) (λ d q. q)

    pub AllPending-IsRound :
        IsRound env (AllPending S) (λ id number. IsOwn S id) (λ id number. Acting id)
    AllPending-IsRound = record {
      prepares = prepare-AllPending;
      saves = λ id o f.
          Triple-weaken _ (λ d p. p) (λ a d q. q) (λ d q. q.0)
            (save-Keeps env (Acting id) (λ d rows h. h) o);
      approves = λ id number accrual. approve-Acting id accrual;
      cancels = λ id number reason.
          Triple-weaken _ (λ d p. p.0) (λ a d q. q) (λ d q. q) (cancel-AllPending S env id reason);
    }
