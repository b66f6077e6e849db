-- ===== src/Server/Once.antt =====
-- However the service runs, it credits an order at most once.
use sufirmart.Base.{
  if◌then◌else◌, false, ◌≡◌, ap, ℕ, ◌≤◌, Str, Result, ok, err, order_not_found, inr,
}
use sufirmart.Domain.Order.{Order}
use sufirmart.Store.{Db}
use sufirmart.Store.Statement.{Env}
use sufirmart.Store.Triple.{Triple-weaken}
use sufirmart.Account.Credits.{credits}
use sufirmart.Users.Keeps.{IsOpenTo}
use sufirmart.Api.Keeps.{IsHandled}
use sufirmart.Accrual.{Reader}
use sufirmart.Orders.{find_order}
use sufirmart.Orders.Once.{IsOnce, Uncredited, Uncredited-pending, may_begin}
use sufirmart.Orders.Once.Saved.{save-Once}
use sufirmart.Orders.Once.Tells.{Tells, get_by_number-told}
use sufirmart.Orders.Once.Credited.{approve-IsOnce, register-IsOnce, Before, Saved}
use sufirmart.Processor.Once.{IsOnce-IsRound}
use sufirmart.Processor.Safety.{process_order-Keeps}
use sufirmart.Tools.WorkerPool.Drain.{Reach, step}
use sufirmart.Server.{Site}
use sufirmart.Server.Init.{Outside}
use sufirmart.Server.System.{SystemRun, PoolReach, IsTasked, run-IsSound}

pub IsOnce-IsOpenTo : IsOpenTo IsOnce
IsOnce-IsOpenTo = record {
  users = λ d rows h. record { bound = h.bound };
  auths = λ d rows h. record { bound = h.bound };
  accounts = λ user d h e. record { bound = h.bound };
}

missing-Uncredited :
    (number : Str) (d : Db) (r : Result Order)
    → IsOnce d × Tells number d r
    → r ≡ err order_not_found
    → Uncredited number d
missing-Uncredited number d (ok o) h e = cc
missing-Uncredited number d (err x) h e =
    let same : x ≡ order_not_found = cc in
    let missing = h.1 same in Uncredited-pending number d h.0 (ap may_begin missing)

pub IsOnce-IsHandled : (env : Env) → IsHandled env IsOnce (λ _. IsOnce) Uncredited
IsOnce-IsHandled env = record {
  registers = register-IsOnce env;
  approves = approve-IsOnce env;
  looks_up = λ number.
      Triple-weaken _ (λ d p. p) (λ r d h. (h.0, missing-Uncredited number d r h)) (λ d no. no)
        (get_by_number-told env IsOnce number false);
  saves = λ o e.
      Triple-weaken _ (λ d p. (p.0, inr p.1, p.1)) (λ a d q. q.0) (λ d q. q)
        (save-Once env o (λ ts. credits o.number ts ≡ 0));
}

pub IsOnce-IsTasked : (env : Env) (reader : Reader) → IsTasked env reader IsOnce
IsOnce-IsTasked env reader number allow done fuel w w' h e =
    process_order-Keeps env IsOnce (λ id number d. Before id number d.transactions) Saved
      (IsOnce-IsRound env) reader number allow done fuel w w' h e

-- However requests, tasks and recoveries follow each other, each of them run as a whole, whatever the
-- accrual service answers and whichever statements and commits fail: at most one transaction of an
-- order number has a positive accrual, and none has as long as the order is missing, new or in
-- processing. The conditions: this held at the start, where the pool was one that its steps reach.
pub credited_once :
    (n size : ℕ) (c : Outside) (reader : Reader) (s t : Site) (number : Str)
    → SystemRun c reader s t
    → IsOnce s.world.db
    → PoolReach n size s.pool
    → credits number t.world.transactions
      ≤ (if may_begin (find_order number t.world.orders) then 0 else 1)
credited_once n size c reader s t number r h reached =
    let (kept, pool) =
      run-IsSound (Reach n size) (λ p q x h. step h x) IsOnce c reader IsOnce-IsOpenTo
        (IsOnce-IsHandled c.env) (IsOnce-IsTasked c.env reader) r (h, reached) in
    kept.bound number
