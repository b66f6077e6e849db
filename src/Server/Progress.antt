-- ===== src/Server/Progress.antt =====
-- However the service runs, with each task as a whole, the orders only come along.
use sufirmart.Base.{
  inl, ◌≡◌, ◌∙◌, refl, sym, false, Option, none, some, List, Str, Result, ok, err, order_not_found,
  pos,
}
use sufirmart.Domain.Order.{Order}
use sufirmart.Store.{Db, OrderRow}
use sufirmart.Store.Statement.{Env}
use sufirmart.Store.Triple.{Triple-weaken}
use sufirmart.Account.Additions.{register_transaction-Triple}
use sufirmart.Accrual.{Reader}
use sufirmart.Orders.{find_order}
use sufirmart.Orders.Once.Tells.{Tells, get_by_number-told}
use sufirmart.Orders.Progress.{Comes, save-Progress}
use sufirmart.Users.Keeps.{IsOpenTo}
use sufirmart.Api.Keeps.{IsHandled}
use sufirmart.Tools.WorkerPool.{Pool}
use sufirmart.Processor.Progress.{Since, approve-Since, Since-IsRound}
use sufirmart.Processor.Queue.{Queued}
use sufirmart.Processor.Safety.{process_order-Keeps}
use sufirmart.Server.{Site}
use sufirmart.Server.Init.{Outside}
use sufirmart.Server.System.{SystemRun, Held, IsTasked, run-IsSound}

abbrev Missing : Str → Db → Type 0
Missing number d = find_order number d.orders ≡ none

told-Missing :
    (number : Str) (d : Db) (r : Result Order)
    → Tells number d r
    → r ≡ err order_not_found
    → Missing number d
told-Missing number d (ok o) h e = cc
told-Missing number d (err x) h e = let same : x ≡ order_not_found = cc in h same

any_pool : (pool : Option (Pool Queued)) → Held (λ _. Unit {0}) pool
any_pool none = tt
any_pool (some p) = tt

module _ (env : Env) (before : List OrderRow) where
  Since-IsOpenTo : IsOpenTo (Since env before)
  Since-IsOpenTo = record {
    users = λ d rows h. h;
    auths = λ d rows h. h;
    accounts = λ user d h e. h;
  }

  Since-IsHandled : IsHandled env (Since env before) (λ _. Since env before) Missing
  Since-IsHandled = record {
    registers = λ user order_num sum comment low.
        register_transaction-Triple (Since env before) (λ _. Since env before) user order_num
          (λ t d missing named zero unsettled h. h) env sum comment low;
    approves = λ id. approve-Since env before id (pos 0);
    looks_up = λ number.
        Triple-weaken _ (λ d p. p) (λ r d q. (q.0, told-Missing number d r q.1)) (λ d no. no)
          (get_by_number-told env (Since env before) number false);
    saves = λ o e.
        Triple-weaken _ (λ d p. (p.0, λ row found. absurd (none-some (sym p.1 ∙ found))))
          (λ a d q. q) (λ d q. q) (save-Progress env before o);
  }
    where
      none-some : {row : OrderRow} → none ≡ some row → ⊥
      none-some e = cc

  Since-IsTasked : (reader : Reader) → IsTasked env reader (Since env before)
  Since-IsTasked reader number allow done fuel w w' h e =
      process_order-Keeps env (Since env before) _ _ (Since-IsRound env before) reader number allow
        done fuel w w' h e

-- However requests, tasks and recoveries follow each other, each of them run as a whole, whatever the
-- accrual service answers and whichever statements and commits fail: an order that is there stays
-- there with its owner and its time of upload, and its status stays or moves on, from new to
-- processing and from these two to invalid or processed.
pub orders_progress :
    (c : Outside) (reader : Reader) (s t : Site) (number : Str) (row : OrderRow)
    → SystemRun c reader s t
    → find_order number s.world.orders ≡ some row
    → (row' : OrderRow) × (find_order number t.world.orders ≡ some row') × Comes row row'
orders_progress c reader s t number row r found =
    let (kept, pool) =
      run-IsSound (λ _. Unit {0}) (λ p q x h. tt) (Since c.env s.world.orders) c reader
        (Since-IsOpenTo c.env s.world.orders) (Since-IsHandled c.env s.world.orders)
        (Since-IsTasked c.env s.world.orders reader) r
        ((λ m o e. (o, e, (refl, refl, inl refl))), any_pool s.pool) in
    kept number row found
