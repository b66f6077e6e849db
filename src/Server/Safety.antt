-- ===== src/Server/Safety.antt =====
-- Every request that internal/api/handler/factory.go serves keeps the ledger.
use Prim.{absurd}
use sufirmart.Base.{Option, Str, Result, ok, err}
use sufirmart.Store.Statement.{World}
use sufirmart.Store.Triple.{Post}
use sufirmart.Account.Ledger.{IsLedger}
use sufirmart.Tools.WorkerPool.{Pool}
use sufirmart.Processor.Queue.{Queued}
use sufirmart.Api.Reply.{Response}
use sufirmart.Api.Keeps.{
  IsHandled, IsLedger-IsHandled, post_withdraw-Answers, post_orders-Answers,
  get_user_balance-Answers, get_user_orders-Answers, get_user_withdrawals-Answers,
}
use sufirmart.Access.{Signed}
use sufirmart.Access.Refusal.{auth_middleware-db}
use sufirmart.Users.Keeps.{IsOpenTo, IsLedger-IsOpenTo}
use sufirmart.Store.{Db}
use sufirmart.Access.Keeps.{post_login-Answers, post_register-Answers}
use sufirmart.Server.{Request, Site, Library}
use sufirmart.Server.Endpoints.{
  plain_end, signed_end, queued_end, hand_over, balance_endpoint, withdraw_endpoint,
  list_orders_endpoint, upload_endpoint, withdrawals_endpoint, login_endpoint, register_endpoint,
  read_all,
}
use sufirmart.Server.Init.{Outside, serve}
use sufirmart.Server.Keeps.{IsKept, serve-Keeps}

-- `P` holds of the database, and `Q` of the pool.
abbrev pub IsSound : (Db → Type 0) → (Option (Pool Queued) → Type 0) → Site → Type 0
IsSound P Q site = P site.world.db × Q site.pool

module _ (P : Db → Type 0) (Q : Option (Pool Queued) → Type 0) where
  module _ (lib : Library) (site : Site) where
    plain_end-Keeps :
        (r : Result Response × World)
        → Post (λ _. P) (λ _. ⊥) r.0 r.1.db
        → Q site.pool
        → IsSound P Q (plain_end lib site r).1
    unfolding plain_end
    plain_end-Keeps (ok reply, w) h q = (h, q)
    plain_end-Keeps (err e, w) h q = absurd h

    signed_end-Keeps :
        (r : Result Signed × World)
        → Post (λ _. P) (λ _. ⊥) r.0 r.1.db
        → Q site.pool
        → IsSound P Q (signed_end lib site r).1
    unfolding signed_end
    signed_end-Keeps (ok (reply, authorization), w) h q = (h, q)
    signed_end-Keeps (err e, w) h q = absurd h

  module _
      (fed : (number : Option Str) (pool : Option (Pool Queued))
        → Q pool
        → Q (hand_over number pool)) where
    queued_end-Keeps :
        (lib : Library) (site : Site) (r : Result (Response × Option Str) × World)
        → Post (λ _. P) (λ _. ⊥) r.0 r.1.db
        → Q site.pool
        → IsSound P Q (queued_end lib site r).1
    unfolding queued_end
    queued_end-Keeps lib site (ok (reply, number), w) h q = (h, fed number site.pool q)
    queued_end-Keeps lib site (err e, w) h q = absurd h

    -- What the handlers and the accounts of users keep, every request keeps.
    IsSound-IsKept :
        {Ready Free : Str → Db → Type 0} (c : Outside)
        → IsOpenTo P
        → IsHandled c.env P Ready Free
        → IsKept c (IsSound P Q)
    unfolding balance_endpoint withdraw_endpoint list_orders_endpoint upload_endpoint
        withdrawals_endpoint login_endpoint register_endpoint
    IsSound-IsKept c stays handled = record {
      any_log = λ site log h. h;
      checked =
          λ authorization site h. (rw (auth_middleware-db c.env authorization site.world) h.0, h.1);
      balance = λ user req site h.
          plain_end-Keeps c.lib site _ ((get_user_balance-Answers c.env P user).at site.world h.0)
            h.1;
      withdraw = λ user req site h.
          plain_end-Keeps c.lib site _
            ((post_withdraw-Answers c.env handled user (c.lib.decode_withdraw req.body)).at
              site.world h.0)
            h.1;
      login = λ user req site h.
          signed_end-Keeps c.lib site _
            ((post_login-Answers c.env c.secrets P stays (c.lib.decode_credentials req.body)).at
              site.world h.0)
            h.1;
      list_orders = λ user req site h.
          plain_end-Keeps c.lib site _ ((get_user_orders-Answers c.env P user).at site.world h.0)
            h.1;
      upload = λ user req site h.
          queued_end-Keeps c.lib site _
            ((post_orders-Answers c.env handled req.content_type (read_all req.body) user
                (c.lib.clock site.world.calls)).at
              site.world h.0)
            h.1;
      register = λ user req site h.
          signed_end-Keeps c.lib site _
            ((post_register-Answers c.env c.secrets P stays (c.lib.decode_credentials req.body)).at
              site.world h.0)
            h.1;
      withdrawals = λ user req site h.
          plain_end-Keeps c.lib site _
            ((get_user_withdrawals-Answers c.env P user).at site.world h.0) h.1;
    }

    pub serve-IsSound :
        {Ready Free : Str → Db → Type 0} (c : Outside)
        → IsOpenTo P
        → IsHandled c.env P Ready Free
        → (req : Request) (site : Site) → IsSound P Q site
        → IsSound P Q (serve c req site).1
    serve-IsSound c stays handled = serve-Keeps c (IsSound P Q) (IsSound-IsKept c stays handled)

-- Whatever the request, whatever route the router chooses for it, whichever statements fail and
-- whatever the decoders make of the body: after it has been served, every balance is the sum of the
-- processed accruals less the processed withdrawals of its user and not negative, if this held
-- before.
pub serve-IsLedger :
    (c : Outside) (req : Request) (site : Site)
    → IsLedger site.world.db
    → IsLedger (serve c req site).1.world.db
serve-IsLedger c req site h =
    (serve-IsSound IsLedger (λ _. Unit {0}) (λ number pool q. tt) c IsLedger-IsOpenTo
      (IsLedger-IsHandled c.env) req site (h, tt)).0
