-- ===== src/Server/Endpoints.antt =====
-- The handlers of internal/api/handler as http.Handlers: what they read of the request and write.
use sufirmart.Base.{Option, none, some, Str, Result, ok, err, if◌then◌else◌}
use sufirmart.Store.Statement.{Env, World}
use sufirmart.Tools.WorkerPool.{Pool}
use sufirmart.Processor.Queue.{Queued, process}
use sufirmart.Api.Reply.{Response, http_error}
use sufirmart.Api.{
  post_withdraw, post_orders, get_user_balance, get_user_orders, get_user_withdrawals,
}
use sufirmart.Users.{Secrets}
use sufirmart.Access.{Signed, post_login, post_register}
use sufirmart.Server.{Stream, Sent, Site, Handler, Library, written}

-- io.ReadAll
unfoldable pub read_all : Stream → Option Str
read_all s = if s.broken then none else some s.text

-- What is queued beside the answer, by Process.
unfoldable pub hand_over : Option Str → Option (Pool Queued) → Option (Pool Queued)
hand_over none pool = pool
hand_over (some number) pool = process number pool

module _ (lib : Library) where
  -- A handler never ends with an error, so the last clauses are not reached.
  unfoldable pub plain_end : Site → Result Response × World → Sent × Site
  plain_end site (ok reply, w) = (written lib reply none, record site { world = w })
  plain_end site (err e, w) = (written lib (http_error 500) none, record site { world = w })

  unfoldable pub signed_end : Site → Result Signed × World → Sent × Site
  signed_end site (ok (reply, authorization), w) =
      (written lib reply authorization, record site { world = w })
  signed_end site (err e, w) = (written lib (http_error 500) none, record site { world = w })

  unfoldable pub queued_end : Site → Result (Response × Option Str) × World → Sent × Site
  unfolding hand_over
  queued_end site (ok (reply, number), w) =
      (written lib reply none, record site { world = w; pool = hand_over number site.pool })
  queued_end site (err e, w) = (written lib (http_error 500) none, record site { world = w })

  module _ (env : Env) where
    unfoldable pub balance_endpoint : Handler
    unfolding plain_end
    balance_endpoint user req site = plain_end site (get_user_balance env user site.world)

    unfoldable pub withdraw_endpoint : Handler
    unfolding plain_end
    withdraw_endpoint user req site =
        plain_end site (post_withdraw env user (lib.decode_withdraw req.body) site.world)

    unfoldable pub list_orders_endpoint : Handler
    unfolding plain_end
    list_orders_endpoint user req site = plain_end site (get_user_orders env user site.world)

    unfoldable pub upload_endpoint : Handler
    unfolding queued_end read_all
    upload_endpoint user req site = queued_end site (
        post_orders env req.content_type (read_all req.body) user (lib.clock site.world.calls)
          site.world)

    unfoldable pub withdrawals_endpoint : Handler
    unfolding plain_end
    withdrawals_endpoint user req site = plain_end site (get_user_withdrawals env user site.world)

    unfoldable pub login_endpoint : Secrets → Handler
    unfolding signed_end
    login_endpoint secrets user req site =
        signed_end site (post_login env secrets (lib.decode_credentials req.body) site.world)

    unfoldable pub register_endpoint : Secrets → Handler
    unfolding signed_end
    register_endpoint secrets user req site =
        signed_end site (post_register env secrets (lib.decode_credentials req.body) site.world)
