-- ===== src/Server/Init.antt =====
-- internal/api/handler/factory.go.
use sufirmart.Base.{Option, none, some, List, [], ◌∷◌, Str, bytes}
use sufirmart.Store.Statement.{Env}
use sufirmart.Users.{Secrets}
use sufirmart.Server.{Request, Sent, Site, Handler, Library}
use sufirmart.Server.Middleware.{gzip_middleware, logging_middleware, authorized}
use sufirmart.Server.Endpoints.{
  balance_endpoint, withdraw_endpoint, list_orders_endpoint, upload_endpoint, withdrawals_endpoint,
  login_endpoint, register_endpoint,
}
use sufirmart.Server.Adapter.{mart_api, ChiServerOptions, handler}

-- What the handlers need from outside the program: how the database answers, the sources of hashes
-- and tokens, and the libraries.
pub record Outside : Type 0 where
  pub env : Env
  pub secrets : Secrets
  pub lib : Library

module _ (c : Outside) where
  abbrev pub api_handlers : List (Str × Option Handler)
  api_handlers =
      (bytes "GetApiUserBalance", some (balance_endpoint c.lib c.env))
      ∷ (bytes "PostApiUserBalanceWithdraw", some (withdraw_endpoint c.lib c.env))
      ∷ (bytes "PostApiUserLogin", some (login_endpoint c.lib c.env c.secrets))
      ∷ (bytes "GetApiUserOrders", some (list_orders_endpoint c.lib c.env))
      ∷ (bytes "PostApiUserOrders", some (upload_endpoint c.lib c.env))
      ∷ (bytes "PostApiUserRegister", some (register_endpoint c.lib c.env c.secrets))
      ∷ (bytes "GetApiUserWithdrawals", some (withdrawals_endpoint c.lib c.env))
      ∷ []

  abbrev pub options : ChiServerOptions
  options = record {
    base_url = [];
    middlewares =
        (bytes "common", gzip_middleware c.lib ∷ logging_middleware c.lib ∷ [])
        ∷ (bytes "GET /api/user/balance", authorized c.lib c.env ∷ [])
        ∷ (bytes "POST /api/user/balance/withdraw", authorized c.lib c.env ∷ [])
        ∷ (bytes "GET /api/user/orders", authorized c.lib c.env ∷ [])
        ∷ (bytes "POST /api/user/orders", authorized c.lib c.env ∷ [])
        ∷ (bytes "GET /api/user/withdrawals", authorized c.lib c.env ∷ [])
        ∷ [];
  }

  -- InitApi
  unfoldable pub init_api : Handler
  init_api = handler c.lib (mart_api (record { api_handlers = api_handlers })) options

  -- A request that comes from outside has no user in its context.
  abbrev pub serve : Request → Site → Sent × Site
  serve req site = init_api none req site
