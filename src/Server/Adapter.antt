-- ===== src/Server/Adapter.antt =====
-- internal/api: MartApi of impl.go, and the routes and wrappers of generated.go.
use sufirmart.Base.{ℕ, zero, suc, Option, none, some, List, [], ◌∷◌, ◌++◌, Str, bytes, map, lookup}
use sufirmart.Server.{Handler, Middleware, Library, http_error_with}

-- The interface ServerInterface.
pub record ServerInterface : Type 0 where
  pub get_api_user_balance : Handler
  pub post_api_user_balance_withdraw : Handler
  pub post_api_user_login : Handler
  pub get_api_user_orders : Handler
  pub post_api_user_orders : Handler
  pub post_api_user_register : Handler
  pub get_api_user_withdrawals : Handler

-- The handlers by name; one may be nil.
pub record MartApi : Type 0 where
  pub api_handlers : List (Str × Option Handler)

unfoldable pub internal_error : Handler
internal_error user req site = (http_error_with 500 (bytes "internal error"), site)

unfoldable pub or_internal_error : Option (Option Handler) → Handler
unfolding internal_error
or_internal_error (some (some h)) = h
or_internal_error _ = internal_error

abbrev pub named : MartApi → Str → Handler
named api name = or_internal_error (lookup name api.api_handlers)

-- The methods of MartApi
unfoldable pub mart_api : MartApi → ServerInterface
unfolding or_internal_error
mart_api api = record {
  get_api_user_balance = named api (bytes "GetApiUserBalance");
  post_api_user_balance_withdraw = named api (bytes "PostApiUserBalanceWithdraw");
  post_api_user_login = named api (bytes "PostApiUserLogin");
  get_api_user_orders = named api (bytes "GetApiUserOrders");
  post_api_user_orders = named api (bytes "PostApiUserOrders");
  post_api_user_register = named api (bytes "PostApiUserRegister");
  get_api_user_withdrawals = named api (bytes "GetApiUserWithdrawals");
}

pub record ServerInterfaceWrapper : Type 0 where
  pub handler : ServerInterface
  pub handler_middlewares : List Middleware

-- The loop over HandlerMiddlewares: the last one is outermost.
unfoldable pub wrap_all : List Middleware → Handler → Handler
wrap_all [] h = h
wrap_all (m ∷ ms) h = wrap_all ms (m h)

-- The methods of the wrapper
unfoldable pub wrapped : ServerInterfaceWrapper → ServerInterface
unfolding wrap_all
wrapped siw = record {
  get_api_user_balance = wrap_all siw.handler_middlewares siw.handler.get_api_user_balance;
  post_api_user_balance_withdraw =
      wrap_all siw.handler_middlewares siw.handler.post_api_user_balance_withdraw;
  post_api_user_login = wrap_all siw.handler_middlewares siw.handler.post_api_user_login;
  get_api_user_orders = wrap_all siw.handler_middlewares siw.handler.get_api_user_orders;
  post_api_user_orders = wrap_all siw.handler_middlewares siw.handler.post_api_user_orders;
  post_api_user_register = wrap_all siw.handler_middlewares siw.handler.post_api_user_register;
  get_api_user_withdrawals = wrap_all siw.handler_middlewares siw.handler.get_api_user_withdrawals;
}

pub record ChiServerOptions : Type 0 where
  pub base_url : Str
  pub middlewares : List (Str × List Middleware)

-- A registered route.
pub record Route : Type 0 where
  pub method : Str
  pub pattern : Str
  pub handler : Handler

-- The middlewares for a key; none are the same as an empty list.
unfoldable pub middlewares_for : Str → List (Str × List Middleware) → List Middleware
middlewares_for key m = elim (lookup key m) [ none ↦ [] | some ms ↦ ms ]

-- r.Use(middlewares...): the first one is outermost.
unfoldable pub use_all : List Middleware → Handler → Handler
use_all [] h = h
use_all (m ∷ ms) h = m (use_all ms h)

-- One r.Group of Handler
unfoldable pub group : ChiServerOptions → Str → Str → Handler → Route
unfolding use_all middlewares_for
group options method path h = record {
  method = method;
  pattern = options.base_url ++ path;
  handler = use_all (middlewares_for (method ++ (bytes " " ++ path)) options.middlewares) h;
}

unfoldable pub routes : ServerInterface → ChiServerOptions → List Route
unfolding group wrapped
routes si options =
    let w = wrapped (record {
      handler = si;
      handler_middlewares = middlewares_for (bytes "common") options.middlewares;
    }) in
    group options (bytes "GET") (bytes "/api/user/balance") w.get_api_user_balance
    ∷ group options (bytes "POST") (bytes "/api/user/balance/withdraw")
        w.post_api_user_balance_withdraw
    ∷ group options (bytes "POST") (bytes "/api/user/login") w.post_api_user_login
    ∷ group options (bytes "GET") (bytes "/api/user/orders") w.get_api_user_orders
    ∷ group options (bytes "POST") (bytes "/api/user/orders") w.post_api_user_orders
    ∷ group options (bytes "POST") (bytes "/api/user/register") w.post_api_user_register
    ∷ group options (bytes "GET") (bytes "/api/user/withdrawals") w.get_api_user_withdrawals
    ∷ []

unfoldable pub nth_route : ℕ → List Route → Option Route
nth_route n [] = none
nth_route zero (r ∷ rs) = some r
nth_route (suc n) (r ∷ rs) = nth_route n rs

abbrev pub patterns : List Route → List (Str × Str)
patterns rs = map (λ r. (r.method, r.pattern)) rs

module _ (lib : Library) where
  unfoldable pub run_route : Option Route → Handler
  run_route none user req site = (lib.unrouted req.method req.path, site)
  run_route (some r) user req site = r.handler user req site

  unfoldable pub chosen : List Route → Str → Str → Option Route
  unfolding nth_route
  chosen rs method path = elim (lib.route (patterns rs) method path) [
    | none ↦ none
    | some i ↦ nth_route i rs
  ]

  -- Handler
  unfoldable pub handler : ServerInterface → ChiServerOptions → Handler
  unfolding run_route chosen routes
  handler si options user req site =
      run_route (chosen (routes si options) req.method req.path) user req site
