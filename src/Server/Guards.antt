-- ===== src/Server/Guards.antt =====
-- Who is let through to the handlers: internal/middleware/auth.go behind the routes of
-- internal/api/handler/factory.go.
use Prim.{absurd}
use sufirmart.Base.{
  inl, inr, ◌⊎◌, ◌≡◌, ◌∙◌, ◌≢◌, refl, ap, Option, none, some, Str, bytes, str_eq, lookup,
}
use sufirmart.Store.Table.{All}
use sufirmart.Store.Statement.{Env, IsUp}
use sufirmart.Api.Reply.{http_error}
use sufirmart.Access.{auth_middleware}
use sufirmart.Access.Refusal.{NoSession, auth_middleware-refused, auth_middleware-db}
use sufirmart.Server.{Request, Site, Handler, Library, written}
use sufirmart.Server.Middleware.{let_pass, authorized}
use sufirmart.Server.Adapter.{
  Route, routes, run_route, chosen, handler, mart_api, wrapped, wrap_all, group, use_all,
  middlewares_for, or_internal_error,
}
use sufirmart.Server.Init.{Outside, init_api, serve}
use sufirmart.Server.Keeps.{all_routes, chosen-All}

-- A handler behind the middleware, or a route that is open to all.
Guarded : Library → Env → Route → Type 0
Guarded lib env r =
    (r.pattern ≡ bytes "/api/user/login")
    ⊎ ((r.pattern ≡ bytes "/api/user/register")
        ⊎ ((next : Handler) × (r.handler ≡ authorized lib env next)))

module _ (c : Outside) where
  routes-Guarded : All (Guarded c.lib c.env) (all_routes c)
  unfolding Guarded routes mart_api wrapped wrap_all group use_all middlewares_for or_internal_error
      lookup str_eq
  routes-Guarded = (
    inr (inr (_, refl)),
    (
      inr (inr (_, refl)),
      (
        inl refl,
        (inr (inr (_, refl)), (inr (inr (_, refl)), (inr (inl refl), (inr (inr (_, refl)), tt)))),
      ),
    ),
  )

  refused :
      (next : Handler) (user : Option Str) (req : Request) (site : Site)
      → IsUp c.env
      → NoSession c.env req.authorization site.world
      → authorized c.lib c.env next user req site ≡ (
        written c.lib (http_error 401) none,
        record site { world = (auth_middleware c.env req.authorization site.world).1 },
      )
  unfolding authorized let_pass
  refused next user req site up h =
      rw (auth_middleware-refused c.env req.authorization site.world up h, authorized) refl

  -- A request to any route but login and register, without a session behind its Authorization
  -- header, is answered with 401, and nothing else happens: no table, no queue and no log changes,
  -- so no handler has run. The conditions: the database does not fail, and the router chooses the
  -- route.
  pub serve_unauthorized :
      (req : Request) (site : Site) (r : Route)
      → IsUp c.env
      → NoSession c.env req.authorization site.world
      → chosen c.lib (all_routes c) req.method req.path ≡ some r
      → r.pattern ≢ bytes "/api/user/login"
      → r.pattern ≢ bytes "/api/user/register"
      → ((serve c req site).0 ≡ written c.lib (http_error 401) none)
        × ((serve c req site).1.world.db ≡ site.world.db)
        × ((serve c req site).1.pool ≡ site.pool)
        × ((serve c req site).1.log ≡ site.log)
  unfolding init_api handler run_route Guarded
  serve_unauthorized req site r up h e not_login not_register =
      let whole =
        ap (λ found. run_route c.lib found none req site) e
        ∙ behind (
            chosen-All (Guarded c.lib c.env) c.lib (all_routes c) req.method req.path r
              routes-Guarded e) in
      (
        ap (λ a. a.0) whole,
        ap (λ a. a.1.world.db) whole ∙ auth_middleware-db c.env req.authorization site.world,
        ap (λ a. a.1.pool) whole,
        ap (λ a. a.1.log) whole,
      )
    where
      behind :
          Guarded c.lib c.env r
          → r.handler none req site ≡ (
            written c.lib (http_error 401) none,
            record site { world = (auth_middleware c.env req.authorization site.world).1 },
          )
      behind (inl login) = absurd (not_login login)
      behind (inr (inl register)) = absurd (not_register register)
      behind (inr (inr (next, same))) =
          ap (λ f. f none req site) same ∙ refused next none req site up h
