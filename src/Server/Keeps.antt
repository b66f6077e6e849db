-- ===== src/Server/Keeps.antt =====
-- What each handler keeps of the state, internal/api/handler/factory.go keeps as a whole.
use sufirmart.Base.{
  inl, inr, ◌⊎◌, ◌≡◌, refl, ℕ, zero, suc, Bool, true, false, Bool-cases, Option, Option-cases, none,
  some, List, [], ◌∷◌, Str, bytes, str_eq, lookup, Result, ok, err,
}
use sufirmart.Store.Table.{All}
use sufirmart.Api.Reply.{Response}
use sufirmart.Access.{auth_middleware}
use sufirmart.Server.{Stream, Request, Sent, LogEntry, Site, Handler, Library}
use sufirmart.Server.Middleware.{
  contains, encode, decode_with, gzip_middleware, logging_middleware, let_pass, authorized,
}
use sufirmart.Server.Endpoints.{
  balance_endpoint, withdraw_endpoint, list_orders_endpoint, upload_endpoint, withdrawals_endpoint,
  login_endpoint, register_endpoint,
}
use sufirmart.Server.Adapter.{
  Route, routes, nth_route, run_route, chosen, handler, mart_api, patterns, wrapped, wrap_all,
  group, use_all, middlewares_for, or_internal_error,
}
use sufirmart.Server.Init.{Outside, api_handlers, options, init_api, serve}

-- A handler after which `I` holds, if it held before.
abbrev pub Keeps : (Site → Type 0) → Handler → Type 0
Keeps I h = (user : Option Str) (req : Request) (site : Site) → I site → I (h user req site).1

-- What has to be shown of a condition on the state: it does not speak of the log, and the
-- authorization middleware and each of the handlers keep it.
pub record IsKept (c : Outside) (I : Site → Type 0) : Type 0 where
  pub any_log : (site : Site) (log : List LogEntry) → I site → I (record site { log = log })
  pub checked :
      (authorization : Str) (site : Site)
      → I site
      → I (record site { world = (auth_middleware c.env authorization site.world).1 })
  pub balance : Keeps I (balance_endpoint c.lib c.env)
  pub withdraw : Keeps I (withdraw_endpoint c.lib c.env)
  pub login : Keeps I (login_endpoint c.lib c.env c.secrets)
  pub list_orders : Keeps I (list_orders_endpoint c.lib c.env)
  pub upload : Keeps I (upload_endpoint c.lib c.env)
  pub register : Keeps I (register_endpoint c.lib c.env c.secrets)
  pub withdrawals : Keeps I (withdrawals_endpoint c.lib c.env)

nth_route-All :
    (P : Route → Type 0) (n : ℕ) (rs : List Route) (r : Route)
    → All P rs
    → nth_route n rs ≡ some r
    → P r
unfolding nth_route
nth_route-All P n [] r h e = cc
nth_route-All P zero (s ∷ rs) r h e = let same : s ≡ r = cc in rw same at h.0
nth_route-All P (suc n) (s ∷ rs) r h e = nth_route-All P n rs r h.1 e

pub chosen-All :
    (P : Route → Type 0) (lib : Library) (rs : List Route) (method path : Str) (r : Route)
    → All P rs
    → chosen lib rs method path ≡ some r
    → P r
unfolding chosen
chosen-All P lib rs method path r h e = elim (Option-cases (lib.route (patterns rs) method path)) [
  | inl unknown ↦ let gone : none ≡ some r = rw (unknown, chosen) at e in cc
  | inr (n, known) ↦ nth_route-All P n rs r h (rw (known, chosen) at e)
]

abbrev pub all_routes : Outside → List Route
all_routes c = routes (mart_api (record { api_handlers = api_handlers c })) (options c)

module _ (c : Outside) (I : Site → Type 0) (kept : IsKept c I) where
  encode-Keeps : (accepts : Bool) (r : Sent × Site) → I r.1 → I (encode c.lib accepts r).1
  unfolding encode
  encode-Keeps false r h = h
  encode-Keeps true r h = h

  decode_with-Keeps :
      (accepts : Bool) (next : Handler) (body : Option Stream) (user : Option Str) (req : Request)
      (site : Site)
      → Keeps I next
      → I site
      → I (decode_with c.lib accepts next user req site body).1
  unfolding decode_with
  decode_with-Keeps accepts next none user req site k h = h
  decode_with-Keeps accepts next (some body) user req site k h =
      encode-Keeps accepts _ (k user (record req { body = body }) site h)

  gzip-Keeps : (next : Handler) → Keeps I next → Keeps I (gzip_middleware c.lib next)
  unfolding gzip_middleware
  gzip-Keeps next k user req site h =
      elim (Bool-cases (contains req.content_encoding (bytes "gzip"))) [
        | inl sends ↦
            rw (sends, gzip_middleware)
              (decode_with-Keeps (contains req.accept_encoding (bytes "gzip")) next
                (c.lib.gzip_reader req.body) user req site k h)
        | inr plain ↦
            rw (plain, gzip_middleware)
              (encode-Keeps (contains req.accept_encoding (bytes "gzip")) _ (k user req site h))
      ]

  common-Keeps :
      (next : Handler)
      → Keeps I next
      → Keeps I (logging_middleware c.lib (gzip_middleware c.lib next))
  unfolding logging_middleware
  common-Keeps next k user req site h = kept.any_log _ _ (gzip-Keeps next k user req site h)

  let_pass-Keeps :
      (next : Handler) (req : Request) (site : Site) (r : Result (Response ⊎ Str))
      → Keeps I next
      → I site
      → I (let_pass c.lib next req site r).1
  unfolding let_pass
  let_pass-Keeps next req site (ok (inl reply)) k h = h
  let_pass-Keeps next req site (ok (inr uid)) k h = k (some uid) req site h
  let_pass-Keeps next req site (err e) k h = h

  authorized-Keeps : (next : Handler) → Keeps I next → Keeps I (authorized c.lib c.env next)
  unfolding authorized
  authorized-Keeps next k user req site h =
      let (r, w) = auth_middleware c.env req.authorization site.world in
      let_pass-Keeps next req (record site { world = w }) r k
        (kept.checked req.authorization site h)

  guarded-Keeps :
      (next : Handler)
      → Keeps I next
      → Keeps I (authorized c.lib c.env (logging_middleware c.lib (gzip_middleware c.lib next)))
  guarded-Keeps next k = authorized-Keeps _ (common-Keeps next k)

  handler-Keeps :
      (found : Option Route)
      → ((r : Route) → found ≡ some r → Keeps I r.handler)
      → Keeps I (run_route c.lib found)
  unfolding run_route
  handler-Keeps none k user req site h = h
  handler-Keeps (some r) k user req site h = k r refl user req site h

  routes-Keep : All (λ r. Keeps I r.handler) (all_routes c)
  unfolding routes mart_api wrapped wrap_all group use_all middlewares_for or_internal_error lookup
      str_eq
  routes-Keep = (
    guarded-Keeps _ kept.balance,
    (
      guarded-Keeps _ kept.withdraw,
      (
        common-Keeps _ kept.login,
        (
          guarded-Keeps _ kept.list_orders,
          (
            guarded-Keeps _ kept.upload,
            (common-Keeps _ kept.register, (guarded-Keeps _ kept.withdrawals, tt)),
          ),
        ),
      ),
    ),
  )

  -- Serving a request keeps what the handlers keep.
  pub serve-Keeps : (req : Request) (site : Site) → I site → I (serve c req site).1
  unfolding init_api handler
  serve-Keeps req site h =
      handler-Keeps (chosen c.lib (all_routes c) req.method req.path)
        (λ r.
          chosen-All (λ s. Keeps I s.handler) c.lib (all_routes c) req.method req.path r
            routes-Keep)
        none req site h
