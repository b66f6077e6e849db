-- ===== src/Server/Balance.antt =====
-- What a signed-in user is answered for GET /api/user/balance.
use sufirmart.Base.{
  ◌≡◌, refl, ap, ◌∙◌, ℕ, Bool, true, false, none, some, ◌∷◌, Str, bytes, str_eq, has_prefix, lookup,
  Result, ok, err, if◌then◌else◌,
}
use sufirmart.Domain.UserId.{new_user_id}
use sufirmart.Store.{AuthRow}
use sufirmart.Store.Table.{All}
use sufirmart.Store.Statement.{Env, World, IsUp}
use sufirmart.Account.Ledger.{IsLedger}
use sufirmart.Api.Reply.{Response}
use sufirmart.Api.{get_user_balance}
use sufirmart.Api.Balances.{balance_response, get_user_balance_up}
use sufirmart.Users.{live_row}
use sufirmart.Access.{auth_middleware}
use sufirmart.Access.Refusal.{bearer_token, auth_middleware-db, auth_middleware-admits}
use sufirmart.Server.{Request, Sent, Site, Handler, Library, written}
use sufirmart.Server.Middleware.{
  contains, compressed, encode, gzip_middleware, logging_middleware, let_pass, authorized,
}
use sufirmart.Server.Endpoints.{balance_endpoint, plain_end}
use sufirmart.Server.Adapter.{
  Route, routes, run_route, chosen, handler, mart_api, wrapped, wrap_all, group, use_all,
  middlewares_for, or_internal_error,
}
use sufirmart.Server.Init.{Outside, init_api, serve}
use sufirmart.Server.Keeps.{all_routes, chosen-All}

module _ (lib : Library) (env : Env) where
  -- The handler behind its middlewares.
  abbrev balance_handler : Handler
  balance_handler =
      authorized lib env (logging_middleware lib (gzip_middleware lib (balance_endpoint lib env)))

  -- The route with the path of the balance has that handler.
  abbrev BalanceRoute : Route → Type 0
  BalanceRoute r = r.pattern ≡ bytes "/api/user/balance" → r.handler ≡ balance_handler

routes-BalanceRoute : (c : Outside) → All (BalanceRoute c.lib c.env) (all_routes c)
unfolding routes mart_api wrapped wrap_all group use_all middlewares_for or_internal_error lookup
    str_eq
routes-BalanceRoute c =
    ((λ e. refl), ((λ e. cc), ((λ e. cc), ((λ e. cc), ((λ e. cc), ((λ e. cc), ((λ e. cc), tt)))))))

module _ (c : Outside) (up : IsUp c.env) (req : Request) (site : Site) (t : ℕ) (rest : Str)
    (session : AuthRow) (k : ℕ) (id : Str) (ledger : IsLedger site.world.db)
    (formed : has_prefix req.authorization (bytes "Bearer ") ≡ true)
    (shape : bearer_token req.authorization ≡ t ∷ rest)
    (live : live_row (t ∷ rest) (c.env.now site.world.calls) site.world.db ≡ some session)
    (valid : new_user_id session.user_id ≡ ok (k ∷ id))
    (clear : contains req.content_encoding (bytes "gzip") ≡ false) where
  abbrev passed : Site
  passed = record site { world = (auth_middleware c.env req.authorization site.world).1 }

  plain_end-ok :
      (r : Result Response × World) (reply : Response)
      → r.0 ≡ ok reply
      → plain_end c.lib passed r ≡ (written c.lib reply none, record passed { world = r.1 })
  unfolding plain_end
  plain_end-ok (ok reply', w) reply e = let same : reply' ≡ reply = cc in rw same refl
  plain_end-ok (err x, w) reply e = cc

  unchanged : passed.world.db ≡ site.world.db
  unchanged = auth_middleware-db c.env req.authorization site.world

  asked :
      ((get_user_balance c.env (some (k ∷ id)) passed.world).0
        ≡ ok (balance_response (k ∷ id) site.world.db))
      × ((get_user_balance c.env (some (k ∷ id)) passed.world).1.db ≡ site.world.db)
  asked =
      let (reply, same) = get_user_balance_up c.env passed.world k id up (rw unchanged ledger) in
      (reply ∙ ap (λ d. ok (balance_response (k ∷ id) d)) unchanged, same ∙ unchanged)

  answered : balance_endpoint c.lib c.env (some (k ∷ id)) req passed ≡ (
    written c.lib (balance_response (k ∷ id) site.world.db) none,
    record passed { world = (get_user_balance c.env (some (k ∷ id)) passed.world).1 },
  )
  unfolding balance_endpoint
  answered =
      plain_end-ok (get_user_balance c.env (some (k ∷ id)) passed.world)
        (balance_response (k ∷ id) site.world.db) asked.0

  -- The plain answer, and the one for a client that accepts gzip.
  abbrev pub plain_answer : Sent
  plain_answer = written c.lib (balance_response (k ∷ id) site.world.db) none

  abbrev pub balance_answer : Sent
  balance_answer =
      if contains req.accept_encoding (bytes "gzip")
      then compressed c.lib plain_answer
      else plain_answer

  zipped :
      gzip_middleware c.lib (balance_endpoint c.lib c.env) (some (k ∷ id)) req passed
      ≡ encode c.lib (contains req.accept_encoding (bytes "gzip")) (
        plain_answer,
        record passed { world = (get_user_balance c.env (some (k ∷ id)) passed.world).1 },
      )
  unfolding gzip_middleware
  zipped =
      rw (clear, gzip_middleware)
        (ap (encode c.lib (contains req.accept_encoding (bytes "gzip"))) answered)

  encoded_reply :
      (accepts : Bool) (a : Site)
      → ((encode c.lib accepts (plain_answer, a)).0
          ≡ (if accepts then compressed c.lib plain_answer else plain_answer))
        × ((encode c.lib accepts (plain_answer, a)).1 ≡ a)
  unfolding encode
  encoded_reply true a = (refl, refl)
  encoded_reply false a = (refl, refl)

  handled :
      ((balance_handler c.lib c.env none req site).0 ≡ balance_answer)
      × ((balance_handler c.lib c.env none req site).1.world.db ≡ site.world.db)
      × ((balance_handler c.lib c.env none req site).1.pool ≡ site.pool)
  unfolding authorized let_pass logging_middleware
  handled =
      let admitted =
        auth_middleware-admits c.env req.authorization site.world t rest session k id up formed
          shape live valid in
      let after = record passed {
        world = (get_user_balance c.env (some (k ∷ id)) passed.world).1;
      } in
      let (sent, stays) = encoded_reply (contains req.accept_encoding (bytes "gzip")) after in
      rw (admitted, authorized)
        (
          ap (λ a. a.0) zipped ∙ sent,
          ap (λ a. a.1.world.db) zipped ∙ ap (λ a. a.world.db) stays ∙ asked.1,
          ap (λ a. a.1.pool) zipped ∙ ap (λ a. a.pool) stays,
        )

  -- A signed-in user who asks for the balance is answered with 200, with the sum of the processed
  -- withdrawals as withdrawn, and as the current balance with the balance column plus that sum, less
  -- that sum: the subtraction is not carried out, since the code's rounds. The answer is encoded if
  -- the client accepts gzip. No table and no queue changes. The conditions: the database does not
  -- fail, the ledger holds, the router chooses the route of the balance, the header has a token that
  -- is in the table and not over, its user's id is a valid one, and the request names no gzip as its
  -- encoding.
  pub serve_balance :
      (r : Route)
      → chosen c.lib (all_routes c) req.method req.path ≡ some r
      → r.pattern ≡ bytes "/api/user/balance"
      → ((serve c req site).0 ≡ balance_answer)
        × ((serve c req site).1.world.db ≡ site.world.db)
        × ((serve c req site).1.pool ≡ site.pool)
  unfolding init_api handler run_route
  serve_balance r e path =
      let route =
        chosen-All (BalanceRoute c.lib c.env) c.lib (all_routes c) req.method req.path r
          (routes-BalanceRoute c) e path in
      let whole : serve c req site ≡ balance_handler c.lib c.env none req site =
        ap (λ found. run_route c.lib found none req site) e ∙ ap (λ f. f none req site) route in
      (
        ap (λ a. a.0) whole ∙ handled.0,
        ap (λ a. a.1.world.db) whole ∙ handled.1,
        ap (λ a. a.1.pool) whole ∙ handled.2,
      )
