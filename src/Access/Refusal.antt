-- ===== src/Access/Refusal.antt =====
-- When internal/middleware/auth.go refuses a request with 401.
use Prim.{absurd}
use sufirmart.Base.{
  ℕ, some, inl, inr, ◌⊎◌, ◌≡◌, refl, ap, ◌∙◌, true, Bool-cases, none, [], ◌∷◌, Str, bytes,
  has_prefix, Result, ok, err,
}
use sufirmart.Domain.UserId.{new_user_id}
use sufirmart.Store.{Db, AuthRow}
use sufirmart.Store.Statement.{Env, World, IsUp}
use sufirmart.Store.Triple.{Post}
use sufirmart.Api.Reply.{Response, http_error}
use sufirmart.Api.Space.{trim_space}
use sufirmart.Users.{live_row, get_user_id}
use sufirmart.Users.Tokens.{get_live, get_dead}
use sufirmart.Access.{admit, admit_token, auth_middleware, trim_prefix, is_auth_error}
use sufirmart.Access.Keeps.{auth_middleware-Keeps}

-- The token that the middleware reads from the header.
abbrev pub bearer_token : Str → Str
bearer_token authorization = trim_space (trim_prefix (bytes "Bearer ") authorization)

-- A header with no session behind it: it has not the form, or its token is not in the table, or only
-- with an end that is over.
abbrev pub NoSession : Env → Str → World → Type 0
NoSession env authorization w =
    has_prefix authorization (bytes "Bearer ") ≡ true
    → live_row (bearer_token authorization) (env.now w.calls) w.db ≡ none

module _ (env : Env) where
  admit_token-refused :
      (token : Str) (w : World)
      → IsUp env
      → live_row token (env.now w.calls) w.db ≡ none
      → (admit_token env token w).0 ≡ ok (inl (http_error 401))
  unfolding admit_token get_user_id admit is_auth_error
  admit_token-refused [] w up e = refl
  admit_token-refused (c ∷ t) w up e = ap (λ r. ok (admit r)) (get_dead env up c t w e)

  pub auth_middleware-refused :
      (authorization : Str) (w : World)
      → IsUp env
      → NoSession env authorization w
      → (auth_middleware env authorization w).0 ≡ ok (inl (http_error 401))
  unfolding auth_middleware
  auth_middleware-refused authorization w up h =
      elim (Bool-cases (has_prefix authorization (bytes "Bearer "))) [
        | inl formed ↦
            rw (formed, auth_middleware)
              (admit_token-refused (bearer_token authorization) w up (h formed))
        | inr other ↦ rw (other, auth_middleware) refl
      ]

  -- With a token in the table that is not over, the request passes as the token's user.
  pub auth_middleware-admits :
      (authorization : Str) (w : World) (c : ℕ) (t : Str) (r : AuthRow) (k : ℕ) (id : Str)
      → IsUp env
      → has_prefix authorization (bytes "Bearer ") ≡ true
      → bearer_token authorization ≡ c ∷ t
      → live_row (c ∷ t) (env.now w.calls) w.db ≡ some r
      → new_user_id r.user_id ≡ ok (k ∷ id)
      → (auth_middleware env authorization w).0 ≡ ok (inr (k ∷ id))
  unfolding auth_middleware admit_token admit
  auth_middleware-admits authorization w c t r k id up formed token live valid =
      rw (formed, auth_middleware, token, admit_token)
        (ap (λ u. ok (admit u)) (get_live env up c t w r live ∙ valid))

  -- The middleware changes no table.
  pub auth_middleware-db :
      (authorization : Str) (w : World) → (auth_middleware env authorization w).1.db ≡ w.db
  auth_middleware-db authorization w =
      of_post (auth_middleware env authorization w).0 (auth_middleware env authorization w).1.db
        ((auth_middleware-Keeps env (λ d. d ≡ w.db) authorization).at w refl)
    where
      of_post :
          (r : Result (Response ⊎ Str)) (d : Db) → Post (λ _ e. e ≡ w.db) (λ _. ⊥) r d → d ≡ w.db
      of_post (ok _) d h = h
      of_post (err _) d h = absurd h
