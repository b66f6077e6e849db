-- ===== src/Access.antt =====
-- internal/middleware/auth.go and the handlers that sign users in: post_user_login.go and
-- post_user_register.go of internal/api/handler.
pub mod Header
pub mod Session
pub mod Refusal
pub mod Registration
pub mod Keeps
use sufirmart.Base.{
  inl, inr, ◌⊎◌, Bool, true, false, ◌||◌, Option, none, some, [], ◌∷◌, ◌++◌, Str, bytes, has_prefix,
  Result, ok, err, Error, token_missing, user_not_found, invalid_credentials, unauthorized,
  login_already_exists, Exec, pure, attempt, continue, ◌>>=◌, ◌>>◌, if◌then◌else◌,
}
use sufirmart.Store.Statement.{Env, World}
use sufirmart.Users.Errors.{AuthError, as_auth_error}
use sufirmart.Users.{Secrets, no_text, authenticate, register_user, get_user_id}
use sufirmart.Api.Space.{trim_space}
use sufirmart.Api.Reply.{Response, respond, http_error, empty_body}

pub record UserCredentials : Type 0 where
  pub login : Str
  pub password : Str

-- A response, and the Authorization header that is set on it.
abbrev pub Signed : Type 0
Signed = Response × Option Str

abbrev pub bearer : Str → Str
bearer token = bytes "Bearer " ++ token

-- strings.TrimPrefix
unfoldable pub trim_prefix : Str → Str → Str
trim_prefix [] s = s
trim_prefix (p ∷ ps) [] = []
trim_prefix (p ∷ ps) (c ∷ s) = trim_prefix ps s

found_one : Option AuthError → Bool
found_one none = false
found_one (some e) = true

-- errors.As(err, &ae) for an AuthError
unfoldable pub is_auth_error : Error → Bool
unfolding found_one
is_auth_error e = found_one (as_auth_error e)

-- What the middleware makes of GetUserID's answer: a response, or the user for the next handler.
unfoldable pub admit : Result Str → Response ⊎ Str
unfolding is_auth_error
admit (ok []) = inl (http_error 401)
admit (ok (c ∷ user)) = inr (c ∷ user)
admit (err e) = inl (if is_auth_error e then http_error 401 else http_error 500)

unfoldable pub login_reply : Result Str → Signed
login_reply (ok token) = (respond 200 empty_body, some (bearer token))
login_reply (err invalid_credentials) = (http_error 401, none)
login_reply (err e) = (http_error 500, none)

unfoldable pub first_login_reply : Result Str → Signed
first_login_reply (ok token) = (respond 200 empty_body, some (bearer token))
first_login_reply (err e) = (http_error 500, none)

module _ (env : Env) where
  admit_token : Str → Exec World (Response ⊎ Str)
  unfolding admit
  admit_token token = do user ← attempt (get_user_id env token); pure (admit user)

  -- NewAuthMiddleware, on the Authorization header.
  unfoldable pub auth_middleware : Str → Exec World (Response ⊎ Str)
  unfolding admit_token trim_prefix
  auth_middleware authorization =
      if has_prefix authorization (bytes "Bearer ")
      then admit_token (trim_space (trim_prefix (bytes "Bearer ") authorization))
      else pure (inl (http_error 401))

  sign_in_with : Secrets → UserCredentials → Exec World Signed
  unfolding login_reply
  sign_in_with secrets creds = do
    token ← attempt (authenticate env secrets creds.login creds.password)
    pure (login_reply token)

  -- NewPostApiUserLoginHandler; `none` is a body that is not decoded.
  unfoldable pub post_login : Secrets → Option UserCredentials → Exec World Signed
  unfolding sign_in_with
  post_login secrets none = pure (http_error 400, none)
  post_login secrets (some creds) =
      if no_text creds.login || no_text creds.password
      then pure (http_error 400, none)
      else sign_in_with secrets creds

  first_sign_in : Secrets → UserCredentials → Result (Unit {0}) → Exec World Signed
  unfolding first_login_reply
  first_sign_in secrets creds (err login_already_exists) = pure (http_error 409, none)
  first_sign_in secrets creds (err e) = pure (http_error 500, none)
  first_sign_in secrets creds (ok _) = do
    token ← attempt (authenticate env secrets creds.login creds.password)
    pure (first_login_reply token)

  sign_up_with : Secrets → UserCredentials → Exec World Signed
  unfolding first_sign_in
  sign_up_with secrets creds = do
    registered ← attempt (register_user env secrets creds.login creds.password)
    first_sign_in secrets creds registered

  -- NewPostApiUserRegisterHandler
  unfoldable pub post_register : Secrets → Option UserCredentials → Exec World Signed
  unfolding sign_up_with
  post_register secrets none = pure (http_error 400, none)
  post_register secrets (some creds) =
      if no_text creds.login || no_text creds.password
      then pure (http_error 400, none)
      else sign_up_with secrets creds
