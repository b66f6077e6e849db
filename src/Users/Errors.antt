-- ===== src/Users/Errors.antt =====
-- internal/auth/errors.go: the errors of signing in.
use sufirmart.Base.{
  Option, none, some, ◌++◌, Str, bytes, Error, token_missing, user_not_found, invalid_credentials,
  unauthorized,
}

-- `previous` is the text of the error that is wrapped.
pub record AuthError : Type 0 where
  pub msg : Str
  pub previous : Option Str

-- The method Error.
unfoldable pub auth_error_text : AuthError → Str
auth_error_text e = elim e.previous [
  | some previous ↦ bytes "[AUTH] " ++ (e.msg ++ (bytes " (previous: " ++ (previous ++ bytes ")")))
  | none ↦ bytes "[AUTH] " ++ e.msg
]

-- The method Unwrap, as a text.
abbrev pub unwrapped : AuthError → Option Str
unwrapped e = e.previous

abbrev pub err_unauthorized : AuthError
err_unauthorized = record { msg = bytes "unauthorized"; previous = none }

abbrev pub err_token_missing : AuthError
err_token_missing = record { msg = bytes "token is missing"; previous = none }

abbrev pub err_user_not_found : AuthError
err_user_not_found = record { msg = bytes "user not found"; previous = none }

abbrev pub err_invalid_credentials : AuthError
err_invalid_credentials = record { msg = bytes "invalid credentials"; previous = none }

-- errors.As(err, &ae) for an AuthError; ErrTokenExpired and ErrTokenInvalid are returned nowhere.
abbrev pub as_auth_error : Error → Option AuthError
as_auth_error token_missing = some err_token_missing
as_auth_error user_not_found = some err_user_not_found
as_auth_error invalid_credentials = some err_invalid_credentials
as_auth_error unauthorized = some err_unauthorized
as_auth_error _ = none
