-- ===== src/Access/Keeps.antt =====
-- The handlers that sign users in keep what is open to new users, the middleware changes nothing, and
-- each of them ends with a response.
use sufirmart.Base.{
  ◌≡◌, arith, Bool, true, false, ◌||◌, Option, none, some, Str, bytes, has_prefix, Result, ok, err,
  Error,
}
use sufirmart.Store.{Db}
use sufirmart.Store.Statement.{Env, World}
use sufirmart.Store.Triple.{Triple, Post, Triple-bind, Triple-attempt, Triple-pure, Triple-if}
use sufirmart.Users.{Secrets, no_text}
use sufirmart.Users.Keeps.{IsOpenTo, authenticate-Keeps, register_user-Keeps, get_user_id-Keeps}
use sufirmart.Api.Keeps.{Answers, Answers-attempt, Answers-pure}
use sufirmart.Access.{
  UserCredentials, admit, admit_token, auth_middleware, post_login, sign_in_with, login_reply,
  post_register, sign_up_with, first_sign_in, first_login_reply,
}

abbrev is_ok : {A : Type 0} → Result A → Bool
is_ok (ok a) = true
is_ok (err e) = false

Post-of_ok :
    {A : Type 0} (P : Db → Type 0) (r : Result A) (d : Db)
    → P d
    → is_ok r ≡ true
    → Post (λ _. P) (λ _. ⊥) r d
Post-of_ok P (ok a) d p e = p
Post-of_ok P (err x) d p e = cc

module _ (env : Env) where
  pub auth_middleware-Keeps :
      (P : Db → Type 0) (authorization : Str)
      → Triple P (auth_middleware env authorization) (λ _. P) (λ _. ⊥)
  unfolding auth_middleware admit_token
  auth_middleware-Keeps P authorization =
      Triple-if (has_prefix authorization (bytes "Bearer "))
        (Triple-bind (λ _. P) _ _ (Triple-attempt (get_user_id-Keeps env P _))
          λ user. Triple-pure (admit user) (λ d p. p))
        (Triple-pure _ (λ d p. p))

  module _ (secrets : Secrets) (P : Db → Type 0) (stays : IsOpenTo P) where
    sign_in_with-Answers : (creds : UserCredentials) → Answers P (sign_in_with env secrets creds)
    unfolding sign_in_with
    sign_in_with-Answers creds =
        Answers-attempt P _ _ (authenticate-Keeps P stays env secrets creds.login creds.password)
          λ token. Answers-pure P (login_reply token)

    pub post_login-Answers :
        (decoded : Option UserCredentials) → Answers P (post_login env secrets decoded)
    unfolding post_login
    post_login-Answers none = Answers-pure P _
    post_login-Answers (some creds) =
        Triple-if (no_text creds.login || no_text creds.password) (Answers-pure P _)
          (sign_in_with-Answers creds)

    failed-world :
        (creds : UserCredentials) (e : Error) (w : World)
        → (first_sign_in env secrets creds (err e) w).1 ≡ w
    unfolding first_sign_in
    failed-world creds e w = ground arith

    failed-is_ok :
        (creds : UserCredentials) (e : Error) (w : World)
        → is_ok (first_sign_in env secrets creds (err e) w).0 ≡ true
    unfolding first_sign_in
    failed-is_ok creds e w = ground arith

    first_sign_in-Answers :
        (creds : UserCredentials) (registered : Result (Unit {0}))
        → Answers P (first_sign_in env secrets creds registered)
    unfolding first_sign_in
    first_sign_in-Answers creds (ok _) =
        Answers-attempt P _ _ (authenticate-Keeps P stays env secrets creds.login creds.password)
          λ token. Answers-pure P (first_login_reply token)
    first_sign_in-Answers creds (err e) = record {
      at = λ w p. rw (failed-world creds e w) (
          Post-of_ok P (first_sign_in env secrets creds (err e) w).0 w.db p
            (failed-is_ok creds e w));
    }

    pub post_register-Answers :
        (decoded : Option UserCredentials) → Answers P (post_register env secrets decoded)
    unfolding post_register sign_up_with
    post_register-Answers none = Answers-pure P _
    post_register-Answers (some creds) =
        Triple-if (no_text creds.login || no_text creds.password) (Answers-pure P _) (
          Answers-attempt P _ _ (register_user-Keeps P stays env secrets creds.login creds.password)
            (first_sign_in-Answers creds))
