-- ===== src/Access/Session.antt =====
-- A session: what the login handler sets as the Authorization header, the middleware takes.
use sufirmart.Base.{
  inl, inr, ap, ◌∙◌, ◌≡◌, refl, ℕ, suc, ◌+◌, Bool, true, false, some, ◌∷◌, List, ◌++◌, Str,
  has_prefix, ok, err, user_not_found, ltb, if◌then◌else◌,
}
use sufirmart.Domain.UserId.{new_user_id}
use sufirmart.Store.{UserRow, AuthRow}
use sufirmart.Store.Table.{find}
use sufirmart.Store.Statement.{Env, World, IsUp}
use sufirmart.Users.Hash.{generate_token, password_verify, encode_to_string}
use sufirmart.Users.{Secrets, no_text, find_login, authenticate, get_user_id}
use sufirmart.Users.Tokens.{IsUnseen, token_lifetime}
use sufirmart.Access.Header.{
  AllBytes, AllOthers, AllOthers-IsUnseen, encode_to_string-AllVisible, trim_space-AllVisible,
}
use sufirmart.Api.Space.{trim_space}
use sufirmart.Api.Reply.{respond, http_error, empty_body}
use sufirmart.Access.{
  UserCredentials, bearer, trim_prefix, admit, is_auth_error, admit_token, auth_middleware,
  post_login, sign_in_with, login_reply,
}

module _ (env : Env) (up : IsUp env) (secrets : Secrets) (creds : UserCredentials) (c : ℕ) (t : Str)
    (k : ℕ) (id : Str) (w : World) (u : UserRow) (named : no_text creds.login ≡ false)
    (given : no_text creds.password ≡ false) (found : find_login creds.login w.users ≡ some u)
    (verified : password_verify secrets creds.password u.password ≡ true)
    (drawn : generate_token secrets 32 (suc w.calls) ≡ ok (c ∷ t))
    (known : find (λ (v : UserRow). v.id) u.id w.users ≡ some u) (unseen : IsUnseen (c ∷ t) w.auths)
    (valid : new_user_id u.id ≡ ok u.id) (shape : u.id ≡ k ∷ id)
    (trimmed : trim_space (c ∷ t) ≡ c ∷ t) where
  -- The time at which the token ends.
  abbrev pub end_of_session : ℕ
  end_of_session = env.now (suc (suc w.calls)) + 86400

  replied : post_login env secrets (some creds) w ≡ (
    ok (login_reply (authenticate env secrets creds.login creds.password w).0),
    (authenticate env secrets creds.login creds.password w).1,
  )
  unfolding post_login
  replied = rw (named, given, sign_in_with) refl

  admitted :
      (v : World)
      → (auth_middleware env (bearer (c ∷ t)) v).0 ≡ ok (admit (get_user_id env (c ∷ t) v).0)
  unfolding auth_middleware has_prefix trim_prefix
  admitted v = rw (auth_middleware, trimmed, admit_token) refl

  session_of_token :
      (v : World) (more : List AuthRow)
      → IsUnseen (c ∷ t) more
      → v.auths ≡ (post_login env secrets (some creds) w).1.auths ++ more
      → ((post_login env secrets (some creds) w).0
          ≡ ok (respond 200 empty_body, some (bearer (c ∷ t))))
        × ((auth_middleware env (bearer (c ∷ t)) v).0
            ≡ ok (if ltb (env.now v.calls) end_of_session then inr u.id else inl (http_error 401)))
  unfolding login_reply admit is_auth_error
  session_of_token v more later same =
      let (issued, looked_up) =
        token_lifetime env up secrets creds.login creds.password (c ∷ t) w u named given found
          verified drawn known c t v more refl unseen later valid
          (same ∙ ap (λ r. r.1.auths ++ more) replied) in
      (
        ap (λ r. r.0) replied ∙ ap (λ r. ok (login_reply r)) issued,
        admitted v
            ∙ ap (λ r. ok (admit r)) looked_up
            ∙ by_age (ltb (env.now v.calls) end_of_session),
      )
    where
      passes : admit (ok u.id) ≡ inr u.id
      passes = rw shape refl

      by_age :
          (b : Bool)
          → ok (admit (if b then ok u.id else err user_not_found))
            ≡ ok (if b then inr u.id else inl (http_error 401))
      by_age true = ap ok passes
      by_age false = refl

module _ (env : Env) (up : IsUp env) (secrets : Secrets) (creds : UserCredentials) (b : ℕ)
    (bs : Str) (k : ℕ) (id : Str) (w : World) (u : UserRow) (named : no_text creds.login ≡ false)
    (given : no_text creds.password ≡ false) (found : find_login creds.login w.users ≡ some u)
    (verified : password_verify secrets creds.password u.password ≡ true)
    (drawn : secrets.read (suc w.calls) 32 ≡ ok (b ∷ bs)) (sized : AllBytes (b ∷ bs))
    (known : find (λ (v : UserRow). v.id) u.id w.users ≡ some u)
    (unseen : AllOthers (b ∷ bs) w.auths) (valid : new_user_id u.id ≡ ok u.id)
    (shape : u.id ≡ k ∷ id) where
  generated : generate_token secrets 32 (suc w.calls) ≡ ok (encode_to_string (b ∷ bs))
  unfolding generate_token
  generated = rw drawn refl

  -- A user who logs in with the right password is answered with 200 and a header. With that header
  -- the middleware lets every request pass as that user for 24 hours, and answers with 401 when they
  -- are over, whatever other tokens are added to the table. The conditions: the database does not
  -- fail, the other tokens are made of other bytes than those drawn for this one, at least one byte
  -- is drawn, and the user's id is a valid one.
  pub login_session :
      (v : World) (more : List AuthRow)
      → AllOthers (b ∷ bs) more
      → v.auths ≡ (post_login env secrets (some creds) w).1.auths ++ more
      → ((post_login env secrets (some creds) w).0
          ≡ ok (respond 200 empty_body, some (bearer (encode_to_string (b ∷ bs)))))
        × ((auth_middleware env (bearer (encode_to_string (b ∷ bs))) v).0
            ≡ ok (
                if ltb (env.now v.calls) (env.now (suc (suc w.calls)) + 86400)
                then inr u.id
                else inl (http_error 401)))
  unfolding encode_to_string
  login_session v more later same =
      session_of_token env up secrets creds _ _ k id w u named given found verified generated known
        (AllOthers-IsUnseen (b ∷ bs) w.auths sized unseen) valid shape
        (trim_space-AllVisible _ (encode_to_string-AllVisible (b ∷ bs) sized)) v more
        (AllOthers-IsUnseen (b ∷ bs) more sized later) same
