-- ===== src/Access/Registration.antt =====
-- What internal/api/handler/post_user_register.go answers and leaves in the tables.
use sufirmart.Base.{pos, ◌+◌, ◌≡◌, refl, suc, true, false, none, some, [], ◌∷◌, ◌++◌, Str, ok}
use sufirmart.Domain.UserId.{new_user_id}
use sufirmart.Store.{UserRow}
use sufirmart.Store.Table.{find}
use sufirmart.Store.Statement.{Env, World, IsUp}
use sufirmart.Account.Rows.{find_account}
use sufirmart.Users.Hash.{generate_token, password_hash, password_verify}
use sufirmart.Users.{Secrets, no_text, find_login}
use sufirmart.Users.Registration.{
  find_login-snoc, find_id-snoc, register_user_taken, user_row, registered, register_user_up,
}
use sufirmart.Users.Tokens.{authenticate_up}
use sufirmart.Api.Reply.{respond, http_error, empty_body}
use sufirmart.Access.{
  UserCredentials, bearer, post_register, sign_up_with, first_sign_in, first_login_reply,
}

module _ (env : Env) (up : IsUp env) (secrets : Secrets) (creds : UserCredentials) (w : World)
    (named : no_text creds.login ≡ false) (given : no_text creds.password ≡ false) where
  -- A registration with a login that is taken is answered with 409, and nothing is written. The
  -- conditions: the database does not fail, and neither the login nor the password is empty.
  pub register_taken :
      (u : UserRow)
      → find_login creds.login w.users ≡ some u
      → post_register env secrets (some creds) w
        ≡ (ok (http_error 409, none), record w { calls = suc w.calls })
  unfolding post_register sign_up_with first_sign_in
  register_taken u taken =
      rw
        (
          named,
          given,
          sign_up_with,
          register_user_taken env up secrets creds.login creds.password w named given u taken,
        )
        refl

  module _ (id hashed token : Str) (free : find_login creds.login w.users ≡ none)
      (drawn : secrets.uuid_v7 (suc w.calls) ≡ ok id) (valid : new_user_id id ≡ ok id)
      (hashing : password_hash secrets (suc (suc w.calls)) creds.password ≡ ok hashed)
      (fresh : find (λ (u : UserRow). u.id) id w.users ≡ none)
      (unopened : find_account id w.accounts ≡ none)
      (verified : password_verify secrets creds.password hashed ≡ true)
      (issued : generate_token secrets 32 (suc (suc (suc (suc (suc (suc w.calls))))))
        ≡ ok token) where
    abbrev row : UserRow
    row =
        user_row env up secrets creds.login creds.password w named given id hashed free drawn valid
          hashing fresh unopened

    abbrev joined : World
    joined =
        registered env up secrets creds.login creds.password w named given id hashed free drawn
          valid hashing fresh unopened

    -- A registration with a new login is answered with 200 and a header with a token. It has added
    -- the user with the hash of the password, an account with nothing on it, and the token, which
    -- is good for 24 hours. The conditions: the database does not fail; login and password are not
    -- empty; the identifier drawn is a valid one that no user and no account has; hash and token are
    -- made, and the password verifies against its hash.
    pub register_outcome : post_register env secrets (some creds) w ≡ (
      ok (respond 200 empty_body, some (bearer token)),
      record w {
        db = record w.db {
          users = w.users ++ record { id = id; login = creds.login; password = hashed } ∷ [];
          accounts = w.accounts ++ record { user_id = id; current_balance = pos 0 } ∷ [];
          auths =
              w.auths
              ++ record {
                user_id = id;
                token = token;
                expired_at = env.now (suc (suc (suc (suc (suc (suc (suc w.calls))))))) + 86400;
              }
                ∷ [];
        };
        calls = suc (suc (suc (suc (suc (suc (suc (suc w.calls)))))));
      },
    )
    unfolding post_register sign_up_with first_sign_in first_login_reply
    register_outcome =
        rw
          (
            named,
            given,
            sign_up_with,
            register_user_up env up secrets creds.login creds.password w named given id hashed free
                drawn valid hashing fresh unopened,
            first_sign_in,
            authenticate_up env up secrets creds.login creds.password token joined row named given
                (find_login-snoc row w.users free) verified issued (find_id-snoc row w.users fresh),
          )
          refl
