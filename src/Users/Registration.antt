-- ===== src/Users/Registration.antt =====
-- What RegisterUser of internal/user/registration.go answers and leaves in the tables.
use sufirmart.Base.{
  ◌≡◌, refl, suc, false, none, some, List, [], ◌∷◌, ◌++◌, Str, str_eq_refl, ok, err,
  login_already_exists, pos,
}
use sufirmart.Domain.UserId.{new_user_id}
use sufirmart.Store.{UserRow}
use sufirmart.Store.Table.{find, find-snoc}
use sufirmart.Store.Statement.{Env, World, IsUp, statement_up}
use sufirmart.Account.Rows.{find_account, insert_account}
use sufirmart.Users.Hash.{password_hash}
use sufirmart.Users.{
  Secrets, draw, no_text, find_login, insert_user, register_user, add_user, assert_user_exists,
  login_free, registered_or_taken,
}

pub find_login-snoc :
    (r : UserRow) (users : List UserRow)
    → find_login r.login users ≡ none
    → find_login r.login (users ++ r ∷ []) ≡ some r
find_login-snoc r users e =
    rw (find-snoc (λ (u : UserRow). u.login) r.login users r, e, str_eq_refl r.login) refl

pub find_id-snoc :
    (r : UserRow) (users : List UserRow)
    → find (λ (u : UserRow). u.id) r.id users ≡ none
    → find (λ (u : UserRow). u.id) r.id (users ++ r ∷ []) ≡ some r
find_id-snoc r users e =
    rw (find-snoc (λ (u : UserRow). u.id) r.id users r, e, str_eq_refl r.id) refl

module _ (env : Env) (up : IsUp env) (secrets : Secrets) (login password : Str) (w : World)
    (named : no_text login ≡ false) (given : no_text password ≡ false) where
  pub register_user_taken :
      (u : UserRow)
      → find_login login w.users ≡ some u
      → register_user env secrets login password w
        ≡ (err login_already_exists, record w { calls = suc w.calls })
  unfolding register_user add_user assert_user_exists login_free
  register_user_taken u taken =
      rw (register_user, named, given, add_user, assert_user_exists, statement_up env up, taken)
        refl

  module _ (id hashed : Str) (free : find_login login w.users ≡ none)
      (drawn : secrets.uuid_v7 (suc w.calls) ≡ ok id) (valid : new_user_id id ≡ ok id)
      (hashing : password_hash secrets (suc (suc w.calls)) password ≡ ok hashed)
      (fresh : find (λ (u : UserRow). u.id) id w.users ≡ none)
      (unopened : find_account id w.accounts ≡ none) where
    abbrev pub user_row : UserRow
    user_row = record { id = id; login = login; password = hashed }

    -- The world after RegisterUser.
    abbrev pub registered : World
    registered = record w {
      db = record w.db {
        users = w.users ++ user_row ∷ [];
        accounts = w.accounts ++ record { user_id = id; current_balance = pos 0 } ∷ [];
      };
      calls = suc (suc (suc (suc (suc w.calls))));
    }

    pub register_user_up : register_user env secrets login password w ≡ (ok tt, registered)
    unfolding register_user add_user assert_user_exists login_free draw insert_user
        registered_or_taken insert_account
    register_user_up =
        rw
          (
            register_user,
            named,
            given,
            add_user,
            assert_user_exists,
            statement_up env up,
            free,
            login_free,
            drawn,
            valid,
            hashing,
            statement_up env up,
            insert_user,
            free,
            fresh,
            registered_or_taken,
            statement_up env up,
            insert_account,
            unopened,
            find_id-snoc user_row w.users fresh,
          )
          refl
