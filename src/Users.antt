-- ===== src/Users.antt =====
-- internal/user/registration.go and internal/auth/auth_service.go: users and their tokens.
pub mod Tokens
pub mod Keeps
pub mod Hash
pub mod Errors
pub mod Registration
pub use Hash.{Secrets}
use Hash.{password_hash, password_verify, generate_token}
use sufirmart.Base.{
  ℕ, suc, ◌+◌, Bool, true, false, not, ◌&&◌, ◌||◌, Option, none, some, List, [], ◌∷◌, ◌++◌, Str,
  str_eq, Result, ok, err, no_rows, sql_error, token_missing, user_not_found, invalid_credentials,
  unauthorized, login_already_exists, credentials_required, Exec, pure, raise, lift, attempt,
  continue, ◌>>=◌, ◌>>◌, ltb, if◌then◌else◌,
}
use sufirmart.Domain.UserId.{new_user_id}
use sufirmart.Store.{Db, UserRow, AuthRow}
use sufirmart.Store.Table.{find, select}
use sufirmart.Store.Statement.{Env, World, statement}
use sufirmart.Account.Rows.{one_row, read, insert_account}

-- A draw of something random.
unfoldable pub draw : (ℕ → Result Str) → Exec World Str
draw source w = (source w.calls, record w { calls = suc w.calls })

abbrev pub no_text : Str → Bool
no_text [] = true
no_text (c ∷ s) = false

abbrev pub find_login : Str → List UserRow → Option UserRow
find_login = find λ u. u.login

-- INSERT INTO "user" … ON CONFLICT (login) DO NOTHING, with the number of rows as a test.
unfoldable pub insert_user : Str → Str → Str → Db → Result (Bool × Db)
insert_user id login password db = elim (find_login login db.users) [
  | some _ ↦ ok (false, db)
  | none ↦ elim (find (λ (u : UserRow). u.id) id db.users) [
    | some _ ↦ err sql_error
    | none ↦ ok (
      true,
      record db { users = db.users ++ record { id = id; login = login; password = password } ∷ [] },
    )
  ]
]

-- INSERT INTO auth: a token is good for 24 hours, in seconds.
unfoldable pub insert_auth : Str → Str → ℕ → Db → Result (Unit {0} × Db)
insert_auth user token now db = elim (find (λ (u : UserRow). u.id) user db.users) [
  | none ↦ err sql_error
  | some _ ↦ ok (
    tt,
    record db {
      auths = db.auths ++ record { user_id = user; token = token; expired_at = now + 86400 } ∷ [];
    },
  )
]

-- SELECT … FROM auth WHERE token = $1 AND expired_at > NOW() LIMIT 1
abbrev pub first_row : List AuthRow → Option AuthRow
first_row [] = none
first_row (r ∷ rs) = some r

abbrev pub live_row : Str → ℕ → Db → Option AuthRow
live_row token now db =
    first_row (select (λ (r : AuthRow). str_eq r.token token && ltb now r.expired_at) db.auths)

module _ (env : Env) where
  -- assertUserExists, which returns an error where the login is taken.
  login_free : Result UserRow → Exec World (Unit {0})
  login_free (ok _) = raise login_already_exists
  login_free (err no_rows) = pure tt
  login_free (err e) = raise e

  unfoldable pub assert_user_exists : Str → Exec World (Unit {0})
  unfolding login_free
  assert_user_exists login = do
    row ← attempt (statement env λ _ db. read (one_row (find_login login db.users)) db)
    login_free row

  registered_or_taken : Str → Bool → Exec World (Unit {0})
  registered_or_taken id false = raise login_already_exists
  registered_or_taken id true = statement env λ _. insert_account id

  add_user : Secrets → Str → Str → Exec World (Unit {0})
  unfolding registered_or_taken
  add_user secrets login password = do
    assert_user_exists login
    drawn ← draw secrets.uuid_v7
    id ← lift (new_user_id drawn)
    hashed ← draw λ n. password_hash secrets n password
    inserted ← statement env λ _. insert_user id login hashed
    registered_or_taken id inserted

  -- RegisterUser
  unfoldable pub register_user : Secrets → Str → Str → Exec World (Unit {0})
  unfolding add_user
  register_user secrets login password =
      if no_text login || no_text password
      then raise credentials_required
      else add_user secrets login password

  -- The row of the login, or the error that Authenticate returns.
  credentials_row : Result UserRow → Result UserRow
  credentials_row (ok row) = ok row
  credentials_row (err no_rows) = err invalid_credentials
  credentials_row (err e) = err e

  issue_token : Secrets → Str → Bool → Exec World Str
  issue_token secrets user false = raise invalid_credentials
  issue_token secrets user true = do
    token ← draw (generate_token secrets 32)
    statement env (insert_auth user token)
    pure token

  sign_in : Secrets → Str → Str → Exec World Str
  unfolding credentials_row issue_token
  sign_in secrets login password = do
    row ← attempt (statement env λ _ db. read (one_row (find_login login db.users)) db)
    user ← lift (credentials_row row)
    issue_token secrets user.id (password_verify secrets password user.password)

  -- Authenticate
  unfoldable pub authenticate : Secrets → Str → Str → Exec World Str
  unfolding sign_in
  authenticate secrets login password =
      if no_text login || no_text password
      then raise invalid_credentials
      else sign_in secrets login password

  live_or_unauthorized : Result AuthRow → Result Bool
  live_or_unauthorized (ok _) = ok true
  live_or_unauthorized (err no_rows) = err unauthorized
  live_or_unauthorized (err e) = err e

  -- IsAuthenticated
  unfoldable pub is_authenticated : Str → Exec World Bool
  unfolding live_or_unauthorized
  is_authenticated [] = raise token_missing
  is_authenticated (c ∷ token) = do
    row ← attempt (statement env λ now db. read (one_row (live_row (c ∷ token) now db)) db)
    lift (live_or_unauthorized row)

  user_or_missing : Result AuthRow → Result Str
  user_or_missing (ok row) = new_user_id row.user_id
  user_or_missing (err no_rows) = err user_not_found
  user_or_missing (err e) = err e

  -- GetUserID
  unfoldable pub get_user_id : Str → Exec World Str
  unfolding user_or_missing
  get_user_id [] = raise token_missing
  get_user_id (c ∷ token) = do
    row ← attempt (statement env λ now db. read (one_row (live_row (c ∷ token) now db)) db)
    lift (user_or_missing row)
