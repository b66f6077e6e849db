-- ===== src/Tests/Sessions.antt =====
-- Signing in: internal/auth, internal/middleware/auth.go and the login handler.
use sufirmart.Base.{
  ℕ, zero, suc, ◌*◌, ◌%◌, ◌≢◌, List, ◌++◌, hash_failed, arith, inl, inr, ◌≡◌, refl, ◌+◌, true, none,
  some, [], ◌∷◌, Str, str_eq, bytes, ok, pos, ltb, if◌then◌else◌,
}
use sufirmart.Domain.UserId.{new_user_id}
use sufirmart.Store.{UserRow, AuthRow}
use sufirmart.Store.Table.{find}
use sufirmart.Store.Statement.{World}
use sufirmart.Users.{Secrets, find_login}
use sufirmart.Users.Errors.{auth_error_text, err_unauthorized, err_token_missing}
use sufirmart.Users.Hash.{password_hash, password_verify, generate_token, encode_to_string}
use sufirmart.Access.Header.{AllBytes, AllOthers}
use sufirmart.Api.Reply.{respond, http_error, empty_body}
use sufirmart.Access.{UserCredentials, bearer, auth_middleware, post_login, post_register}
use sufirmart.Access.Session.{login_session}
use sufirmart.Access.Registration.{register_outcome}
use sufirmart.Account.Rows.{find_account}
use sufirmart.Tests.Sample.{calm, calm-IsUp, ann, world}

-- A source of bytes that draws the same ones each time.
noise : ℕ → Str
noise zero = []
noise (suc k) = ((192 + (7 * k)) % 256) ∷ noise k

noise-AllBytes : (n : ℕ) → AllBytes (noise n)
unfolding noise
noise-AllBytes zero = tt
noise-AllBytes (suc k) = (omega arith, noise-AllBytes k)

text-made : auth_error_text err_unauthorized ≡ bytes "[AUTH] unauthorized"
unfolding auth_error_text
text-made = refl

wrapped-made :
    auth_error_text (record err_token_missing { previous = some (bytes "no header") })
    ≡ bytes "[AUTH] token is missing (previous: no header)"
unfolding auth_error_text
wrapped-made = refl

-- A hash that is the password with a letter in front.
abbrev secrets : Secrets
secrets = record {
  generate_from_password = λ n password cost. ok (b'h' ∷ password);
  compare_hash_and_password =
      λ hash password. if str_eq (b'h' ∷ password) hash then none else some hash_failed;
  read = λ n length. ok (noise length);
  uuid_v7 = λ n. ok ann;
}

abbrev token : Str
token = encode_to_string (noise 32)

token-made : encode_to_string (171 ∷ 5 ∷ []) ≡ bytes "ab05"
unfolding encode_to_string
token-made = refl

abbrev carol_row : UserRow
carol_row = record { id = ann; login = bytes "carol"; password = bytes "hsecret" }

abbrev carols_world : World
carols_world = record world { db = record (world.db) { users = carol_row ∷ [] } }

abbrev carol : UserCredentials
carol = record { login = bytes "carol"; password = bytes "secret" }

carol-found : find_login (bytes "carol") carols_world.users ≡ some carol_row
unfolding find str_eq
carol-found = refl

carol-verified : password_verify secrets (bytes "secret") (bytes "hsecret") ≡ true
unfolding password_verify str_eq
carol-verified = refl

carol-known : find (λ (v : UserRow). v.id) ann carols_world.users ≡ some carol_row
unfolding find str_eq
carol-known = refl

ann-valid : new_user_id ann ≡ ok ann
unfolding new_user_id
ann-valid = refl

-- A token that is added after carol's.
abbrev later_rows : List AuthRow
later_rows =
    record { user_id = bytes "u"; token = encode_to_string (7 ∷ []); expired_at = 90000 } ∷ []

seven-differs : 7 ∷ [] ≢ noise 32
unfolding noise
seven-differs e = absurd cc

later-AllOthers : AllOthers (noise 32) later_rows
later-AllOthers = ((7 ∷ [], (omega arith, tt), refl, seven-differs), tt)

abbrev after_login : World
after_login = (post_login calm secrets (some carol) carols_world).1

abbrev later : World
later = record after_login {
  db = record (after_login.db) { auths = after_login.auths ++ later_rows };
}

login_session_example :
    ((post_login calm secrets (some carol) carols_world).0
      ≡ ok (respond 200 empty_body, some (bearer token)))
    × ((auth_middleware calm (bearer token) later).0
        ≡ ok (if ltb later.calls (2 + 86400) then inr ann else inl (http_error 401)))
unfolding noise
login_session_example =
    login_session calm calm-IsUp secrets carol 153 (noise 31) b'0'
      (bytes "1234567-89ab-7cde-8f01-23456789abcd") carols_world carol_row refl refl carol-found
      carol-verified refl (noise-AllBytes 32) carol-known tt ann-valid refl later later_rows
      later-AllOthers refl

abbrev nobody : World
nobody = record world { db = record (world.db) { users = []; accounts = [] } }

carol-free : find_login (bytes "carol") nobody.users ≡ none
unfolding find
carol-free = refl

id-free : find (λ (u : UserRow). u.id) ann nobody.users ≡ none
unfolding find
id-free = refl

account-free : find_account ann nobody.accounts ≡ none
unfolding find
account-free = refl

register_outcome_example : post_register calm secrets (some carol) nobody ≡ (
  ok (respond 200 empty_body, some (bearer token)),
  record nobody {
    db = record nobody.db {
      users = carol_row ∷ [];
      accounts = record { user_id = ann; current_balance = pos 0 } ∷ [];
      auths = record { user_id = ann; token = token; expired_at = 7 + 86400 } ∷ [];
    };
    calls = 8;
  },
)
unfolding password_hash generate_token
register_outcome_example =
    register_outcome calm calm-IsUp secrets carol nobody refl refl ann (bytes "hsecret") token
      carol-free refl ann-valid refl id-free account-free carol-verified refl
