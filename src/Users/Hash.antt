-- ===== src/Users/Hash.antt =====
-- internal/security/hash.go: hashes of passwords, and tokens.
use sufirmart.Base.{
  ℕ, ◌+◌, ◌/◌, ◌%◌, Bool, true, false, Option, none, some, [], ◌∷◌, Str, Result, ok, err, Error,
  ltb, if◌then◌else◌,
}

-- What bcrypt, crypto/rand and uuid.NewV7 give; what is random is a function of the number of
-- outside calls made so far. bcrypt takes the cost after the password, and compares a hash with a
-- password; `read` takes the number of bytes to draw.
pub record Secrets : Type 0 where
  pub generate_from_password : ℕ → Str → ℕ → Result Str
  pub compare_hash_and_password : Str → Str → Option Error
  pub read : ℕ → ℕ → Result Str
  pub uuid_v7 : ℕ → Result Str

-- bcrypt.DefaultCost
abbrev default_cost : ℕ
default_cost = 10

-- PasswordHash
unfoldable pub password_hash : Secrets → ℕ → Str → Result Str
password_hash secrets n password = secrets.generate_from_password n password default_cost

succeeded : Option Error → Bool
succeeded none = true
succeeded (some e) = false

-- PasswordVerify
unfoldable pub password_verify : Secrets → Str → Str → Bool
unfolding succeeded
password_verify secrets password hash = succeeded (secrets.compare_hash_and_password hash password)

-- The digit of a number below 16.
unfoldable pub hex_digit : ℕ → ℕ
hex_digit d = if ltb d 10 then b'0' + d else 87 + d

-- hex.EncodeToString
unfoldable pub encode_to_string : Str → Str
unfolding hex_digit
encode_to_string [] = []
encode_to_string (b ∷ s) = hex_digit (b / 16) ∷ hex_digit (b % 16) ∷ encode_to_string s

encoded : Result Str → Result Str
encoded (ok drawn) = ok (encode_to_string drawn)
encoded (err e) = err e

-- GenerateToken
unfoldable pub generate_token : Secrets → ℕ → ℕ → Result Str
unfolding encoded
generate_token secrets length n = encoded (secrets.read n length)
