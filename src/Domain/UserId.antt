-- ===== src/Domain/UserId.antt =====
-- internal/domain/user_id.go.
use sufirmart.Base.{
  ℕ, Bool, true, false, ◌&&◌, ◌||◌, List, [], ◌∷◌, ◌++◌, Str, Result, ok, err, invalid_user_id, leb,
  ◌==◌, if◌then◌else◌,
}

-- The character classes of the pattern.
pub data Class : Type 0 where
  hex dash seven variant : Class

-- [0-9a-f]
is_hex : ℕ → Bool
is_hex c = (leb b'0' c && leb c b'9') || (leb b'a' c && leb c b'f')

in_class : Class → ℕ → Bool
unfolding is_hex
in_class hex c = is_hex c
in_class dash c = c == b'-'
in_class seven c = c == b'7'
in_class variant c = (c == b'8') || (c == b'9') || (c == b'a') || (c == b'b')

matches : List Class → Str → Bool
unfolding in_class
matches [] [] = true
matches [] (c ∷ s) = false
matches (k ∷ p) [] = false
matches (k ∷ p) (c ∷ s) = in_class k c && matches p s

abbrev hex3 : List Class
hex3 = hex ∷ hex ∷ hex ∷ []

abbrev hex4 : List Class
hex4 = hex ∷ hex3

-- ^[0-9a-f]{8}-[0-9a-f]{4}-7[0-9a-f]{3}-[89ab][0-9a-f]{3}-[0-9a-f]{12}$
uuid_v7_regexp : List Class
uuid_v7_regexp =
    hex4
    ++ hex4
    ++ dash ∷ hex4
    ++ dash ∷ seven ∷ hex3
    ++ dash ∷ variant ∷ hex3
    ++ dash ∷ hex4
    ++ hex4
    ++ hex4

-- NewUserID
unfoldable pub new_user_id : Str → Result Str
unfolding matches uuid_v7_regexp
new_user_id s = if matches uuid_v7_regexp s then ok s else err invalid_user_id
