-- ===== src/Luhn.antt =====
-- Order numbers: internal/security/order_validtion.go and internal/domain/order_number.go.
pub mod Spec
pub mod Errors
use sufirmart.Base.{
  ℕ, ◌+◌, ◌-◌, ◌*◌, ◌%◌, Bool, false, not, ◌&&◌, List, [], ◌∷◌, reverse, Str, Result, ok, err,
  invalid_order_number, ltb, leb, ◌==◌, if◌then◌else◌,
}

-- unicode.IsDigit at a byte: of the first 256 code points only 0 to 9 are in the class Nd.
is_digit : ℕ → Bool
is_digit r = leb b'0' r && leb r b'9'

-- The value that one round of the loop adds.
digit_value : Bool → ℕ → ℕ
digit_value double r =
    let d = r - b'0' in if double then (if ltb 9 (d * 2) then d * 2 - 9 else d * 2) else d

-- The loop from the last byte to the first: `number` is what is left to read, last byte first.
luhn_loop : List ℕ → ℕ → Bool → Bool
unfolding is_digit digit_value
luhn_loop [] sum double = sum % 10 == 0
luhn_loop (r ∷ number) sum double =
    let rest = luhn_loop number (sum + digit_value double r) (not double) in
    if not (is_digit r) then false else rest

unfoldable pub order_num_validation : Str → Bool
unfolding luhn_loop
order_num_validation [] = false
order_num_validation (c ∷ number) = luhn_loop (reverse (c ∷ number)) 0 false

unfoldable pub new_order_number : Str → Result Str
new_order_number s = if not (order_num_validation s) then err invalid_order_number else ok s
