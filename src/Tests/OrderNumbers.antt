-- ===== src/Tests/OrderNumbers.antt =====
-- Luhn numbers: internal/domain/service/security.
use sufirmart.Base.{◌≡◌, ◌≢◌, refl, true, false, [], ◌∷◌, ◌++◌, ◌%◌, ◌⊎◌, Str, bytes, ◌↔◌, ℕ}
use sufirmart.Luhn.{order_num_validation}
use sufirmart.Luhn.Spec.{AllDigits, luhn_sum, order_num_validation_iff}
use sufirmart.Luhn.Errors.{single_digit_error, swapped_digits_error}

abbrev number : Str
number = bytes "79927398713"

number-passes : order_num_validation number ≡ true
unfolding order_num_validation
number-passes = refl

number-fails : order_num_validation (bytes "79927398710") ≡ false
unfolding order_num_validation
number-fails = refl

empty-fails : order_num_validation [] ≡ false
unfolding order_num_validation
empty-fails = refl

order_num_validation_iff_example :
    (order_num_validation number ≡ true)
    ↔ ((number ≢ []) × AllDigits number × (luhn_sum number % 10 ≡ 0))
order_num_validation_iff_example = order_num_validation_iff number

eighteen : order_num_validation (bytes "1" ++ b'8' ∷ []) ≡ true
unfolding order_num_validation
eighteen = refl

abbrev zero_digit : ℕ
zero_digit = b'0'

abbrev eight_digit : ℕ
eight_digit = b'8'

abbrev nine_digit : ℕ
nine_digit = b'9'

single_digit_error_example : eight_digit ≡ eight_digit
single_digit_error_example = single_digit_error (bytes "1") [] b'8' b'8' eighteen eighteen

nine_last : order_num_validation (bytes "1" ++ b'0' ∷ b'9' ∷ []) ≡ true
unfolding order_num_validation
nine_last = refl

nine_first : order_num_validation (bytes "1" ++ b'9' ∷ b'0' ∷ []) ≡ true
unfolding order_num_validation
nine_first = refl

swapped_digits_error_example :
    (zero_digit ≡ nine_digit)
    ⊎ ((zero_digit ≡ b'0') × (nine_digit ≡ b'9'))
    ⊎ ((zero_digit ≡ b'9') × (nine_digit ≡ b'0'))
swapped_digits_error_example = swapped_digits_error (bytes "1") [] b'0' b'9' nine_last nine_first
