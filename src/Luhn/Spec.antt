-- ===== src/Luhn/Spec.antt =====
-- The Luhn check as a sum over positions, and the loop of internal/security/order_validtion.go
-- against it.
use mathlib.Core.List.{reverse-cons}
use sufirmart.Base.{
  ℕ, ◌+◌, ◌-◌, ◌*◌, ◌/◌, ◌%◌, ◌≤◌, ◌≡◌, refl, ◌≢◌, ◌↔◌, Bool, true, false, not, ◌&&◌, List, [], ◌∷◌,
  ◌++◌, reverse, Str, ◌==◌, if◌then◌else◌, arith,
}
use sufirmart.Luhn.{is_digit, digit_value, luhn_loop, order_num_validation}

-- Every byte is an ASCII digit.
abbrev pub AllDigits : Str → Type 0
AllDigits [] = Unit {0}
AllDigits (c ∷ s) = (b'0' ≤ c) × (c ≤ b'9') × AllDigits s

-- Whether the number of bytes is odd.
abbrev pub odd_length : Str → Bool
odd_length [] = false
odd_length (c ∷ s) = not (odd_length s)

-- A digit counts once, or as the digit sum of its double.
unfoldable pub weight : Bool → ℕ → ℕ
weight double d = if double then 2 * d / 10 + 2 * d % 10 else d

-- A digit is doubled if an odd number of digits stand after it.
unfoldable pub luhn_sum : Str → ℕ
luhn_sum [] = 0
luhn_sum (c ∷ s) = weight (odd_length s) (c - b'0') + luhn_sum s

-- The same sum, last byte first, as the loop goes.
sum_back : Bool → List ℕ → ℕ
sum_back double [] = 0
sum_back double (r ∷ s) = weight double (r - b'0') + sum_back (not double) s

all_digits : Str → Bool
all_digits [] = true
all_digits (c ∷ s) = is_digit c && all_digits s

all_digits_iff : (s : Str) → (all_digits s ≡ true) ↔ AllDigits s
unfolding all_digits is_digit
all_digits_iff [] = (λ _. tt, λ _. refl)
all_digits_iff (c ∷ s) =
    (λ h. ground (arith, all_digits_iff s), λ h. ground (arith, all_digits_iff s))

all_digits-snoc : (s : Str) (c : ℕ) → all_digits (s ++ c ∷ []) ≡ (is_digit c && all_digits s)
unfolding all_digits
all_digits-snoc [] c = refl
all_digits-snoc (d ∷ s) c = ground (arith, all_digits-snoc s c)

all_digits-reverse : (s : Str) → all_digits (reverse s) ≡ all_digits s
unfolding all_digits
all_digits-reverse [] = refl
all_digits-reverse (c ∷ s) =
    rw (reverse-cons c s, all_digits-snoc (reverse s) c, all_digits-reverse s)

digit_value-weight :
    (double : Bool) (r : ℕ) → is_digit r ≡ true → digit_value double r ≡ weight double (r - b'0')
unfolding digit_value weight is_digit
digit_value-weight double r h = ground arith

luhn_loop_lem :
    (s : List ℕ) (sum : ℕ) (double : Bool)
    → luhn_loop s sum double ≡ (all_digits s && ((sum + sum_back double s) % 10 == 0))
unfolding luhn_loop all_digits sum_back
luhn_loop_lem [] sum double = ground arith
luhn_loop_lem (r ∷ s) sum double =
    ground (
      arith,
      luhn_loop_lem s (sum + digit_value double r) (not double),
      digit_value-weight double r,
    )

-- Whether the digit behind `s` is doubled if the first of `s` is, or not.
flip_by : Bool → List ℕ → Bool
flip_by double [] = double
flip_by double (c ∷ s) = flip_by (not double) s

sum_back-snoc :
    (double : Bool) (s : List ℕ) (c : ℕ)
    → sum_back double (s ++ c ∷ []) ≡ weight (flip_by double s) (c - b'0') + sum_back double s
unfolding sum_back flip_by
sum_back-snoc double [] c = omega arith
sum_back-snoc double (d ∷ s) c = omega (arith, sum_back-snoc (not double) s c)

twice_not : (b : Bool) → not (not b) ≡ b
twice_not true = refl
twice_not false = refl

flip_by-snoc :
    (double : Bool) (s : List ℕ) (c : ℕ) → flip_by double (s ++ c ∷ []) ≡ not (flip_by double s)
unfolding flip_by
flip_by-snoc double [] c = refl
flip_by-snoc double (d ∷ s) c = flip_by-snoc (not double) s c

flip_by-reverse : (s : Str) → flip_by false (reverse s) ≡ odd_length s
unfolding flip_by
flip_by-reverse [] = refl
flip_by-reverse (c ∷ s) = rw (reverse-cons c s, flip_by-snoc false (reverse s) c, flip_by-reverse s)

sum_back-reverse : (s : Str) → sum_back false (reverse s) ≡ luhn_sum s
unfolding sum_back luhn_sum
sum_back-reverse [] = refl
sum_back-reverse (c ∷ s) =
    rw (reverse-cons c s, sum_back-snoc false (reverse s) c, flip_by-reverse s, sum_back-reverse s)

-- A number passes exactly when it has a byte, all its bytes are ASCII digits, and the sum by
-- positions, in which every second digit from the right but one counts as the digit sum of its
-- double, is a multiple of 10.
pub order_num_validation_iff :
    (s : Str) → (order_num_validation s ≡ true) ↔ ((s ≢ []) × AllDigits s × (luhn_sum s % 10 ≡ 0))
unfolding order_num_validation
order_num_validation_iff [] = (λ h. cc, λ h. absurd (h.0 refl))
order_num_validation_iff (c ∷ s) = (
  λ h. ground (arith, loop_eq, all_digits_iff (c ∷ s)),
  λ h. ground (arith, loop_eq, all_digits_iff (c ∷ s)),
)
  where
    loop_eq :
        luhn_loop (reverse (c ∷ s)) 0 false
        ≡ (all_digits (c ∷ s) && ((0 + luhn_sum (c ∷ s)) % 10 == 0))
    loop_eq =
        rw (← sum_back-reverse (c ∷ s), ← all_digits-reverse (c ∷ s))
          (luhn_loop_lem (reverse (c ∷ s)) 0 false)
