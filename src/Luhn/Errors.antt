-- ===== src/Luhn/Errors.antt =====
-- What the check of internal/security/order_validtion.go catches in a mistyped order number.
use sufirmart.Base.{
  ℕ, ◌+◌, ◌-◌, ◌%◌, ◌≤◌, ◌≡◌, refl, ◌⊎◌, ◌≢◌, Bool, true, false, not, [], ◌∷◌, ◌++◌, Str, arith,
}
use sufirmart.Luhn.{order_num_validation}
use sufirmart.Luhn.Spec.{AllDigits, odd_length, weight, luhn_sum, order_num_validation_iff}

-- Whether an odd number of digits stand from the start of `s` on, if `odd` says so behind it.
abbrev odd_from : Bool → Str → Bool
odd_from odd [] = odd
odd_from odd (c ∷ s) = not (odd_from odd s)

-- The part of the sum that the digits before a tail make.
head_sum : Bool → Str → ℕ
head_sum odd [] = 0
head_sum odd (c ∷ s) = weight (odd_from odd s) (c - b'0') + head_sum odd s

odd_length-append : (s t : Str) → odd_length (s ++ t) ≡ odd_from (odd_length t) s
odd_length-append [] t = refl
odd_length-append (c ∷ s) t = rw (odd_length-append s t)

luhn_sum-append : (s t : Str) → luhn_sum (s ++ t) ≡ head_sum (odd_length t) s + luhn_sum t
unfolding luhn_sum head_sum
luhn_sum-append [] t = omega arith
luhn_sum-append (c ∷ s) t = rw (odd_length-append s t) (omega (arith, luhn_sum-append s t))

AllDigits-drop : (s t : Str) → AllDigits (s ++ t) → AllDigits t
AllDigits-drop [] t h = h
AllDigits-drop (c ∷ s) t h = AllDigits-drop s t h.2

AllDigits-append : (s t : Str) → AllDigits s → AllDigits t → AllDigits (s ++ t)
AllDigits-append [] t h k = k
AllDigits-append (c ∷ s) t h k = (h.0, h.1, AllDigits-append s t h.2 k)

weight-injective : (b : Bool) (d e : ℕ) → d ≤ 9 → e ≤ 9 → weight b d ≡ weight b e → d ≡ e
unfolding weight
weight-injective true d e h k p = omega arith
weight-injective false d e h k p = omega arith

weight-le : (b : Bool) (d : ℕ) → d ≤ 9 → weight b d ≤ 9
unfolding weight
weight-le true d h = omega arith
weight-le false d h = omega arith

-- What a passing number says of its tail behind a prefix.
tail_facts :
    (s t : Str)
    → order_num_validation (s ++ t) ≡ true
    → AllDigits t × ((head_sum (odd_length t) s + luhn_sum t) % 10 ≡ 0)
tail_facts s t h =
    let facts = (order_num_validation_iff (s ++ t)).0 h in
    (AllDigits-drop s t facts.1, rw (luhn_sum-append s t) at (facts.2))

-- Two numbers that pass and differ in one byte at most are equal: every error in a single digit is
-- caught.
pub single_digit_error :
    (s t : Str) (x y : ℕ)
    → order_num_validation (s ++ x ∷ t) ≡ true
    → order_num_validation (s ++ y ∷ t) ≡ true
    → x ≡ y
unfolding luhn_sum
single_digit_error s t x y h k =
    let (dx, sx) = tail_facts s (x ∷ t) h in
    let (dy, sy) = tail_facts s (y ∷ t) k in
    let p = weight-le (odd_length t) (x - b'0') (omega arith) in
    let q = weight-le (odd_length t) (y - b'0') (omega arith) in
    let same =
      weight-injective (odd_length t) (x - b'0') (y - b'0') (omega arith) (omega arith)
        (omega arith) in
    omega arith

-- If a number passes and still passes with two neighbouring bytes swapped, these are equal, or they
-- are 0 and 9 in some order: every other swap of neighbours is caught.
pub swapped_digits_error :
    (s t : Str) (x y : ℕ)
    → order_num_validation (s ++ x ∷ y ∷ t) ≡ true
    → order_num_validation (s ++ y ∷ x ∷ t) ≡ true
    → (x ≡ y) ⊎ ((x ≡ b'0') × (y ≡ b'9')) ⊎ ((x ≡ b'9') × (y ≡ b'0'))
unfolding luhn_sum weight
swapped_digits_error s t x y h k =
    let (dx, sx) = tail_facts s (x ∷ y ∷ t) h in
    let (dy, sy) = tail_facts s (y ∷ x ∷ t) k in ground arith

-- The digit that completes `s`.
check_digit : Str → ℕ
check_digit s = b'0' + (10 - head_sum true s % 10) % 10

-- Every string of digits is completed to a passing number by one last byte, and by no other.
pub check_digit_unique :
    (s : Str)
    → AllDigits s
    → (c : ℕ) × (order_num_validation (s ++ c ∷ []) ≡ true)
      × ((d : ℕ) → order_num_validation (s ++ d ∷ []) ≡ true → d ≡ c)
unfolding check_digit luhn_sum weight
check_digit_unique s h =
    (check_digit s, passes, λ d k. single_digit_error s [] d (check_digit s) k passes)
  where
    nonempty : (u : Str) (c : ℕ) → u ++ c ∷ [] ≢ []
    nonempty [] c e = cc
    nonempty (d ∷ u) c e = cc

    passes : order_num_validation (s ++ check_digit s ∷ []) ≡ true
    passes = (order_num_validation_iff (s ++ check_digit s ∷ [])).1 (
      nonempty s (check_digit s),
      AllDigits-append s (check_digit s ∷ []) h (omega arith, omega arith, tt),
      rw (luhn_sum-append s (check_digit s ∷ [])) (omega arith),
    )
