-- ===== src/Domain/Amount.antt =====
-- Amounts of points. A float64 amount of the code is a whole number of ten-thousandths, without
-- the rounding of binary fractions; a numeric(16, 2) column of migrations/000004_balance.up.sql and
-- migrations/000006_account_balance.up.sql is a whole number of hundredths.
use sufirmart.Base.{
  refl, ◌≤ℤ◌, true, false, ltb_ℤ, ◌+◌, ◌*◌, ◌/◌, ◌≡◌, Bool, Result, ok, err, sql_error, ltb, leb_ℤ,
  if◌then◌else◌, arith, ℤ, pos, negsuc, pos_part, neg_part, ◌+ℤ◌, ◌-ℤ◌, sub_ℕ,
}

abbrev pub Float64 : Type 0
Float64 = ℤ

abbrev pub Numeric : Type 0
Numeric = ℤ

-- math.Abs
abbrev pub abs : Float64 → Float64
abs x = pos (pos_part x + neg_part x)

-- Scan of a numeric into a float64.
unfoldable pub of_numeric : Numeric → Float64
of_numeric (pos n) = pos (n * 100)
of_numeric (negsuc n) = negsuc (n * 100 + 99)

-- Rounding to hundredths, halves away from zero.
unfoldable pub round_hundredths : Float64 → Numeric
round_hundredths x = sub_ℕ ((pos_part x + 50) / 100) ((neg_part x + 50) / 100)

-- numeric(16, 2) has fourteen digits before the point.
abbrev pub fits : Numeric → Bool
fits n = ltb (pos_part n + neg_part n) 10_000_000_000_000_000

-- The cast to numeric(16, 2) when a value is stored.
unfoldable pub to_numeric : Float64 → Result Numeric
unfolding round_hundredths
to_numeric x = if fits (round_hundredths x) then ok (round_hundredths x) else err sql_error

pub round-of_numeric : (n : Numeric) → round_hundredths (of_numeric n) ≡ n
unfolding round_hundredths of_numeric
round-of_numeric (pos n) = ground arith
round-of_numeric (negsuc n) = ground arith

pub of_numeric-sub : (a b : Numeric) → of_numeric a -ℤ of_numeric b ≡ of_numeric (a -ℤ b)
unfolding of_numeric ◌-ℤ◌
of_numeric-sub a b = ground arith

pub of_numeric-add : (a b : Numeric) → of_numeric a +ℤ of_numeric b ≡ of_numeric (a +ℤ b)
unfolding of_numeric ◌+ℤ◌
of_numeric-add a b = ground arith

pub leb-of_numeric : (a b : Numeric) → leb_ℤ (of_numeric a) (of_numeric b) ≡ leb_ℤ a b
unfolding of_numeric
leb-of_numeric a b = ground arith

-- A stored positive amount is not negative.
pub to_numeric_nonneg :
    (x : Float64) (c : Numeric) → ltb_ℤ (pos 0) x ≡ true → to_numeric x ≡ ok c → pos 0 ≤ℤ c
unfolding to_numeric
to_numeric_nonneg x c h e = ground arith

-- What is not positive as an amount and not negative in the column is zero.
pub numeric_zero : (n : Numeric) → pos 0 ≤ℤ n → ltb_ℤ (pos 0) (of_numeric n) ≡ false → n ≡ pos 0
unfolding of_numeric
numeric_zero n h e = ground arith

pub to_numeric-abs_nonneg : (x : Float64) (c : Numeric) → to_numeric (abs x) ≡ ok c → pos 0 ≤ℤ c
unfolding to_numeric
to_numeric-abs_nonneg x c e = ground arith

-- Storing a difference of stored amounts.
pub to_numeric-sub :
    (a b : Numeric)
    → to_numeric (of_numeric a -ℤ of_numeric b)
      ≡ (if fits (a -ℤ b) then ok (a -ℤ b) else err sql_error)
unfolding to_numeric
to_numeric-sub a b = rw (of_numeric-sub a b, round-of_numeric (a -ℤ b))

pub to_numeric-zero : to_numeric (pos 0) ≡ ok (pos 0)
unfolding to_numeric
to_numeric-zero = refl

pub of_numeric-positive : (n : Numeric) → ltb_ℤ (pos 0) (of_numeric n) ≡ ltb_ℤ (pos 0) n
unfolding of_numeric
of_numeric-positive n = ground arith
