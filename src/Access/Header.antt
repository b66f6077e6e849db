-- ===== src/Access/Header.antt =====
-- The token of internal/security/hash.go in the Authorization header: what strings.TrimSpace leaves
-- of it.
use sufirmart.Base.{
  ◌∙◌, ◌≡◌, refl, ℕ, ◌/◌, ◌%◌, ◌≤◌, ◌<◌, false, List, [], ◌∷◌, ◌++◌, reverse, Str, arith, inl, inr,
  sym, ◌≢◌, Bool-cases, str_eq, str_eq_iff,
}
use mathlib.Core.List.{reverse-reverse, reverse-cons}
use sufirmart.Store.{AuthRow}
use sufirmart.Store.Table.{find}
use sufirmart.Users.Tokens.{IsUnseen}
use sufirmart.Users.Hash.{hex_digit, encode_to_string}
use sufirmart.Api.Space.{space1, space2, space3, trim_left, trim_right, trim_space}

-- The bytes of a text that is no space in ASCII.
abbrev pub IsVisible : ℕ → Type 0
IsVisible c = (0x21 ≤ c) × (c < 0x80)

abbrev pub AllVisible : Str → Type 0
AllVisible [] = Unit {0}
AllVisible (c ∷ s) = IsVisible c × AllVisible s

-- What a source of bytes draws.
abbrev pub AllBytes : Str → Type 0
AllBytes [] = Unit {0}
AllBytes (c ∷ s) = (c < 256) × AllBytes s

space1-IsVisible : (a : ℕ) → IsVisible a → space1 a ≡ false
unfolding space1
space1-IsVisible a h = ground arith

space2-IsVisible : (a b : ℕ) → IsVisible a → space2 a b ≡ false
unfolding space2
space2-IsVisible a b h = ground arith

space3-IsVisible : (a b c : ℕ) → IsVisible a → space3 a b c ≡ false
unfolding space3
space3-IsVisible a b c h = ground arith

trim_left-AllVisible : (s : Str) → AllVisible s → trim_left s ≡ s
unfolding trim_left
trim_left-AllVisible [] h = refl
trim_left-AllVisible (a ∷ []) (v, h) = rw (space1-IsVisible a v) refl
trim_left-AllVisible (a ∷ b ∷ []) (v, h) =
    rw (trim_left, space1-IsVisible a v, space2-IsVisible a b v) refl
trim_left-AllVisible (a ∷ b ∷ c ∷ s) (v, h) =
    rw (trim_left, space1-IsVisible a v, space2-IsVisible a b v, space3-IsVisible a b c v) refl

trim_right-AllVisible : (s : Str) → AllVisible s → trim_right s ≡ s
unfolding trim_right
trim_right-AllVisible [] h = refl
trim_right-AllVisible (a ∷ []) (v, h) = rw (space1-IsVisible a v) refl
trim_right-AllVisible (a ∷ b ∷ []) (v, (w, h)) =
    rw (trim_right, space1-IsVisible a v, space2-IsVisible b a w) refl
trim_right-AllVisible (a ∷ b ∷ c ∷ s) (v, (w, (x, h))) =
    rw (trim_right, space1-IsVisible a v, space2-IsVisible b a w, space3-IsVisible c b a x) refl

++-AllVisible : (s t : Str) → AllVisible s → AllVisible t → AllVisible (s ++ t)
++-AllVisible [] t h k = k
++-AllVisible (c ∷ s) t (v, h) k = (v, ++-AllVisible s t h k)

reverse-AllVisible : (s : Str) → AllVisible s → AllVisible (reverse s)
reverse-AllVisible [] h = tt
reverse-AllVisible (c ∷ s) (v, h) =
    rw (reverse-cons c s) (++-AllVisible (reverse s) (c ∷ []) (reverse-AllVisible s h) (v, tt))

pub trim_space-AllVisible : (s : Str) → AllVisible s → trim_space s ≡ s
unfolding trim_space
trim_space-AllVisible s h =
    rw (trim_left-AllVisible s h, trim_right-AllVisible (reverse s) (reverse-AllVisible s h))
      (reverse-reverse s)

hex_digit-IsVisible : (d : ℕ) → d < 16 → IsVisible (hex_digit d)
unfolding hex_digit
hex_digit-IsVisible d h = (ground arith, ground arith)

pub encode_to_string-AllVisible : (s : Str) → AllBytes s → AllVisible (encode_to_string s)
unfolding encode_to_string
encode_to_string-AllVisible [] h = tt
encode_to_string-AllVisible (b ∷ s) (v, h) = (
  hex_digit-IsVisible (b / 16) (omega arith),
  (hex_digit-IsVisible (b % 16) (omega arith), encode_to_string-AllVisible s h),
)

hex_digit-injective : (c d : ℕ) → c < 16 → d < 16 → hex_digit c ≡ hex_digit d → c ≡ d
unfolding hex_digit
hex_digit-injective c d h k e = ground arith

cons-injective : (a b : ℕ) (s t : Str) → a ∷ s ≡ b ∷ t → (a ≡ b) × (s ≡ t)
cons-injective a b s t e = (cc, cc)

pub encode_to_string-injective :
    (s t : Str) → AllBytes s → AllBytes t → encode_to_string s ≡ encode_to_string t → s ≡ t
unfolding encode_to_string
encode_to_string-injective [] [] h k e = refl
encode_to_string-injective [] (b ∷ t) h k e = cc
encode_to_string-injective (a ∷ s) [] h k e = cc
encode_to_string-injective (a ∷ s) (b ∷ t) (v, h) (w, k) e =
    let (high, rest) = cons-injective _ _ _ _ e in
    let (low, tail) = cons-injective _ _ _ _ rest in
    let high' = hex_digit-injective (a / 16) (b / 16) (omega arith) (omega arith) high in
    let low' = hex_digit-injective (a % 16) (b % 16) (omega arith) (omega arith) low in
    let same = encode_to_string-injective s t h k tail in
    let head = bytes-injective high' low' in rw (head, same) refl
  where
    bytes-injective : a / 16 ≡ b / 16 → a % 16 ≡ b % 16 → a ≡ b
    bytes-injective high low = omega arith

-- The tokens of a table are made of other bytes than those drawn.
abbrev pub AllOthers : Str → List AuthRow → Type 0
AllOthers drawn [] = Unit {0}
AllOthers drawn (r ∷ rows) =
    ((s : Str) × AllBytes s × (r.token ≡ encode_to_string s) × (s ≢ drawn)) × AllOthers drawn rows

pub AllOthers-IsUnseen :
    (drawn : Str) (rows : List AuthRow)
    → AllBytes drawn
    → AllOthers drawn rows
    → IsUnseen (encode_to_string drawn) rows
unfolding find
AllOthers-IsUnseen drawn [] h others = refl
AllOthers-IsUnseen drawn (r ∷ rows) h ((s, k, made, differs), others) =
    elim (Bool-cases (str_eq r.token (encode_to_string drawn))) [
      | inl hit ↦ absurd (
          differs (
            encode_to_string-injective s drawn k h
              (sym made ∙ (str_eq_iff r.token (encode_to_string drawn)).0 hit)))
      | inr miss ↦ rw (miss) (AllOthers-IsUnseen drawn rows h others)
    ]
