-- ===== src/Api/Space.antt =====
-- strings.TrimSpace on the bytes of a UTF-8 text.
use sufirmart.Base.{
  ℕ, Bool, true, false, ◌&&◌, ◌||◌, [], ◌∷◌, reverse, Str, leb, ◌==◌, if◌then◌else◌,
}

-- The spaces of one byte: tab, line feed, vertical tab, form feed, carriage return, space.
unfoldable pub space1 : ℕ → Bool
space1 a = (leb 0x09 a && leb a 0x0d) || (a == 0x20)

-- Of two bytes: U+0085 and U+00A0.
unfoldable pub space2 : ℕ → ℕ → Bool
space2 a b = (a == 0xc2) && ((b == 0x85) || (b == 0xa0))

-- Of three bytes: U+1680, U+2000 to U+200A, U+2028, U+2029, U+202F, U+205F, U+3000.
unfoldable pub space3 : ℕ → ℕ → ℕ → Bool
space3 a b c =
    ((a == 0xe1) && ((b == 0x9a) && (c == 0x80)))
    || (((a == 0xe2) && ((b == 0x80) && (leb 0x80 c && leb c 0x8a)))
        || (((a == 0xe2) && ((b == 0x80) && ((c == 0xa8) || ((c == 0xa9) || (c == 0xaf)))))
            || (((a == 0xe2) && ((b == 0x81) && (c == 0x9f)))
                || ((a == 0xe3) && ((b == 0x80) && (c == 0x80))))))

-- The text without its leading spaces.
unfoldable pub trim_left : Str → Str
unfolding space1 space2 space3
trim_left [] = []
trim_left (a ∷ []) = if space1 a then [] else a ∷ []
trim_left (a ∷ b ∷ []) = elim (space1 a) [
  | true ↦ trim_left (b ∷ [])
  | false ↦ if space2 a b then [] else a ∷ b ∷ []
]
trim_left (a ∷ b ∷ c ∷ s) = elim (space1 a) [
  | true ↦ trim_left (b ∷ c ∷ s)
  | false ↦ elim (space2 a b) [
    | true ↦ trim_left (c ∷ s)
    | false ↦ elim (space3 a b c) [ true ↦ trim_left s | false ↦ a ∷ b ∷ c ∷ s ]
  ]
]

-- The reversed text without its trailing spaces.
unfoldable pub trim_right : Str → Str
unfolding space1 space2 space3
trim_right [] = []
trim_right (a ∷ []) = if space1 a then [] else a ∷ []
trim_right (a ∷ b ∷ []) = elim (space1 a) [
  | true ↦ trim_right (b ∷ [])
  | false ↦ if space2 b a then [] else a ∷ b ∷ []
]
trim_right (a ∷ b ∷ c ∷ s) = elim (space1 a) [
  | true ↦ trim_right (b ∷ c ∷ s)
  | false ↦ elim (space2 b a) [
    | true ↦ trim_right (c ∷ s)
    | false ↦ elim (space3 c b a) [ true ↦ trim_right s | false ↦ a ∷ b ∷ c ∷ s ]
  ]
]

unfoldable pub trim_space : Str → Str
unfolding trim_left trim_right
trim_space s = reverse (trim_right (reverse (trim_left s)))
